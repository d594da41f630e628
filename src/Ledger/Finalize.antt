-- ===== src/Ledger/Finalize.antt =====
-- `sync_request_with_registered_personal_info` and `finalize_ledger` of
-- app/utils/ibet_ledger_utils.py.
use ibet_prime.Base.{
  ℕ, suc, leb, ◌==◌, ◌&&◌, not, Bool, true, false, List, [], ◌∷◌, ◌++◌, Option, none, some, map,
  select, first, if◌then◌else◌,
}
use ibet_prime.Base.Sort.{sort_by}
use ibet_prime.Chain.{Address}
use ibet_prime.Tokens.{Token}
use ibet_prime.Ledger.Tables.{
  LedgerDataType, LedgerTemplate, LedgerDetailsTemplate, LedgerCreationRequestData, Details,
  IdxPersonalInfo, Office,
}
use ibet_prime.Ledger.Dataset.{same_source}
use ibet_prime.Ledger.Request.{LedgerTables, same_type}

-- `__get_personal_info`
unfoldable pub get_personal_info : List IdxPersonalInfo → Address → Address → Option IdxPersonalInfo
get_personal_info infos account issuer =
    elim (first
      (λ (i : IdxPersonalInfo). i.account_address == account && i.issuer_address == issuer) infos) [
        | none ↦ none
        | some i ↦ if i.any then some i else none
      ]

abbrev pub is_null : Option ℕ → Bool
is_null none = true
is_null (some _) = false

-- `account_address != issuer_address`: the empty text is no address.
abbrev pub is_other : Address → Option Address → Bool
is_other issuer none = true
is_other issuer (some a) = not (a == issuer)

-- The rows of a request whose personal information is not set, the issuer's aside.
abbrev pub is_unset : ℕ → Address → LedgerCreationRequestData → Bool
is_unset request_id issuer r =
    r.request_id == request_id
    && same_type r.data_type LedgerDataType.ibet_fin
    && is_other issuer r.holding.account_address
    && is_null r.holding.name

-- The information of a row's account.
abbrev pub info_of :
    List IdxPersonalInfo → Address → LedgerCreationRequestData → Option IdxPersonalInfo
info_of infos issuer r = elim (r.holding.account_address) [
  | none ↦ none
  | some account ↦ get_personal_info infos account issuer
]

-- The loop over the unset rows: the rows, how many were unset, and for how many of them there is
-- information.
unfoldable pub sync_rows :
    List IdxPersonalInfo
    → ℕ
    → Address
    → List LedgerCreationRequestData
    → List LedgerCreationRequestData × ℕ × ℕ
unfolding get_personal_info
sync_rows infos request_id issuer [] = ([], 0, 0)
sync_rows infos request_id issuer (r ∷ rs) =
    let (rest, unset, set) = sync_rows infos request_id issuer rs in
    if is_unset request_id issuer r
    then elim (info_of infos issuer r) [
      | none ↦ (r ∷ rest, suc unset, set)
      | some i ↦ (
        record r { holding = record (r.holding) { name = i.name; address = i.address } } ∷ rest,
        suc unset,
        suc set,
      )
    ]
    else (r ∷ rest, unset, set)

abbrev pub older_template : LedgerDetailsTemplate → LedgerDetailsTemplate → Bool
older_template t u = leb t.id u.id

-- An entry of `ledger_details`.
abbrev pub details_of : ℕ → Bool → List LedgerCreationRequestData → LedgerDetailsTemplate → Details
details_of request_id some_personal_info_not_registered rows t = record {
  token_detail_type = t.token_detail_type;
  headers = t.headers;
  rows =
      map (λ (r : LedgerCreationRequestData). r.holding)
        (select
          (λ (r : LedgerCreationRequestData).
            r.request_id == request_id
            && same_type r.data_type t.data_type
            && same_source r.data_source t.data_source)
          rows);
  footers = t.footers;
  some_personal_info_not_registered =
      if same_type t.data_type LedgerDataType.db then false else some_personal_info_not_registered;
}

-- `finalize_ledger`. The new row's id is the next of its sequence.
unfoldable pub finalize_ledger :
    Office → List Token → ℕ → Address → Option ℕ → Bool → LedgerTables → LedgerTables
finalize_ledger o tokens request_id token_address currency unregistered d =
    elim (first (λ (t : Token). t.token_address == token_address) tokens) [
      | none ↦ d
      | some token ↦ elim token.type [
        | none ↦ d
        | some type ↦
            elim (first (λ (t : LedgerTemplate). t.token_address == token_address) d.templates) [
              | none ↦ d
              | some template ↦ record d {
                ledgers =
                    d.ledgers
                    ++ record {
                      id = d.next_ledger_id;
                      token_address = token_address;
                      token_type = some type;
                      created = o.local_date o.now;
                      token_name = template.token_name;
                      currency = currency;
                      headers = template.headers;
                      details = map (details_of request_id unregistered d.request_data) (
                          sort_by older_template (
                            select (λ (t : LedgerDetailsTemplate). t.token_address == token_address)
                              d.details_templates));
                      footers = template.footers;
                    }
                      ∷ [];
                request_data =
                    select (λ (r : LedgerCreationRequestData). not (r.request_id == request_id))
                      d.request_data;
                notices =
                    d.notices
                    ++ record {
                      issuer_address = token.issuer_address;
                      token_address = token_address;
                      token_type = some type;
                      ledger_id = d.next_ledger_id;
                    }
                      ∷ [];
                next_ledger_id = suc d.next_ledger_id;
              }
            ]
      ]
    ]
