-- ===== src/Ledger/Request.antt =====
-- `request_ledger_creation` of app/utils/ibet_ledger_utils.py, within the savepoint in which
-- `Processor.process` of batch/processor_create_utxo.py calls it.
use ibet_prime.Base.{
  ℕ, suc, leb, ◌==◌, ◌&&◌, Bool, true, false, List, [], ◌∷◌, ◌++◌, Option, none, some, select,
  first, if◌then◌else◌,
}
use ibet_prime.Chain.{Address, maxsize}
use ibet_prime.Tokens.{Token, is_succeeded}
use ibet_prime.Utxo.Table.{Utxo}
use ibet_prime.Utxo.Process.{Request}
use ibet_prime.Ledger.Tables.{
  LedgerDataType, LedgerCreationStatus, LedgerTemplate, LedgerDetailsTemplate,
  LedgerCreationRequest, LedgerCreationRequestData, LedgerDetailsData, Ledger, LedgerNotice,
  IdxPersonalInfo, Office,
}
use ibet_prime.Ledger.Dataset.{same_source, dataset_from_ibetfin, dataset_from_db}

-- The tables of the ledger code. `next_id` stands for `uuid.uuid4()`: the ids drawn are distinct.
pub record LedgerTables : Type 0 where
  pub templates : List LedgerTemplate
  pub details_templates : List LedgerDetailsTemplate
  pub details_data : List LedgerDetailsData
  pub personal_info : List IdxPersonalInfo
  pub requests : List LedgerCreationRequest
  pub request_data : List LedgerCreationRequestData
  pub ledgers : List Ledger
  pub notices : List LedgerNotice
  pub next_id : ℕ
  pub next_ledger_id : ℕ

abbrev pub same_type : LedgerDataType → LedgerDataType → Bool
same_type LedgerDataType.ibet_fin LedgerDataType.ibet_fin = true
same_type LedgerDataType.db LedgerDataType.db = true
same_type _ _ = false

-- `func.distinct(tuple_(data_type, data_source))`, which gives each pair once; in the order of their
-- last mention, since SQL leaves it open.
unfoldable pub distinct_sources : List LedgerDetailsTemplate → List (LedgerDataType × Option ℕ)
distinct_sources [] = []
distinct_sources (t ∷ ts) =
    let rest = distinct_sources ts in
    elim (first
      (λ (p : LedgerDataType × Option ℕ).
        same_type p.0 t.data_type && same_source p.1 t.data_source)
      rest) [ none ↦ (t.data_type, t.data_source) ∷ rest | some _ ↦ rest ]

-- `__create_ledger_input_dataset`
unfoldable pub input_dataset :
    Office
    → List Utxo
    → List LedgerDetailsData
    → ℕ
    → Address
    → LedgerDataType × Option ℕ
    → List LedgerCreationRequestData
input_dataset o utxos details request_id token (LedgerDataType.db, data_source) =
    dataset_from_db request_id token data_source details
input_dataset o utxos details request_id token (LedgerDataType.ibet_fin, data_source) =
    dataset_from_ibetfin o request_id token data_source utxos

unfoldable pub input_datasets :
    Office
    → List Utxo
    → List LedgerDetailsData
    → ℕ
    → Address
    → List (LedgerDataType × Option ℕ)
    → List LedgerCreationRequestData
unfolding input_dataset
input_datasets o utxos details request_id token [] = []
input_datasets o utxos details request_id token (s ∷ ss) =
    input_dataset o utxos details request_id token s
    ++ input_datasets o utxos details request_id token ss

-- A `BigInteger` column, which is null or has at most 64 bits.
abbrev pub is_storable : Option ℕ → Bool
is_storable none = true
is_storable (some n) = leb n maxsize

-- The rows that `flush` writes, or `none` for the `DBAPIError` of a number that does not fit.
unfoldable pub flush_rows : List LedgerCreationRequestData → Option (List LedgerCreationRequestData)
flush_rows [] = some []
flush_rows (r ∷ rs) = elim (flush_rows rs) [
  | none ↦ none
  | some stored ↦
      if is_storable r.holding.amount
        && is_storable r.holding.price
        && is_storable r.holding.balance
      then some (r ∷ stored)
      else none
]

-- `request_ledger_creation` and the `flush` after it.
unfoldable pub request_ledger_creation : Office → List Token → Request LedgerTables
unfolding distinct_sources input_datasets flush_rows
request_ledger_creation o tokens token_address utxos d =
    elim (first (λ (t : Token). t.token_address == token_address && is_succeeded t.token_status)
      tokens) [
        | none ↦ some d
        | some token ↦ elim token.type [
          | none ↦ some d
          | some type ↦
              elim (first (λ (t : LedgerTemplate). t.token_address == token_address) d.templates) [
                | none ↦ some d
                | some _ ↦
                    let sources = distinct_sources (
                      select (λ (t : LedgerDetailsTemplate). t.token_address == token_address)
                        d.details_templates) in
                    elim (flush_rows
                      (input_datasets o utxos d.details_data d.next_id token_address sources)) [
                        | none ↦ none
                        | some rows ↦ some (record d {
                          requests =
                              d.requests
                              ++ record {
                                request_id = d.next_id;
                                token_type = some type;
                                token_address = token_address;
                                status = LedgerCreationStatus.processing;
                                created = o.now;
                              }
                                ∷ [];
                          request_data = d.request_data ++ rows;
                          next_id = suc d.next_id;
                        })
                      ]
              ]
        ]
      ]
