-- ===== src/Ledger/Dataset.antt =====
-- `__create_dataset_from_ibetfin` and `__create_dataset_from_db` of app/utils/ibet_ledger_utils.py.
use ibet_prime.Base.{
  ℕ, ◌+◌, ◌*◌, leb, ltb, ◌==◌, ◌&&◌, ◌||◌, Bool, true, false, List, [], ◌∷◌, ◌++◌, Option, none,
  some, map, select, upsert,
}
use ibet_prime.Base.Sort.{sort_by}
use ibet_prime.Chain.{Address}
use ibet_prime.Utxo.Table.{Utxo}
use ibet_prime.Ledger.Tables.{LedgerDataType, LedgerCreationRequestData, LedgerDetailsData, Office}

-- `order_by(UTXO.account_address, UTXO.block_timestamp)`
abbrev pub by_account : Utxo → Utxo → Bool
by_account u w =
    ltb u.account_address w.account_address
    || (u.account_address == w.account_address && leb u.block_timestamp w.block_timestamp)

-- `utxo_grouped`: for each account, for each day, the sum of the amounts.
abbrev pub Grouped : Type 0
Grouped = List (ℕ × List (ℕ × ℕ))

-- The branches on the day, and on the account.
abbrev pub add_amount : ℕ → Option ℕ → ℕ
add_amount amount none = amount
add_amount amount (some n) = n + amount

abbrev pub add_day : ℕ → ℕ → Option (List (ℕ × ℕ)) → List (ℕ × ℕ)
add_day date_ymd amount none = (date_ymd, amount) ∷ []
add_day date_ymd amount (some days) = upsert date_ymd (add_amount amount) days

-- The body of the loop over the UTXOs.
unfoldable pub group_utxo : Office → Utxo → Grouped → Grouped
group_utxo o u grouped =
    upsert u.account_address (add_day (o.local_date u.block_timestamp) u.amount) grouped

unfoldable pub group_utxos : Office → List Utxo → Grouped → Grouped
unfolding group_utxo
group_utxos o [] grouped = grouped
group_utxos o (u ∷ us) grouped = group_utxos o us (group_utxo o u grouped)

-- The row of an account and a day.
abbrev pub dataset_row : ℕ → Option ℕ → ℕ → Address → ℕ × ℕ → LedgerCreationRequestData
dataset_row request_id data_source price account (date_ymd, amount) = record {
  request_id = request_id;
  data_type = LedgerDataType.ibet_fin;
  data_source = data_source;
  holding = record {
    account_address = some account;
    name = none;
    address = none;
    amount = some amount;
    price = some price;
    balance = some (price * amount);
    acquisition_date = date_ymd;
  };
}

-- The two loops over `utxo_grouped`.
unfoldable pub dataset_rows : ℕ → Option ℕ → ℕ → Grouped → List LedgerCreationRequestData
dataset_rows request_id data_source price [] = []
dataset_rows request_id data_source price ((account, days) ∷ rest) =
    map (dataset_row request_id data_source price account) days
    ++ dataset_rows request_id data_source price rest

-- The rows that `__create_dataset_from_ibetfin` adds for a share or a bond.
unfoldable pub dataset_from_ibetfin :
    Office → ℕ → Address → Option ℕ → List Utxo → List LedgerCreationRequestData
unfolding group_utxos dataset_rows
dataset_from_ibetfin o request_id token data_source utxos =
    let held =
      sort_by by_account
        (select (λ (u : Utxo). u.token_address == token && ltb 0 u.amount) utxos) in
    dataset_rows request_id data_source (o.unit_price token) (group_utxos o held [])

-- `==` on a nullable column, where the value may be `None`: `IS NULL`.
abbrev pub same_source : Option ℕ → Option ℕ → Bool
same_source none none = true
same_source (some x) (some y) = x == y
same_source _ _ = false

abbrev pub older_details : LedgerDetailsData → LedgerDetailsData → Bool
older_details d e = leb d.id e.id

-- The rows that `__create_dataset_from_db` adds.
unfoldable pub dataset_from_db :
    ℕ → Address → Option ℕ → List LedgerDetailsData → List LedgerCreationRequestData
dataset_from_db request_id token data_source rows =
    map
      (λ (d : LedgerDetailsData). record {
        request_id = request_id;
        data_type = LedgerDataType.db;
        data_source = data_source;
        holding = record (d.holding) { account_address = none };
      })
      (sort_by older_details (
        select
          (λ (d : LedgerDetailsData). d.token_address == token && same_source d.data_id data_source)
          rows))
