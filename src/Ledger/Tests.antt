-- ===== src/Ledger/Tests.antt =====
-- Runs of the ledger code on small tables.
use ibet_prime.Base.{
  ℕ, ◌+◌, ◌≡◌, refl, true, false, List, [], ◌∷◌, some, arith, ◌==◌, ◌||◌, sum_of, All, ltb,
  if◌then◌else◌,
}
use ibet_prime.Chain.{maxsize}
use ibet_prime.Tokens.{Token, TokenType, TokenStatus}
use ibet_prime.Utxo.Table.{Utxo}
use ibet_prime.Ledger.Tables.{
  LedgerDataType, LedgerCreationStatus, LedgerDetailsTemplate, LedgerCreationRequest,
  LedgerCreationRequestData, Office,
}
use ibet_prime.Ledger.Dataset.{group_utxo, group_utxos, dataset_rows, dataset_from_ibetfin}
use ibet_prime.Ledger.Request.{
  LedgerTables, distinct_sources, input_dataset, input_datasets, flush_rows,
  request_ledger_creation,
}
use ibet_prime.Ledger.Finalize.{sync_rows, details_of}
use ibet_prime.Ledger.Process.{six_hours, set_completed, process_request, process_ledgers}
use ibet_prime.Ledger.Sums.{holding_amount, utxo_amount}
use ibet_prime.Ledger.Days.{IsDaily, dataset_from_ibetfin-IsDaily}
use ibet_prime.Ledger.Entries.{details_of-request_ledger_creation}
use ibet_prime.Ledger.Completes.{none_of, is_lacking, process_request-completes}
use ibet_prime.Ledger.Forgotten.{ledgers_of, process_ledgers_forgotten}
use ibet_prime.Ledger.Finishes.{IsCompleted, IsOverdue, process_ledgers-IsCompleted}

abbrev utxo : ℕ → ℕ → ℕ → ℕ → Utxo
utxo hash account amount time = record {
  transaction_hash = hash;
  account_address = account;
  token_address = 10;
  amount = amount;
  block_number = time;
  block_timestamp = time;
}

-- Account 2 holds 4 and 6 from one day and 1 from another; a row of account 3 is spent.
abbrev utxos : List Utxo
utxos = utxo 100 2 4 5 ∷ utxo 101 3 0 6 ∷ utxo 102 2 6 7 ∷ utxo 103 2 1 25 ∷ []

-- A day has ten ticks; it is long after six hours.
abbrev office : Office
office = record {
  unit_price = λ token. 3;
  issuer_address = λ token. 1;
  face_value_currency = λ token. 5;
  local_date = λ time. if ltb time 10 then 0 else 1;
  now = 30_000_000_000;
}

abbrev token : Token
token = record {
  id = 1;
  type = some TokenType.ibet_share;
  issuer_address = 1;
  token_address = 10;
  token_status = some TokenStatus.succeeded;
}

abbrev template : LedgerDetailsTemplate
template = record {
  id = 1;
  token_address = 10;
  token_detail_type = 0;
  headers = 0;
  footers = 0;
  data_type = LedgerDataType.ibet_fin;
  data_source = some 10;
}

abbrev tables : LedgerTables
tables = record {
  templates = record { token_address = 10; token_name = 0; headers = 0; footers = 0 } ∷ [];
  details_templates = template ∷ [];
  details_data = [];
  personal_info = [];
  requests = [];
  request_data = [];
  ledgers = [];
  notices = [];
  next_id = 1;
  next_ledger_id = 1;
}

abbrev request : LedgerCreationRequest
request = record {
  request_id = 1;
  token_type = some TokenType.ibet_share;
  token_address = 10;
  status = LedgerCreationStatus.processing;
  created = 0;
}

abbrev requested : LedgerTables
requested = record tables {
  requests = record request { created = 30_000_000_000 } ∷ [];
  request_data = dataset_from_ibetfin office 1 10 (some 10) utxos;
  next_id = 2;
}

requests : request_ledger_creation office (token ∷ []) 10 utxos tables ≡ some requested
unfolding request_ledger_creation distinct_sources input_datasets input_dataset flush_rows
    dataset_from_ibetfin dataset_rows group_utxos group_utxo maxsize
requests = refl

details_of-request_ledger_creation_example :
    sum_of
      (holding_amount (λ account day. account == 2))
      (details_of 1 true (sync_rows [] 1 1 requested.request_data).0 template).rows
    ≡ sum_of (utxo_amount office 10 (λ account day. account == 2)) utxos
details_of-request_ledger_creation_example =
    details_of-request_ledger_creation office (token ∷ []) 10 utxos tables requested template [] 1
      true (λ account day. account == 2) requests (omega arith) tt refl refl

dataset_from_ibetfin-IsDaily_example : IsDaily (dataset_from_ibetfin office 1 10 (some 10) utxos)
dataset_from_ibetfin-IsDaily_example = dataset_from_ibetfin-IsDaily office 1 10 (some 10) utxos

-- The request was made six hours ago and more.
abbrev overdue : LedgerTables
overdue = record requested { requests = request ∷ [] }

process_request-completes_example :
    (process_request office (token ∷ []) (TokenType.ibet_share, 10) request overdue).requests ≡ (
      if none_of (is_lacking [] 1 1) overdue.request_data || ltb (0 + six_hours) 30_000_000_000
      then set_completed 1 (request ∷ [])
      else request ∷ [])
process_request-completes_example =
    process_request-completes office (token ∷ []) TokenType.ibet_share 10 request overdue

known : IsOverdue office request
known = ((λ e. cc), omega arith)

process_ledgers-IsCompleted_example :
    let (d', raised) = process_ledgers 1 office (token ∷ []) overdue in
    (raised ≡ false) × All IsCompleted d'.requests
process_ledgers-IsCompleted_example =
    process_ledgers-IsCompleted 1 office (token ∷ []) overdue (omega arith) (known, tt)

-- The template is deleted while the request waits.
abbrev bare : LedgerTables
bare = record overdue { templates = [] }

process_ledgers_forgotten_example :
    let (d', raised) = process_ledgers 1 office (token ∷ []) bare in
    (raised ≡ false) × All IsCompleted d'.requests × (ledgers_of 10 d' ≡ [])
process_ledgers_forgotten_example =
    process_ledgers_forgotten 1 office (token ∷ []) bare 10 refl (omega arith) (known, tt)

-- Two rows: one for each day.
groups : sum_of (λ (l : LedgerCreationRequestData). 1) requested.request_data ≡ 2
unfolding dataset_from_ibetfin dataset_rows group_utxos group_utxo
groups = refl
