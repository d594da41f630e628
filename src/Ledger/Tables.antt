-- ===== src/Ledger/Tables.antt =====
-- The tables of app/model/db/ledger.py and app/model/db/idx_personal_info.py, and what the ledger code
-- asks of the contracts and of Python's libraries. Texts, JSON values and ids are numbers. Times are in
-- microseconds.
use ibet_prime.Base.{ℕ, Bool, List, Option}
use ibet_prime.Chain.{Address}
use ibet_prime.Tokens.{TokenType}

pub data LedgerDataType : Type 0 where
  ibet_fin db : LedgerDataType

pub data LedgerCreationStatus : Type 0 where
  processing completed : LedgerCreationStatus

pub record LedgerTemplate : Type 0 where
  pub token_address : Address
  pub token_name : ℕ
  pub headers : ℕ
  pub footers : ℕ

pub record LedgerDetailsTemplate : Type 0 where
  pub id : ℕ
  pub token_address : Address
  pub token_detail_type : ℕ
  pub headers : ℕ
  pub footers : ℕ
  pub data_type : LedgerDataType
  pub data_source : Option ℕ

-- `created` is the column of the base class.
pub record LedgerCreationRequest : Type 0 where
  pub request_id : ℕ
  pub token_type : Option TokenType
  pub token_address : Address
  pub status : LedgerCreationStatus
  pub created : ℕ

-- The columns of a row that go into the ledger. No account address is the empty text.
pub record Holding : Type 0 where
  pub account_address : Option Address
  pub name : Option ℕ
  pub address : Option ℕ
  pub amount : Option ℕ
  pub price : Option ℕ
  pub balance : Option ℕ
  pub acquisition_date : ℕ

pub record LedgerCreationRequestData : Type 0 where
  pub request_id : ℕ
  pub data_type : LedgerDataType
  pub data_source : Option ℕ
  pub holding : Holding

-- An entry of `"details"`.
pub record Details : Type 0 where
  pub token_detail_type : ℕ
  pub headers : ℕ
  pub rows : List Holding
  pub footers : ℕ
  pub some_personal_info_not_registered : Bool

-- A row of `ledger`, with the JSON document that it holds.
pub record Ledger : Type 0 where
  pub id : ℕ
  pub token_address : Address
  pub token_type : Option TokenType
  pub created : ℕ
  pub token_name : ℕ
  pub currency : Option ℕ
  pub headers : ℕ
  pub details : List Details
  pub footers : ℕ

pub record LedgerDetailsData : Type 0 where
  pub id : ℕ
  pub token_address : Address
  pub data_id : Option ℕ
  pub holding : Holding

-- `any` is whether some value of the JSON object is true.
pub record IdxPersonalInfo : Type 0 where
  pub account_address : Address
  pub issuer_address : Address
  pub any : Bool
  pub name : Option ℕ
  pub address : Option ℕ

-- A row of `notification` of the type CREATE_LEDGER_INFO, less its random `notice_id`.
pub record LedgerNotice : Type 0 where
  pub issuer_address : Address
  pub token_address : Address
  pub token_type : Option TokenType
  pub ledger_id : ℕ

-- What is asked of the contracts of the tokens, of `pytz` and of the clock. `unit_price` is the
-- `principal_value` of a share and the `face_value` of a bond.
pub record Office : Type 0 where
  pub unit_price : Address → ℕ
  pub issuer_address : Address → Address
  pub face_value_currency : Address → ℕ
  pub local_date : ℕ → ℕ
  pub now : ℕ
