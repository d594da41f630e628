-- ===== src/Tokens.antt =====
-- The tables `token` and `account` (app/model/db/token.py, app/model/db/account.py), of each the
-- columns that the processors read, and the query for the tokens of issuers that are not deleted.
use ibet_prime.Base.{
  ℕ, Bool, true, false, List, [], ◌∷◌, ◌++◌, map, Option, some, ◌==◌, ◌&&◌, leb, if◌then◌else◌,
  select,
}
use ibet_prime.Base.Sort.{sort_by}

pub data TokenType : Type 0 where
  ibet_straight_bond ibet_share : TokenType

pub data TokenStatus : Type 0 where
  pending succeeded failed : TokenStatus

-- The column `type` is a text; `none` stands for one that is no member of `TokenType`.
pub record Token : Type 0 where
  pub id : ℕ
  pub type : Option TokenType
  pub issuer_address : ℕ
  pub token_address : ℕ
  pub token_status : Option TokenStatus

pub record Account : Type 0 where
  pub issuer_address : ℕ
  pub is_deleted : Option Bool

-- `token_status == TokenStatus.SUCCEEDED`; a null is not equal to it.
abbrev pub is_succeeded : Option TokenStatus → Bool
is_succeeded (some TokenStatus.succeeded) = true
is_succeeded _ = false

-- `is_deleted == False`
abbrev pub is_live : Option Bool → Bool
is_live (some false) = true
is_live _ = false

-- `.join(Account, and_(…))`: a row for each pair that satisfies the condition.
unfoldable pub join_accounts : List Account → List Token → List Token
join_accounts accounts [] = []
join_accounts accounts (t ∷ ts) =
    map (λ _. t)
      (select (λ (a : Account). a.issuer_address == t.issuer_address && is_live a.is_deleted)
        accounts)
    ++ join_accounts accounts ts

-- The issued tokens of the issuers that are not deleted, by id.
unfoldable pub issued_tokens : List Account → List Token → List Token
unfolding join_accounts
issued_tokens accounts tokens =
    sort_by (λ (t s : Token). leb t.id s.id)
      (select (λ (t : Token). is_succeeded t.token_status) (join_accounts accounts tokens))

-- `address in addresses`
abbrev pub contains : ℕ → List ℕ → Bool
contains x [] = false
contains x (y ∷ ys) = if y == x then true else contains x ys
