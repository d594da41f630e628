-- ===== src/Holders/Events.antt =====
-- `__process_transfer` and the seven other passes of batch/indexer_token_holders.py. `none` is an
-- exception that leaves the pass.
use ibet_prime.Base.{
  ℕ, ◌==◌, leb, ◌||◌, List, [], ◌∷◌, ◌++◌, Option, none, some, if◌then◌else◌, ◌>>=◌,
}
use ibet_prime.Base.Int.{ℤ, pos, neg}
use ibet_prime.Base.Sort.{sort_by}
use ibet_prime.Chain.{Address, zero_address, maxsize, EventName, ArgName, Event, address_arg, Chain}
use ibet_prime.Logs.{keep_if, is_of, earlier, for_each}
use ibet_prime.Holders.Book.{BalanceBook, store}

-- The contracts that a collection reads: the token and its tradable exchange.
pub record Contracts : Type 0 where
  pub token : Address
  pub exchange : Address

-- `if amount is not None and amount <= sys.maxsize: …`
abbrev pub if_fits : Option ℕ → (ℕ → BalanceBook → BalanceBook) → BalanceBook → BalanceBook
if_fits none body b = b
if_fits (some amount) body b = if leb amount maxsize then body amount b else b

-- The body of the loop over `Transfer` and `HolderChanged` events; `int(None)` raises.
unfoldable pub store_transfer : Chain → Event → BalanceBook → Option BalanceBook
store_transfer c e b = do
  amount ← e.args ArgName.value
  let from_account = address_arg e ArgName.from
  let to_account = address_arg e ArgName.to
  let stored =
      if_fits (some amount)
        (λ n b. store to_account (pos n) (pos 0) (store from_account (neg n) (pos 0) b)) b
  some (if c.has_code from_account || c.has_code to_account then b else stored)

unfoldable pub process_transfer : Chain → Contracts → ℕ → ℕ → BalanceBook → Option BalanceBook
unfolding store_transfer keep_if for_each
process_transfer c k block_from block_to b = do
  changed ← keep_if (is_of k.token) (
      c.get_event_logs k.exchange EventName.holder_changed ((ArgName.token, k.token) ∷ [])
        block_from block_to)
  let transferred = c.get_event_logs k.token EventName.transfer [] block_from block_to
  for_each (store_transfer c) (sort_by earlier (changed ++ transferred)) b

-- A loop that cannot raise.
unfoldable pub each : (Event → BalanceBook → BalanceBook) → List Event → BalanceBook → BalanceBook
each body [] b = b
each body (e ∷ es) b = each body es (body e b)

-- `Issue` and `Redeem`, unless they name a lock address.
unfoldable pub store_supply : (ℕ → ℤ) → Event → BalanceBook → BalanceBook
store_supply sign e b =
    if address_arg e ArgName.lock_address == zero_address
    then if_fits (e.args ArgName.amount)
        (λ n. store (address_arg e ArgName.target_address) (sign n) (pos 0)) b
    else b

unfoldable pub process_issue : Chain → Contracts → ℕ → ℕ → BalanceBook → BalanceBook
unfolding store_supply each
process_issue c k block_from block_to =
    each (store_supply pos) (c.get_event_logs k.token EventName.issue [] block_from block_to)

unfoldable pub process_redeem : Chain → Contracts → ℕ → ℕ → BalanceBook → BalanceBook
unfolding store_supply each
process_redeem c k block_from block_to =
    each (store_supply neg) (c.get_event_logs k.token EventName.redeem [] block_from block_to)

-- From the balance of an account to its lock.
unfoldable pub store_lock : Event → BalanceBook → BalanceBook
store_lock e =
    if_fits (e.args ArgName.value)
      (λ n. store (address_arg e ArgName.account_address) (neg n) (pos n))

unfoldable pub process_lock : Chain → Contracts → ℕ → ℕ → BalanceBook → BalanceBook
unfolding store_lock each
process_lock c k block_from block_to =
    each store_lock (c.get_event_logs k.token EventName.lock [] block_from block_to)

unfoldable pub process_force_lock : Chain → Contracts → ℕ → ℕ → BalanceBook → BalanceBook
unfolding store_lock each
process_force_lock c k block_from block_to =
    each store_lock (c.get_event_logs k.token EventName.force_lock [] block_from block_to)

-- From the lock of an account to the balance of the recipient.
unfoldable pub store_unlock : Event → BalanceBook → BalanceBook
store_unlock e = if_fits (e.args ArgName.value) (λ n b.
    store (address_arg e ArgName.recipient_address) (pos n) (pos 0)
      (store (address_arg e ArgName.account_address) (pos 0) (neg n) b))

unfoldable pub process_unlock : Chain → Contracts → ℕ → ℕ → BalanceBook → BalanceBook
unfolding store_unlock each
process_unlock c k block_from block_to =
    each store_unlock (c.get_event_logs k.token EventName.unlock [] block_from block_to)

unfoldable pub process_force_unlock : Chain → Contracts → ℕ → ℕ → BalanceBook → BalanceBook
unfolding store_unlock each
process_force_unlock c k block_from block_to =
    each store_unlock (c.get_event_logs k.token EventName.force_unlock [] block_from block_to)

-- From the lock of one account to the lock of another.
unfoldable pub store_relock : Event → BalanceBook → BalanceBook
store_relock e = if_fits (e.args ArgName.value) (λ n b.
    store (address_arg e ArgName.after_account_address) (pos 0) (pos n)
      (store (address_arg e ArgName.before_account_address) (pos 0) (neg n) b))

unfoldable pub process_force_change_locked_account :
    Chain → Contracts → ℕ → ℕ → BalanceBook → BalanceBook
unfolding store_relock each
process_force_change_locked_account c k block_from block_to =
    each store_relock
      (c.get_event_logs k.token EventName.force_change_locked_account [] block_from block_to)

-- The eight passes of `__process_all`, in its order.
unfoldable pub process_events : Chain → Contracts → ℕ → ℕ → BalanceBook → Option BalanceBook
process_events c k block_from block_to b = do
  transferred ← process_transfer c k block_from block_to b
  some (
      process_force_change_locked_account c k block_from block_to (
        process_force_unlock c k block_from block_to (
          process_unlock c k block_from block_to (
            process_force_lock c k block_from block_to (
              process_lock c k block_from block_to (
                process_redeem c k block_from block_to
                  (process_issue c k block_from block_to transferred)))))))
