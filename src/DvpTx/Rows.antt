-- ===== src/DvpTx/Rows.antt =====
-- What the passes of batch/processor_dvp_async_tx.py keep of each row and of the table.
use ibet_prime.Base.{
  ℕ, ◌-◌, ◌≡◌, Bool, true, List, [], ◌∷◌, some, arith, ◌==◌, Bool-cases, Option-cases, inl, inr,
  All, get_elem?, subst, sym, refl, ◌⊎◌,
}
use ibet_prime.Delivery.Table.{DvpAsyncProcess}
use ibet_prime.DvpTx.Process.{
  World, Effects, Receipt, Transaction, is_shutdown, tick, count, send, pass,
}

-- What the handling of a selected row does to a row that satisfies P, every pass does.
pub pass-keeps :
    (P : DvpAsyncProcess → Type 0) (chosen : DvpAsyncProcess → Bool)
    (handle : DvpAsyncProcess → Effects → DvpAsyncProcess × Effects)
    → ((r : DvpAsyncProcess) (fx : Effects) → chosen r ≡ true → P r → P (handle r fx).0)
    → (rows : List DvpAsyncProcess) (fx : Effects) → All P rows
    → All P (pass chosen handle rows fx).0
unfolding pass
pass-keeps P chosen handle keeps [] fx h = tt
pass-keeps P chosen handle keeps (r ∷ rs) fx h = elim (Bool-cases (chosen r)) [
  | inr other ↦ rw (other, pass) (h.0, pass-keeps P chosen handle keeps rs fx h.1)
  | inl taken ↦ elim (Bool-cases (is_shutdown fx)) [
    | inl stops ↦ rw (taken, stops, pass) h
    | inr goes ↦
        rw (taken, goes, pass)
          (
            keeps r (tick fx) taken h.0,
            pass-keeps P chosen handle keeps rs (handle r (tick fx)).1 h.1,
          )
  ]
]

-- The same for the row at one place.
pub pass_at :
    (P : DvpAsyncProcess → Type 0) (chosen : DvpAsyncProcess → Bool)
    (handle : DvpAsyncProcess → Effects → DvpAsyncProcess × Effects)
    → ((r : DvpAsyncProcess) (fx : Effects) → chosen r ≡ true → P r → P (handle r fx).0)
    → (rows : List DvpAsyncProcess) (fx : Effects) (i : ℕ)
    → (r : DvpAsyncProcess) × (get_elem? rows i ≡ some r) × P r
    → (r : DvpAsyncProcess) × (get_elem? (pass chosen handle rows fx).0 i ≡ some r) × P r
unfolding pass
pass_at P chosen handle keeps [] fx i h = h
pass_at P chosen handle keeps (r ∷ rs) fx i (s, found, p) = elim (Bool-cases (i == 0)) [
  | inl here ↦
      let eq : r ≡ s = ground (arith, found) in
      let p' : P r = subst P (sym eq) p in
      elim (Bool-cases (chosen r)) [
        | inr other ↦ rw (other, pass) (r, rw here, p')
        | inl taken ↦ elim (Bool-cases (is_shutdown fx)) [
          | inl stops ↦ rw (taken, stops, pass) (r, rw here, p')
          | inr goes ↦
              rw (taken, goes, pass) ((handle r (tick fx)).0, rw here, keeps r (tick fx) taken p')
        ]
      ]
  | inr later ↦
      let found' : get_elem? rs (i - 1) ≡ some s = rw later at found in
      elim (Bool-cases (chosen r)) [
        | inr other ↦
            let (u, at_u, q) = pass_at P chosen handle keeps rs fx (i - 1) (s, found', p) in
            rw (other, pass) (u, rw later at_u, q)
        | inl taken ↦ elim (Bool-cases (is_shutdown fx)) [
          | inl stops ↦ rw (taken, stops, pass) (s, rw later found', p)
          | inr goes ↦
              let (u, at_u, q) =
                pass_at P chosen handle keeps rs (handle r (tick fx)).1 (i - 1) (s, found', p) in
              rw (taken, goes, pass) (u, rw later at_u, q)
        ]
      ]
]

-- What sending leaves is the row, or the row with the hash.
pub send-keeps :
    (P : DvpAsyncProcess → Type 0) (w : World) (tx : Transaction) (f : ℕ → DvpAsyncProcess)
    (r : DvpAsyncProcess) (fx : Effects)
    → P r
    → ((hash : ℕ) → P (f hash))
    → P (send w tx f r fx).0
send-keeps P w tx f r fx p q = elim (Option-cases (w.send (count fx.sent) tx)) [
  | inl fails ↦ rw (fails, send) p
  | inr (hash, sends) ↦ rw (sends, send) (q hash)
]

pub Receipt-cases :
    (e : Receipt) → (e ≡ Receipt.time_exhausted) ⊎ (e ≡ Receipt.reverted) ⊎ (e ≡ Receipt.success)
Receipt-cases Receipt.time_exhausted = inl refl
Receipt-cases Receipt.reverted = inr (inl refl)
Receipt-cases Receipt.success = inr (inr refl)
