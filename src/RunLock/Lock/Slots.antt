-- ===== src/RunLock/Lock/Slots.antt =====
-- What the loop over the slots does.
use pi_smart_compact.Base.{
  ℕ, zero, suc, ◌+◌, ◌≤◌, ◌<◌, ◌≡◌, refl, ◌⊎◌, inl, inr, arith, String_discrete,
}
use pi_smart_compact.OrderedMap.Laws.{IsDistinct}
use pi_smart_compact.RunLock.{Files, Host, Attempt, leased, refused, threw, acquire_file_lease}
use pi_smart_compact.RunLock.Attempts.{IsRefused, IsLeased, IsAttempt, acquire_file_lease-IsAttempt}
use pi_smart_compact.RunLock.Lock.{LockOptions, stale_ms, or_next, take_slot}

-- A lease on a slot of the range, taken as an attempt on its file takes it.
abbrev pub IsSlot : LockOptions → Host → (index bound token : ℕ) → Files → Files × Attempt → Type 0
IsSlot o h index bound token files r =
    (i : ℕ) × (t : ℕ) × (index ≤ i)
    × (i < bound)
    × (token ≤ t)
    × IsLeased h (stale_ms o) o.pid t (o.slot_path i) files r

module _ (o : LockOptions) (h : Host) (files : Files) (alone : h.others files ≡ files)
    (d : IsDistinct String_discrete files) where
  pub take_slot-cases :
      (n index token : ℕ)
      → IsRefused h files (take_slot o h n index token files)
        ⊎ IsSlot o h index (index + n) token files (take_slot o h n index token files)
  unfolding take_slot
  take_slot-cases zero index token = inl (inl refl, refl)
  take_slot-cases (suc n) index token =
      next_or (take_slot-cases n (suc index) (suc token))
        (acquire_file_lease h (stale_ms o) o.pid token (o.slot_path index) files)
        (acquire_file_lease-IsAttempt h (stale_ms o) o.pid token (o.slot_path index) files d alone)
    where
      next : Files → Files × Attempt
      next files' = take_slot o h n (suc index) (suc token) files'

      wider :
          {r : Files × Attempt}
          → IsRefused h files r ⊎ IsSlot o h (suc index) (suc index + n) (suc token) files r
          → IsRefused h files r ⊎ IsSlot o h index (index + suc n) token files r
      wider (inl a) = inl a
      wider (inr (i, t, low, high, fresh, got)) =
          inr (i, t, omega arith, omega arith, omega arith, got)

      next_or :
          IsRefused h files (next files)
            ⊎ IsSlot o h (suc index) (suc index + n) (suc token) files (next files)
          → (r : Files × Attempt) → IsAttempt h (stale_ms o) o.pid token (o.slot_path index) files r
          → IsRefused h files (or_next next r)
            ⊎ IsSlot o h index (index + suc n) token files (or_next next r)
      next_or rest (files', refused) (inl (a, e)) = rw e (wider rest)
      next_or rest (files', refused) (inr got) = absurd (let q = got.attempt in cc)
      next_or rest (files', leased l) (inl (a, e)) =
          absurd (elim a [ inl q ↦ cc | inr q ↦ let thrown = q.0 in cc ])
      next_or rest (files', leased l) (inr got) =
          inr (index, token, omega arith, omega arith, omega arith, got)
      next_or rest (files', threw) (inl (a, e)) = inl (a, e)
      next_or rest (files', threw) (inr got) = absurd (let q = got.attempt in cc)
