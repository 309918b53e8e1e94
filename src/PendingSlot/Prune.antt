-- ===== src/PendingSlot/Prune.antt =====
-- What `prune` leaves of the entries, and that the newest session follows.
use pi_smart_compact.Base.{
  ℕ, ◌≡◌, refl, sym, subst, [], ◌∷◌, ◌++◌, String, Bool, true, false, ◌||◌, Option, none, some,
  arith, All, append_assoc, if◌then◌else◌, lookup, String_discrete, Bool-cases, inl, inr, length,
  ◌≤◌,
}
use mathlib.Core.Bool.{or_assoc}
use pi_smart_compact.OrderedMap.{OrderedMap, delete, last_key_or}
use pi_smart_compact.OrderedMap.Laws.{
  IsDistinct, fresh_before, delete_middle, delete-IsDistinct, last_key_or-ne-none,
}
use pi_smart_compact.PendingSlot.{
  PendingSlotOptions, PendingEntry, PendingSlot, is_newest, is_retained, prune_from, prune,
}

-- The entries that are young enough, in their order.
pub retained :
    PendingSlotOptions → ℕ → OrderedMap String PendingEntry → OrderedMap String PendingEntry
retained opts now [] = []
retained opts now ((k, e) ∷ m) =
    if is_retained opts now e then (k, e) ∷ retained opts now m else retained opts now m

-- Whether one that is dropped is the newest session's.
drops_newest : PendingSlotOptions → ℕ → Option String → OrderedMap String PendingEntry → Bool
drops_newest opts now newest [] = false
drops_newest opts now newest ((k, e) ∷ m) =
    if is_retained opts now e
    then drops_newest opts now newest m
    else is_newest newest k || drops_newest opts now newest m

module _ (opts : PendingSlotOptions) (now : ℕ) where
  prune_from_lem :
      (pre es : OrderedMap String PendingEntry) (newest : Option String) (r : Bool)
      → IsDistinct String_discrete (pre ++ es)
      → prune_from opts now es (record { entries = pre ++ es; newest_session_id = newest }) r ≡ (
        record { entries = pre ++ retained opts now es; newest_session_id = newest },
        r || drops_newest opts now newest es,
      )
  unfolding prune_from retained drops_newest
  prune_from_lem pre [] newest r d = ground arith
  prune_from_lem pre ((k, e) ∷ es) newest r d = elim (Bool-cases (is_retained opts now e)) [
    | inl kept ↦ rw kept (
        simp append_assoc at (
          prune_from_lem (pre ++ (k, e) ∷ []) es newest r
            (subst (IsDistinct String_discrete) (sym (append_assoc pre ((k, e) ∷ []) es)) d)))
    | inr old ↦
        let gone : delete String_discrete (pre ++ (k, e) ∷ es) k ≡ pre ++ es =
          delete_middle String_discrete pre es k e (fresh_before String_discrete pre es k e d) in
        rw (old, gone)
          (rw (or_assoc r (is_newest newest k) (drops_newest opts now newest es)) at (
            prune_from_lem pre es newest (r || is_newest newest k)
              (subst (IsDistinct String_discrete) gone (delete-IsDistinct String_discrete _ k d))))
  ]

  retained-All :
      (m : OrderedMap String PendingEntry)
      → All (λ e. is_retained opts now e.1 ≡ true) (retained opts now m)
  unfolding retained
  retained-All [] = tt
  retained-All ((k, e) ∷ m) = elim (Bool-cases (is_retained opts now e)) [
    | inl kept ↦ rw kept (kept, retained-All m)
    | inr old ↦ rw old (retained-All m)
  ]

  pub lookup-retained-none :
      (m : OrderedMap String PendingEntry) (k : String)
      → lookup String_discrete k m ≡ none
      → lookup String_discrete k (retained opts now m) ≡ none
  unfolding retained lookup
  lookup-retained-none [] k h = refl
  lookup-retained-none ((j, e) ∷ m) k h = ground (arith, lookup-retained-none m k)

  pub lookup-retained-some :
      (m : OrderedMap String PendingEntry) (k : String) (e : PendingEntry)
      → IsDistinct String_discrete m
      → lookup String_discrete k (retained opts now m) ≡ some e
      → lookup String_discrete k m ≡ some e
  unfolding retained lookup
  lookup-retained-some [] k e d h = h
  lookup-retained-some ((j, v) ∷ m) k e d h =
      ground (arith, lookup-retained-some m k e d.1, lookup-retained-none m k, d.0)

  pub retained-IsDistinct :
      (m : OrderedMap String PendingEntry)
      → IsDistinct String_discrete m
      → IsDistinct String_discrete (retained opts now m)
  unfolding retained
  retained-IsDistinct [] d = tt
  retained-IsDistinct ((j, e) ∷ m) d =
      ground (arith, retained-IsDistinct m, lookup-retained-none m j)

  pub All-retained :
      (P : String × PendingEntry → Type 0) (m : OrderedMap String PendingEntry)
      → All P m
      → All P (retained opts now m)
  unfolding retained
  All-retained P [] h = tt
  All-retained P ((j, e) ∷ m) h = elim (Bool-cases (is_retained opts now e)) [
    | inl kept ↦ rw kept (h.0, All-retained P m h.1)
    | inr old ↦ rw old (All-retained P m h.1)
  ]

  pub length-retained-le :
      (m : OrderedMap String PendingEntry) → length (retained opts now m) ≤ length m
  unfolding retained
  length-retained-le [] = omega arith
  length-retained-le ((j, e) ∷ m) = ground (arith, length-retained-le m)

  last_key_or-retained :
      (o : Option String) (m : OrderedMap String PendingEntry) (n : String)
      → last_key_or o m ≡ some n
      → drops_newest opts now (some n) m ≡ false
      → last_key_or o (retained opts now m) ≡ some n
  unfolding retained drops_newest is_newest
  last_key_or-retained o [] n h d = h
  last_key_or-retained o ((k, e) ∷ []) n h d = ground arith
  last_key_or-retained o ((k, e) ∷ (j, f) ∷ m) n h d =
      ground
        (arith, last_key_or-retained (some k) ((j, f) ∷ m) n, last_key_or-retained o ((j, f) ∷ m) n)

  pub prune-entries :
      (s : PendingSlot)
      → IsDistinct String_discrete s.entries
      → (prune opts now s).entries ≡ retained opts now s.entries
  unfolding prune
  prune-entries s d = rw (prune_from_lem [] s.entries s.newest_session_id false d) (ground arith)

  newest_kept :
      (newest : Option String) (m : OrderedMap String PendingEntry)
      → newest ≡ last_key_or none m
      → drops_newest opts now newest m ≡ false
      → newest ≡ last_key_or none (retained opts now m)
  unfolding retained
  newest_kept none [] h d = refl
  newest_kept none ((k, e) ∷ m) h d = absurd (last_key_or-ne-none k m (sym h))
  newest_kept (some n) m h d = sym (last_key_or-retained none m n (sym h) d)

  -- The newest session stays the last key.
  pub prune-newest :
      (s : PendingSlot)
      → IsDistinct String_discrete s.entries
      → s.newest_session_id ≡ last_key_or none s.entries
      → (prune opts now s).newest_session_id ≡ last_key_or none (prune opts now s).entries
  unfolding prune
  prune-newest s d h = ground (
    arith,
    prune_from_lem [] s.entries s.newest_session_id false d,
    newest_kept s.newest_session_id s.entries h,
  )
