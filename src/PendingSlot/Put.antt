-- ===== src/PendingSlot/Put.antt =====
-- What a `set` of the slot leaves: the bound, and which entries stay.
use pi_smart_compact.Base.{
  ℕ, zero, suc, ◌≤◌, ◌≡◌, refl, ap, ◌∙◌, [], ◌∷◌, ◌++◌, String, arith, String_discrete, length,
  le_refl,
}
use pi_smart_compact.Types.{PendingCompaction}
use pi_smart_compact.OrderedMap.{OrderedMap, delete}
use pi_smart_compact.OrderedMap.Laws.{delete_first, set_absent, lookup-delete_self}
use pi_smart_compact.OrderedMap.Evict.{newest, newest_fits, newest_over, length-newest-le}
use pi_smart_compact.PendingSlot.{
  PendingSlotOptions, PendingEntry, PendingSlot, prune, delete_entry, evict, insert, put,
  max_entries,
}
use pi_smart_compact.PendingSlot.Prune.{retained, prune-entries, retained-IsDistinct}
use pi_smart_compact.PendingSlot.Invariant.{
  IsLinked, prune-IsLinked, delete_entry-entries, insert-IsLinked, evict-IsLinked,
}

evict_from :
    (fuel limit : ℕ) (s : PendingSlot) (m : OrderedMap String PendingEntry)
    → s.entries ≡ m
    → length m ≤ fuel
    → (evict fuel limit s).entries ≡ newest limit m
unfolding evict
evict_from zero limit s [] e h = ground (arith, newest_fits {A = String × PendingEntry} limit [])
evict_from zero limit s (x ∷ m) e h = absurd (omega arith)
evict_from (suc fuel) limit s [] e h =
    ground (arith, newest_fits {A = String × PendingEntry} limit [])
evict_from (suc fuel) limit s ((k, v) ∷ m) e h = ground (
  arith,
  evict_from fuel limit (delete_entry s k) m
      (delete_entry-entries s k
        ∙ ap (λ x. delete String_discrete x k) e
        ∙ delete_first String_discrete m k v)
      (omega arith),
  newest_over limit (k, v) m,
  newest_fits limit ((k, v) ∷ m),
)

-- In a linked slot, a stored summary follows what `prune` and the replaced session leave; of that
-- the newest `maxEntries` stay.
pub put-entries :
    (opts : PendingSlotOptions) (now : ℕ) (p : PendingCompaction) (s : PendingSlot)
    → IsLinked s
    → (put opts now p s).entries
      ≡ newest (max_entries opts) (
          delete String_discrete (retained opts now s.entries) p.session_id
          ++ (p.session_id, record { value = p; created_at = now }) ∷ [])
unfolding put insert
put-entries opts now p s v =
    rw (evict_from _ (max_entries opts) (insert now p (prune opts now s)) _ refl (le_refl _)) (
      rw
        (
          prune-entries opts now s v.distinct,
          set_absent String_discrete _ p.session_id _ (
              lookup-delete_self String_discrete _ p.session_id
                (retained-IsDistinct opts now s.entries v.distinct)),
        )
        refl)

pub put-IsLinked :
    (opts : PendingSlotOptions) (now : ℕ) (p : PendingCompaction) (s : PendingSlot)
    → IsLinked s
    → IsLinked (put opts now p s)
unfolding put
put-IsLinked opts now p s v =
    evict-IsLinked _ _ _ (insert-IsLinked now p _ (prune-IsLinked opts now s v))

pub length-put-le :
    (opts : PendingSlotOptions) (now : ℕ) (p : PendingCompaction) (s : PendingSlot)
    → IsLinked s
    → length (put opts now p s).entries ≤ max_entries opts
length-put-le opts now p s v =
    rw (put-entries opts now p s v) (length-newest-le (max_entries opts) _)
