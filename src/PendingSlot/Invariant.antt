-- ===== src/PendingSlot/Invariant.antt =====
-- What holds of the slot between two calls.
use pi_smart_compact.Base.{
  ℕ, zero, suc, ◌≡◌, refl, sym, [], ◌∷◌, String, false, Option, none, some, arith, All, lookup,
  String_discrete,
}
use pi_smart_compact.Types.{PendingCompaction}
use pi_smart_compact.OrderedMap.{OrderedMap, delete, last_key_or}
use pi_smart_compact.OrderedMap.Laws.{
  IsDistinct, delete-IsDistinct, set-IsDistinct, last_key_or-delete_ne, last_key_or-append,
  set_absent, lookup-delete_self, All-delete, All-set, delete_absent, last_key_or-ne-none,
}
use pi_smart_compact.PendingSlot.{
  PendingSlotOptions, PendingEntry, PendingSlot, is_newest, prune, delete_entry, evict, insert,
  create,
}
use pi_smart_compact.PendingSlot.Prune.{
  prune-entries, prune-newest, retained-IsDistinct, All-retained,
}

-- An entry is stored under its payload's session.
abbrev pub IsKeyed : String × PendingEntry → Type 0
IsKeyed e = e.1.value.session_id ≡ e.0

-- The facts that every step of a call keeps, whatever the size.
pub record IsLinked (s : PendingSlot) : Type 0 where
  pub distinct : IsDistinct String_discrete s.entries
  pub newest : s.newest_session_id ≡ last_key_or none s.entries
  pub keyed : All IsKeyed s.entries

pub create-IsLinked : IsLinked create
unfolding create
create-IsLinked = record { distinct = tt; newest = refl; keyed = tt }

pub prune-IsLinked :
    (opts : PendingSlotOptions) (now : ℕ) (s : PendingSlot)
    → IsLinked s
    → IsLinked (prune opts now s)
prune-IsLinked opts now s v = record {
  distinct =
      rw (prune-entries opts now s v.distinct) (retained-IsDistinct opts now s.entries v.distinct);
  newest = prune-newest opts now s v.distinct v.newest;
  keyed =
      rw (prune-entries opts now s v.distinct) (All-retained opts now IsKeyed s.entries v.keyed);
}

last_kept :
    (newest : Option String) (m : OrderedMap String PendingEntry) (k : String)
    → newest ≡ last_key_or none m
    → is_newest newest k ≡ false
    → newest ≡ last_key_or none (delete String_discrete m k)
unfolding delete is_newest
last_kept none [] k h e = refl
last_kept none ((j, x) ∷ m) k h e = absurd (last_key_or-ne-none j m (sym h))
last_kept (some n) m k h e =
    sym (last_key_or-delete_ne String_discrete none m k n (sym h) (ground arith))

pub delete_entry-entries :
    (s : PendingSlot) (k : String) → (delete_entry s k).entries ≡ delete String_discrete s.entries k
unfolding delete_entry
delete_entry-entries s k = ground (arith, delete_absent String_discrete s.entries k)

pub delete_entry-IsLinked :
    (s : PendingSlot) (k : String) → IsLinked s → IsLinked (delete_entry s k)
unfolding delete_entry
delete_entry-IsLinked s k v = record {
  distinct =
      rw (delete_entry-entries s k) (delete-IsDistinct String_discrete s.entries k v.distinct);
  newest =
      ground (
        arith,
        last_kept s.newest_session_id s.entries k,
        delete_absent String_discrete s.entries k,
      );
  keyed = rw (delete_entry-entries s k) (All-delete String_discrete IsKeyed s.entries k v.keyed);
}

pub insert-IsLinked :
    (now : ℕ) (p : PendingCompaction) (s : PendingSlot) → IsLinked s → IsLinked (insert now p s)
unfolding insert
insert-IsLinked now p s v = record {
  distinct =
      set-IsDistinct String_discrete _ k _
        (delete-IsDistinct String_discrete s.entries k v.distinct);
  newest =
      rw (set_absent String_discrete _ k e gone)
        (sym (last_key_or-append String_discrete none (delete String_discrete s.entries k) k e));
  keyed =
      All-set String_discrete IsKeyed _ k e refl
        (All-delete String_discrete IsKeyed s.entries k v.keyed);
}
  where
    k : String
    k = p.session_id

    e : PendingEntry
    e = record { value = p; created_at = now }

    gone : lookup String_discrete k (delete String_discrete s.entries k) ≡ none
    gone = lookup-delete_self String_discrete s.entries k v.distinct

pub evict-IsLinked : (fuel limit : ℕ) (s : PendingSlot) → IsLinked s → IsLinked (evict fuel limit s)
unfolding evict
evict-IsLinked zero limit s v = v
evict-IsLinked (suc fuel) limit s v =
    grind (arith, evict-IsLinked fuel limit, delete_entry-IsLinked)
