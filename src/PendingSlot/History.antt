-- ===== src/PendingSlot/History.antt =====
-- What the calls so far have left for a session, read from the calls alone.
use pi_smart_compact.Base.{
  ℕ, ◌-◌, ◌≡◌, ◌≢◌, ◌↔◌, ◌⊎◌, refl, sym, List, [], ◌∷◌, ◌++◌, String, Option, none, some, arith,
  lookup, drop, zero, suc, length, String_discrete, Option-cases, inl, inr, if◌then◌else◌, ite,
  if_pos, if_neg, subst, ◌∙◌,
}
use pi_smart_compact.Types.{PendingCompaction}
use pi_smart_compact.OpenLoops.{is_text}
use pi_smart_compact.OrderedMap.{OrderedMap, delete, set}
use pi_smart_compact.OrderedMap.Laws.{
  IsDistinct, lookup-delete_self, lookup-delete_ne, lookup-set, set_absent, set-IsDistinct,
  delete-IsDistinct, All-lookup,
}
use pi_smart_compact.PendingSlot.{
  PendingSlotOptions, PendingEntry, PendingSlot, ok, prune, delete_entry, put, consume, clear,
  is_present, peek, size, given, create, max_entries,
}
use pi_smart_compact.PendingSlot.Prune.{
  retained, lookup-retained-some, prune-entries, retained-IsDistinct,
}
use pi_smart_compact.PendingSlot.Invariant.{
  IsKeyed, IsLinked, create-IsLinked, prune-IsLinked, delete_entry-entries, delete_entry-IsLinked,
}
use pi_smart_compact.PendingSlot.Put.{put-entries, put-IsLinked}
use pi_smart_compact.PendingSlot.Calls.{Call, puts, consumes, clears, peeks, asks, sizes, after}
use pi_smart_compact.PendingSlot.Consume.{IsServable, consume-ok_iff, consume-gone}

-- A call with the time that it reads and the options, whose probe is the one of the call's `ctx`.
abbrev pub Timed : Type 0
Timed = PendingSlotOptions × ℕ × Call

unfoldable pub run : List Timed → PendingSlot → PendingSlot
run [] s = s
run ((opts, now, c) ∷ calls) s = run calls (after opts now c s)

-- What is left for `id` after a call, of what was left before. A clear of no session, or of the
-- empty name, is one of all.
abbrev pub left_by : (id : String) (now : ℕ) → Call → Option PendingEntry → Option PendingEntry
left_by id now (puts p) w =
    if is_text p.session_id id then some (record { value = p; created_at = now }) else w
left_by id now (consumes other) w = if is_text other id then none else w
left_by id now (clears none) w = none
left_by id now (clears (some other)) w =
    if is_text other "" then none else if is_text other id then none else w
left_by id now (peeks other) w = w
left_by id now (asks other) w = w
left_by id now sizes w = w

abbrev pub left : (id : String) → List Timed → Option PendingEntry → Option PendingEntry
left id [] w = w
left id ((opts, now, c) ∷ calls) w = left id calls (left_by id now c w)

lookup-drop :
    (id : String) (n : ℕ) (m : OrderedMap String PendingEntry) (e : PendingEntry)
    → IsDistinct String_discrete m
    → lookup String_discrete id (drop n m) ≡ some e
    → lookup String_discrete id m ≡ some e
unfolding lookup
lookup-drop id zero m e d h = h
lookup-drop id (suc n) [] e d h = h
lookup-drop id (suc n) ((k, v) ∷ m) e d h =
    let rest = lookup-drop id n m e d.1 h in ground (arith, rest, d.0)

-- What the second has for the session, the first has.
abbrev IsLess : String → (m less : OrderedMap String PendingEntry) → Type 0
IsLess id m less =
    (e : PendingEntry)
    → lookup String_discrete id less ≡ some e
    → lookup String_discrete id m ≡ some e

create_empty : (id : String) → lookup String_discrete id create.entries ≡ none
unfolding create lookup
create_empty id = refl

module _ (id : String) (opts : PendingSlotOptions) (now : ℕ) (s : PendingSlot)
    (v : IsLinked s) where
  prune-IsLess : IsLess id s.entries (prune opts now s).entries
  prune-IsLess e h =
      lookup-retained-some opts now s.entries id e v.distinct
        (rw (prune-entries opts now s v.distinct) at h)

  delete_entry-IsLess : (k : String) → IsLess id s.entries (delete_entry s k).entries
  delete_entry-IsLess k e h = elim (String_discrete id k) [
    | yes p ↦ ground (
      arith,
      h,
      p,
      delete_entry-entries s k,
      lookup-delete_self String_discrete s.entries k v.distinct,
    )
    | no n ↦
        ground
          (arith, h, delete_entry-entries s k, lookup-delete_ne String_discrete s.entries id k n)
  ]

  prune-delete-IsLess :
      (k : String) → IsLess id s.entries (prune opts now (delete_entry s k)).entries
  prune-delete-IsLess k e h =
      let w = delete_entry-IsLinked s k v in
      delete_entry-IsLess k e (
        lookup-retained-some opts now (delete_entry s k).entries id e w.distinct
          (rw (prune-entries opts now (delete_entry s k) w.distinct) at h))

  consume-IsLess : (k : String) → IsLess id s.entries (consume opts now k s).0.entries
  unfolding consume
  consume-IsLess k e h =
      ground (arith, h, prune-IsLess e, delete_entry-IsLess k e, prune-delete-IsLess k e)

  consume-IsLinked : (k : String) → IsLinked (consume opts now k s).0
  unfolding consume
  consume-IsLinked k = grind (
    arith,
    prune-IsLinked opts now s v,
    delete_entry-IsLinked s k v,
    prune-IsLinked opts now (delete_entry s k),
  )

  after-IsLinked : (c : Call) → IsLinked (after opts now c s)
  unfolding after clear peek is_present size
  after-IsLinked (puts p) = put-IsLinked opts now p s v
  after-IsLinked (consumes k) = consume-IsLinked k
  after-IsLinked (clears k) = elim (Option-cases (given k)) [
    | inl e ↦ rw (e, clear) create-IsLinked
    | inr (one, e) ↦ rw (e, clear) (delete_entry-IsLinked s one v)
  ]
  after-IsLinked (peeks k) = ground (arith, prune-IsLinked opts now s v)
  after-IsLinked (asks k) = ground (arith, prune-IsLinked opts now s v)
  after-IsLinked sizes = prune-IsLinked opts now s v

  delete_entry-gone : (k : String) → lookup String_discrete k (delete_entry s k).entries ≡ none
  delete_entry-gone k =
      rw (delete_entry-entries s k) (lookup-delete_self String_discrete s.entries k v.distinct)

  put-cases :
      (p : PendingCompaction) (e : PendingEntry)
      → lookup String_discrete id (put opts now p s).entries ≡ some e
      → ((p.session_id ≡ id) × (some (record { value = p; created_at = now }) ≡ some e))
        ⊎ ((p.session_id ≢ id) × (lookup String_discrete id s.entries ≡ some e))
  put-cases p e h =
      let k = p.session_id in
      let fresh : PendingEntry = record { value = p; created_at = now } in
      let kept = retained opts now s.entries in
      let kept-IsDistinct = retained-IsDistinct opts now s.entries v.distinct in
      let others = delete String_discrete kept k in
      let grown = others ++ (k, fresh) ∷ [] in
      let added : set String_discrete others k fresh ≡ grown =
        set_absent String_discrete others k fresh
          (lookup-delete_self String_discrete kept k kept-IsDistinct) in
      let grown-IsDistinct : IsDistinct String_discrete grown =
        subst (IsDistinct String_discrete) added (
          set-IsDistinct String_discrete others k fresh
            (delete-IsDistinct String_discrete kept k kept-IsDistinct)) in
      let found : lookup String_discrete id grown ≡ some e =
        lookup-drop id (length grown - max_entries opts) grown e grown-IsDistinct
          (rw (put-entries opts now p s v) at h) in
      let placed : ite (String_discrete id k) (some fresh) (lookup String_discrete id others)
          ≡ some e =
        sym (lookup-set String_discrete others id k fresh) ∙ rw added found in
      elim (String_discrete id k) [
        | yes same ↦ inl (sym same, sym (if_pos (String_discrete id k) same _ _) ∙ placed)
        | no other ↦ inr (
          λ q. other (sym q),
          lookup-retained-some opts now s.entries id e v.distinct (
              sym (lookup-delete_ne String_discrete kept id k other)
              ∙ sym (if_neg (String_discrete id k) other _ _)
              ∙ placed),
        )
      ]

  -- What a call leaves in the slot for the session is what it leaves by the history.
  after-follows :
      (c : Call) (w : Option PendingEntry)
      → ((e : PendingEntry) → lookup String_discrete id s.entries ≡ some e → w ≡ some e)
      → (e : PendingEntry) → lookup String_discrete id (after opts now c s).entries ≡ some e
      → left_by id now c w ≡ some e
  unfolding after clear given peek is_present size create
  after-follows (puts p) w known e h = elim (put-cases p e h) [
    | inl (same, found) ↦ ground (arith, same, found)
    | inr (other, found) ↦ ground (arith, other, known e found)
  ]
  after-follows (consumes k) w known e h =
      ground (arith, known e (consume-IsLess k e h), consume-gone opts now k s v, h)
  after-follows (clears none) w known e h = absurd (ground (arith, h, create_empty id))
  after-follows (clears (some k)) w known e h =
      ground (arith, h, known e, delete_entry-IsLess k e, delete_entry-gone k, create_empty id)
  after-follows (peeks none) w known e h = known e (prune-IsLess e (ground (arith, h)))
  after-follows (peeks (some k)) w known e h = known e (prune-IsLess e (ground (arith, h)))
  after-follows (asks none) w known e h = known e (prune-IsLess e (ground (arith, h)))
  after-follows (asks (some k)) w known e h = known e (prune-IsLess e (ground (arith, h)))
  after-follows sizes w known e h = known e (prune-IsLess e h)

run-follows :
    (id : String) (calls : List Timed) (s : PendingSlot) (w : Option PendingEntry)
    → IsLinked s
    → ((e : PendingEntry) → lookup String_discrete id s.entries ≡ some e → w ≡ some e)
    → (e : PendingEntry) → lookup String_discrete id (run calls s).entries ≡ some e
    → left id calls w ≡ some e
unfolding run
run-follows id [] s w v known e h = known e h
run-follows id ((opts, now, c) ∷ calls) s w v known e h =
    run-follows id calls (after opts now c s) (left_by id now c w)
      (after-IsLinked id opts now s v c) (after-follows id opts now s v c w known) e h

run-IsLinked : (calls : List Timed) (s : PendingSlot) → IsLinked s → IsLinked (run calls s)
unfolding run
run-IsLinked [] s v = v
run-IsLinked ((opts, now, c) ∷ calls) s v =
    run-IsLinked calls (after opts now c s) (after-IsLinked "" opts now s v c)

-- After any calls from an empty slot, `consume` hands out a payload exactly if the slot has an
-- entry for the session with that payload, which is what the calls themselves leave for the
-- session (its last `set`, not consumed and not cleared since), the payload is the session's own,
-- and the entry is young enough, or is certified by the probe within the ceiling.
pub run-consumed :
    (calls : List Timed) (opts : PendingSlotOptions) (now : ℕ) (id : String) (p : PendingCompaction)
    → ((consume opts now id (run calls create)).1 ≡ ok p) ↔ (
        (e : PendingEntry) × (lookup String_discrete id (run calls create).entries ≡ some e)
        × (left id calls none ≡ some e)
        × (e.value ≡ p)
        × (p.session_id ≡ id)
        × IsServable opts now e)
run-consumed calls opts now id p = (
  λ h.
      let s = run calls create in
      let (e, found, value, servable) = (consume-ok_iff opts now id p s).0 h in
      let had =
        run-follows id calls create none create-IsLinked
          (λ x q. absurd (ground (arith, q, create_empty id))) e found in
      let keyed : e.value.session_id ≡ id =
        All-lookup String_discrete IsKeyed s.entries id e
          (run-IsLinked calls create create-IsLinked).keyed found in
      (e, found, had, value, rw value at keyed, servable),
  λ (e, found, had, value, keyed, servable).
      (consume-ok_iff opts now id p (run calls create)).1 (e, found, value, servable),
)
