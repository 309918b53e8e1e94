-- ===== src/CommitStore/Take.antt =====
-- What `take` hands out.
use pi_smart_compact.Base.{
  ℕ, ◌-◌, ◌≤◌, ◌≡◌, refl, sym, subst, ◌↔◌, [], ◌∷◌, ◌++◌, String, true, false, none, some, arith,
  if◌then◌else◌, lookup, String_discrete, Option-cases, Bool-cases, inl, inr, append_assoc, ap, ◌∙◌,
}
use pi_smart_compact.Types.{PendingCompaction}
use pi_smart_compact.OrderedMap.{OrderedMap, delete}
use pi_smart_compact.OrderedMap.Laws.{
  IsDistinct, fresh_before, delete_middle, delete-IsDistinct, lookup-delete_self, lookup-append,
}
use pi_smart_compact.CommitStore.{
  expired, Entry, Store, StoreOptions, ttl_ms, remove, is_expired, sweep_from, sweep, take,
}

-- The entries that are young enough, in their order.
pub young : StoreOptions → ℕ → OrderedMap String Entry → OrderedMap String Entry
young opts now [] = []
young opts now ((k, e) ∷ m) =
    if is_expired opts now e then young opts now m else (k, e) ∷ young opts now m

module _ (opts : StoreOptions) (now : ℕ) where
  remove-middle :
      (pre es : OrderedMap String Entry) (k : String) (e : Entry) (s : Store)
      → IsDistinct String_discrete (pre ++ (k, e) ∷ es)
      → s.entries ≡ pre ++ (k, e) ∷ es
      → (remove k expired s).0.entries ≡ pre ++ es
  unfolding remove lookup
  remove-middle pre es k e s d h =
      let fresh = fresh_before String_discrete pre es k e d in
      ground (
        arith,
        lookup-append String_discrete pre ((k, e) ∷ es) k fresh,
        delete_middle String_discrete pre es k e fresh,
      )

  sweep_from_old :
      (k : String) (e : Entry) (es : OrderedMap String Entry) (s : Store)
      → is_expired opts now e ≡ true
      → sweep_from opts now ((k, e) ∷ es) s ≡ sweep_from opts now es (remove k expired s).0
  unfolding sweep_from
  sweep_from_old k e es s h =
      ap (λ b. sweep_from opts now es (if b then (remove k expired s).0 else s)) h

  sweep_from_young :
      (k : String) (e : Entry) (es : OrderedMap String Entry) (s : Store)
      → is_expired opts now e ≡ false
      → sweep_from opts now ((k, e) ∷ es) s ≡ sweep_from opts now es s
  unfolding sweep_from
  sweep_from_young k e es s h =
      ap (λ b. sweep_from opts now es (if b then (remove k expired s).0 else s)) h

  sweep_nothing :
      (pre : OrderedMap String Entry) (s : Store)
      → s.entries ≡ pre ++ []
      → (sweep_from opts now [] s).entries ≡ pre ++ []
  unfolding sweep_from
  sweep_nothing pre s h = h

  sweep_from-entries :
      (pre es : OrderedMap String Entry) (s : Store)
      → IsDistinct String_discrete (pre ++ es)
      → s.entries ≡ pre ++ es
      → (sweep_from opts now es s).entries ≡ pre ++ young opts now es
  unfolding young
  sweep_from-entries pre [] s d h = sweep_nothing pre s h
  sweep_from-entries pre ((k, e) ∷ es) s d h = elim (Bool-cases (is_expired opts now e)) [
    | inl old ↦
        let gone : delete String_discrete (pre ++ (k, e) ∷ es) k ≡ pre ++ es =
          delete_middle String_discrete pre es k e (fresh_before String_discrete pre es k e d) in
        rw (sweep_from_old k e es s old, old)
          (sweep_from-entries pre es (remove k expired s).0
            (subst (IsDistinct String_discrete) gone (delete-IsDistinct String_discrete _ k d))
            (remove-middle pre es k e s d h))
    | inr kept ↦
        rw (sweep_from_young k e es s kept, kept)
          (simp append_assoc at (
            sweep_from-entries (pre ++ (k, e) ∷ []) es s
              (subst (IsDistinct String_discrete) (sym (append_assoc pre ((k, e) ∷ []) es)) d)
              (h ∙ sym (append_assoc pre ((k, e) ∷ []) es))))
  ]

  pub sweep-entries :
      (s : Store)
      → IsDistinct String_discrete s.entries
      → (sweep opts now s).entries ≡ young opts now s.entries
  unfolding sweep
  sweep-entries s d = sweep_from-entries [] s.entries s d refl

  pub lookup-young-none :
      (m : OrderedMap String Entry) (k : String)
      → lookup String_discrete k m ≡ none
      → lookup String_discrete k (young opts now m) ≡ none
  unfolding young lookup
  lookup-young-none [] k h = refl
  lookup-young-none ((j, e) ∷ m) k h = ground (arith, lookup-young-none m k)

  young-IsDistinct :
      (m : OrderedMap String Entry)
      → IsDistinct String_discrete m
      → IsDistinct String_discrete (young opts now m)
  unfolding young
  young-IsDistinct [] d = tt
  young-IsDistinct ((j, e) ∷ m) d = ground (arith, young-IsDistinct m, lookup-young-none m j)

  lookup-young :
      (m : OrderedMap String Entry) (k : String) (e : Entry)
      → IsDistinct String_discrete m
      → (lookup String_discrete k (young opts now m) ≡ some e)
        ↔ ((lookup String_discrete k m ≡ some e) × (is_expired opts now e ≡ false))
  unfolding young lookup
  lookup-young [] k e d = (λ h. ground arith, λ h. ground arith)
  lookup-young ((j, e') ∷ m) k e d = ground (arith, lookup-young m k e, lookup-young-none m k)

-- In a store with one entry for a run, `take` hands out a summary exactly if it is the one that
-- waits for this run, it was prepared for this session, and it is not past its time to live.
pub take-some_iff :
    (opts : StoreOptions) (now : ℕ) (run_id session_id : String) (p : PendingCompaction) (s : Store)
    → IsDistinct String_discrete s.entries
    → ((take opts now run_id session_id s).1 ≡ some p) ↔ (
        (e : Entry) × (lookup String_discrete run_id s.entries ≡ some e)
        × (e.pending ≡ p)
        × (p.session_id ≡ session_id)
        × (now - e.created_at ≤ ttl_ms opts))
unfolding take is_expired
take-some_iff opts now run_id session_id p s d = (
  λ h. elim (Option-cases (lookup String_discrete run_id (sweep opts now s).entries)) [
    | inl miss ↦ absurd (ground arith)
    | inr (e, hit) ↦
        let (found, fresh) =
          (lookup-young opts now s.entries run_id e d).0 (rw (sweep-entries opts now s d) at hit) in
        (e, found, ground arith, ground arith, ground arith)
  ],
  λ (e, found, same, session, fresh).
      let hit = (lookup-young opts now s.entries run_id e d).1 (found, ground arith) in
      ground (arith, sweep-entries opts now s d),
)

take-IsDistinct :
    (opts : StoreOptions) (now : ℕ) (run_id session_id : String) (s : Store)
    → IsDistinct String_discrete s.entries
    → IsDistinct String_discrete (take opts now run_id session_id s).0.entries
unfolding take remove
take-IsDistinct opts now run_id session_id s d =
    let e = sweep-entries opts now s d in
    let kept = young-IsDistinct opts now s.entries d in
    ground
      (arith, e, kept, delete-IsDistinct String_discrete (young opts now s.entries) run_id kept)

take-gone :
    (opts : StoreOptions) (now : ℕ) (run_id session_id : String) (s : Store)
    → IsDistinct String_discrete s.entries
    → lookup String_discrete run_id (take opts now run_id session_id s).0.entries ≡ none
unfolding take remove
take-gone opts now run_id session_id s d =
    let e = sweep-entries opts now s d in
    let kept = young-IsDistinct opts now s.entries d in
    ground (arith, e, lookup-delete_self String_discrete (young opts now s.entries) run_id kept)

-- In a store with one entry for a run, after a `take` of the run a second hands out nothing,
-- whatever session asks and when: a summary is committed at most once.
pub take-once :
    (opts : StoreOptions) (now later : ℕ) (run_id session_id other : String) (s : Store)
    → IsDistinct String_discrete s.entries
    → (take opts later run_id other (take opts now run_id session_id s).0).1 ≡ none
take-once opts now later run_id session_id other s d =
    let s' = (take opts now run_id session_id s).0 in
    elim (Option-cases (take opts later run_id other s').1) [
      | inl e ↦ e
      | inr (p, e) ↦
          let (_, found, _, _, _) =
            (take-some_iff opts later run_id other p s'
                (take-IsDistinct opts now run_id session_id s d)).0
              e in
          absurd (ground (arith, take-gone opts now run_id session_id s d, found))
    ]
