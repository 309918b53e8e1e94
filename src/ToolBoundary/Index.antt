-- ===== src/ToolBoundary/Index.antt =====
-- The index names, for each call, an assistant message that makes it.
use pi_smart_compact.Base.{
  ℕ, suc, ◌+◌, ◌≡◌, refl, List, [], ◌∷◌, String, Option, none, some, true, arith, get_elem?,
  Bool-cases, inl, inr, ◌⊎◌, lookup, String_discrete, subst,
}
use pi_smart_compact.OrderedMap.Laws.{lookup-set}
use pi_smart_compact.Messages.{Block, tool_call, other_block, SessionMessage}
use pi_smart_compact.ToolBoundary.{
  ToolCallBoundaryIndex, set_id, set_ids, is_parallel, collect_tool_call_ids, is_assistant,
  index_from, build_tool_call_boundary_index,
}

-- The id stands in the list.
abbrev pub Lists : String → List (Option String) → Type 0
Lists id [] = ⊥
Lists id (x ∷ xs) = (x ≡ some id) ⊎ Lists id xs

-- A block makes the call: by its own id, or, in a parallel wrapper, by a nested one.
abbrev pub Calls : String → Block → Type 0
Calls id other_block = ⊥
Calls id (tool_call own name tool_uses) =
    (own ≡ some id) ⊎ ((is_parallel name ≡ true) × Lists id tool_uses)

abbrev pub AnyCalls : String → List Block → Type 0
AnyCalls id [] = ⊥
AnyCalls id (b ∷ bs) = Calls id b ⊎ AnyCalls id bs

module _ (id : String) (i : ℕ) where
  set_id_sound :
      (x : Option String) (out : ToolCallBoundaryIndex) (k : ℕ)
      → lookup String_discrete id (set_id x i out) ≡ some k
      → (lookup String_discrete id out ≡ some k) ⊎ ((k ≡ i) × (x ≡ some id))
  set_id_sound none out k h = inl h
  set_id_sound (some x) out k h = ground (arith, lookup-set String_discrete out id x i)

  set_ids_sound :
      (xs : List (Option String)) (out : ToolCallBoundaryIndex) (k : ℕ)
      → lookup String_discrete id (set_ids xs i out) ≡ some k
      → (lookup String_discrete id out ≡ some k) ⊎ ((k ≡ i) × Lists id xs)
  unfolding set_ids
  set_ids_sound [] out k h = inl h
  set_ids_sound (x ∷ xs) out k h = elim (set_ids_sound xs (set_id x i out) k h) [
    | inl e ↦ ground (arith, set_id_sound x out k e)
    | inr (e, l) ↦ inr (e, inr l)
  ]

  collect_sound :
      (bs : List Block) (out : ToolCallBoundaryIndex) (k : ℕ)
      → lookup String_discrete id (collect_tool_call_ids bs i out) ≡ some k
      → (lookup String_discrete id out ≡ some k) ⊎ ((k ≡ i) × AnyCalls id bs)
  unfolding collect_tool_call_ids
  collect_sound [] out k h = inl h
  collect_sound (other_block ∷ bs) out k h = ground (arith, collect_sound bs out k h)
  collect_sound (tool_call own name xs ∷ bs) out k h = elim (Bool-cases (is_parallel name)) [
    | inl wraps ↦ elim (collect_sound bs (set_ids xs i (set_id own i out)) k (ground arith)) [
      | inl e ↦ elim (set_ids_sound xs (set_id own i out) k e) [
        | inl e' ↦ ground (arith, set_id_sound own out k e')
        | inr (e', l) ↦ inr (e', inl (inr (wraps, l)))
      ]
      | inr (e, c) ↦ inr (e, inr c)
    ]
    | inr plain ↦ elim (collect_sound bs (set_id own i out) k (ground arith)) [
      | inl e ↦ ground (arith, set_id_sound own out k e)
      | inr (e, c) ↦ inr (e, inr c)
    ]
  ]

-- Message `k` is there, speaks for the assistant, and makes the call.
abbrev pub IsCaller : String → List SessionMessage → ℕ → Type 0
IsCaller id msgs k =
    (m : SessionMessage) × (get_elem? msgs k ≡ some m)
    × (is_assistant m.role ≡ true)
    × AnyCalls id m.content

index_from_sound :
    (id : String) (i : ℕ) (msgs : List SessionMessage) (out : ToolCallBoundaryIndex) (k : ℕ)
    → lookup String_discrete id (index_from i msgs out) ≡ some k
    → (lookup String_discrete id out ≡ some k) ⊎ ((d : ℕ) × (k ≡ i + d) × IsCaller id msgs d)
unfolding index_from
index_from_sound id i [] out k h = inl h
index_from_sound id i (m ∷ msgs) out k h = elim (index_from_sound id (suc i) msgs _ k h) [
  | inr (d, e, caller) ↦ inr (suc d, omega arith, caller)
  | inl e ↦ elim (Bool-cases (is_assistant m.role)) [
    | inr quiet ↦ inl (ground arith)
    | inl speaks ↦ elim (collect_sound id i m.content out k (ground arith)) [
      | inl old ↦ inl old
      | inr (here, calls) ↦ inr (0, omega arith, (m, refl, speaks, calls))
    ]
  ]
]

-- Where the index sends an id there is an assistant message that makes that call.
pub build-IsCaller :
    (id : String) (msgs : List SessionMessage) (k : ℕ)
    → lookup String_discrete id (build_tool_call_boundary_index msgs) ≡ some k
    → IsCaller id msgs k
unfolding build_tool_call_boundary_index lookup
build-IsCaller id msgs k h = elim (index_from_sound id 0 msgs [] k h) [
  | inl e ↦ absurd (ground arith)
  | inr (d, e, caller) ↦ subst (IsCaller id msgs) (omega arith) caller
]
