-- ===== src/AnchorCache/Totals.antt =====
-- The numbers of owned and of foreign markers (`src/app/anchor-cache.ts`) along an eviction.
use pi_smart_compact.Base.{
  ℕ, zero, suc, ◌+◌, ◌≤◌, ◌≡◌, refl, List, [], ◌∷◌, Bool, true, false, not, ◌&&◌, Option, none,
  some, is_some, arith, Bool-cases, inl, inr, All, All-append, subst, add-zero, ◌||◌,
}
use pi_smart_compact.AnchorCache.{
  block, Blocks, nil, cons, AnthropicPayload, system, tools, messages, MarkerRef, is_marked,
  is_owned, unmark_at, unmark_message, unmark_in, unmark, refs_from, in_section, in_message,
  message_refs, list_markers, Section, total, total_messages, total_of, foreign_weight,
  owned_weight, any_weight, count_top, count_markers, drop_next, drop, drop_newest, drop_messages,
  drop_outer, drop_nested_foreign_marker,
}

abbrev IsLess : Blocks → Option Blocks → Type 0
IsLess b none = total foreign_weight b ≡ 0
IsLess b (some c) =
    (total foreign_weight c + 1 ≡ total foreign_weight b)
    × (total owned_weight c ≡ total owned_weight b)

drop-IsLess : (b : Blocks) → IsLess b (drop b)
unfolding drop total
drop-IsLess nil = refl
drop-IsLess (cons (block marker owned content) blocks) =
    let h = drop-IsLess content in
    let k = drop-IsLess blocks in
    elim (Bool-cases (is_some marker && not owned)) [
      | inl f ↦ rw f (marked_step (is_some marker) owned f)
      | inr e ↦ rw e (next (drop content) (drop blocks) h k e)
    ]
  where
    marked_step :
        (m o : Bool)
        → (m && not o) ≡ true
        → (0 + (total foreign_weight content + total foreign_weight blocks) + 1
            ≡ foreign_weight m o + (total foreign_weight content + total foreign_weight blocks))
          × (0 + (total owned_weight content + total owned_weight blocks)
              ≡ owned_weight m o + (total owned_weight content + total owned_weight blocks))
    marked_step m o f = (ground (arith, f), ground (arith, f))

    next :
        (a b : Option Blocks)
        → IsLess content a
        → IsLess blocks b
        → (is_some marker && not owned) ≡ false
        → IsLess
            (cons (block marker owned content) blocks)
            (drop_next marker owned content blocks a b)
    next (some c) b h k e = (omega (arith, h.0), omega (arith, h.1))
    next none (some c) h k e = (omega (arith, k.0), omega (arith, k.1))
    next none none h k e = rw (e, h, k) (omega arith)

abbrev IsLessIn : List Blocks → Option (List Blocks) → Type 0
IsLessIn b none = total_messages foreign_weight b ≡ 0
IsLessIn b (some c) =
    (total_messages foreign_weight c + 1 ≡ total_messages foreign_weight b)
    × (total_messages owned_weight c ≡ total_messages owned_weight b)

drop_messages-IsLessIn : (b : List Blocks) → IsLessIn b (drop_messages b)
unfolding drop_messages total_messages
drop_messages-IsLessIn [] = refl
drop_messages-IsLessIn (content ∷ rest) =
    next (drop_messages rest) (drop content) (drop_messages-IsLessIn rest) (drop-IsLess content)
  where
    next :
        (a : Option (List Blocks)) (b : Option Blocks)
        → IsLessIn rest a
        → IsLess content b
        → IsLessIn (content ∷ rest) (drop_newest content rest a b)
    next (some c) b h k = (omega (arith, h.0), omega (arith, h.1))
    next none (some c) h k = (omega (arith, k.0), omega (arith, k.1))
    next none none h k = omega (arith, h, k)

-- A drop takes one foreign marker and no owned one; where there is none, no marker is foreign.
abbrev pub IsLessOf : AnthropicPayload → Option AnthropicPayload → Type 0
IsLessOf p none = total_of foreign_weight p ≡ 0
IsLessOf p (some q) =
    (total_of foreign_weight q + 1 ≡ total_of foreign_weight p)
    × (total_of owned_weight q ≡ total_of owned_weight p)

pub drop_nested_foreign_marker-IsLessOf :
    (p : AnthropicPayload) → IsLessOf p (drop_nested_foreign_marker p)
unfolding drop_nested_foreign_marker
drop_nested_foreign_marker-IsLessOf p =
    next (drop_messages p.messages) (drop p.tools) (drop p.system)
      (drop_messages-IsLessIn p.messages) (drop-IsLess p.tools) (drop-IsLess p.system)
  where
    next :
        (a : Option (List Blocks)) (b c : Option Blocks)
        → IsLessIn p.messages a
        → IsLess p.tools b
        → IsLess p.system c
        → IsLessOf p (drop_outer p a b c)
    next (some a) b c h k l = (omega (arith, h.0), omega (arith, h.1))
    next none (some b) c h k l = (omega (arith, k.0), omega (arith, k.1))
    next none none (some c) h k l = (omega (arith, l.0), omega (arith, l.1))
    next none none none h k l = omega (arith, h, k, l)

count_top-le : (b : Blocks) → count_top b ≤ total foreign_weight b + total owned_weight b
unfolding count_top total
count_top-le nil = omega arith
count_top-le (cons (block marker owned content) blocks) = ground (arith, count_top-le blocks)

total-any : (b : Blocks) → total any_weight b ≡ total foreign_weight b + total owned_weight b
unfolding total
total-any nil = omega arith
total-any (cons (block marker owned content) blocks) =
    ground (arith, total-any content, total-any blocks)

total_messages-any :
    (b : List Blocks)
    → total_messages any_weight b ≡ total_messages foreign_weight b + total_messages owned_weight b
unfolding total_messages
total_messages-any [] = omega arith
total_messages-any (content ∷ rest) = omega (arith, total-any content, total_messages-any rest)

-- The count is of markers that are owned or foreign.
pub count_markers-le :
    (p : AnthropicPayload) → count_markers p ≤ total_of foreign_weight p + total_of owned_weight p
unfolding count_markers
count_markers-le p =
    omega (arith, count_top-le p.system, count_top-le p.tools, total_messages-any p.messages)

-- Where the blocks are foreign and marked, an eviction takes one foreign marker.
abbrev is_foreign_at : ℕ → Blocks → Bool
is_foreign_at k nil = false
is_foreign_at zero (cons b blocks) = is_marked b && not (is_owned b)
is_foreign_at (suc k) (cons b blocks) = is_foreign_at k blocks

unmark_at-totals : (k : ℕ) (b : Blocks) → is_foreign_at k b ≡ true → IsLess b (some (unmark_at k b))
unfolding unmark_at total
unmark_at-totals k nil h = absurd (ground arith)
unmark_at-totals zero (cons (block marker owned content) blocks) h =
    (ground (arith, h), ground (arith, h))
unmark_at-totals (suc k) (cons (block marker owned content) blocks) h =
    let t = unmark_at-totals k blocks h in (omega (arith, t.0), omega (arith, t.1))

abbrev is_foreign_in : (i k : ℕ) → List Blocks → Bool
is_foreign_in i k [] = false
is_foreign_in zero k (content ∷ rest) = is_foreign_at k content
is_foreign_in (suc i) k (content ∷ rest) = is_foreign_in i k rest

unmark_message-totals :
    (i k : ℕ) (b : List Blocks)
    → is_foreign_in i k b ≡ true
    → IsLessIn b (some (unmark_message i k b))
unfolding unmark_message total_messages
unmark_message-totals i k [] h = absurd (ground arith)
unmark_message-totals zero k (content ∷ rest) h =
    let t = unmark_at-totals k content h in (omega (arith, t.0), omega (arith, t.1))
unmark_message-totals (suc i) k (content ∷ rest) h =
    let t = unmark_message-totals i k rest h in (omega (arith, t.0), omega (arith, t.1))

abbrev is_foreign_of : Section → AnthropicPayload → (i k : ℕ) → Bool
is_foreign_of system p i k = is_foreign_at i p.system
is_foreign_of tools p i k = is_foreign_at i p.tools
is_foreign_of messages p i k = is_foreign_in i k p.messages

-- The reference is to a marked block that is not owned.
abbrev pub is_foreign_ref : AnthropicPayload → MarkerRef → Bool
is_foreign_ref p r = is_foreign_of r.section p r.idx r.block_idx

pub unmark-IsLessOf :
    (p : AnthropicPayload) (r : MarkerRef)
    → is_foreign_ref p r ≡ true
    → IsLessOf p (some (unmark p r))
unfolding unmark_in
unmark-IsLessOf p r h = unmark_in-IsLessOf r.section p r.idx r.block_idx h
  where
    unmark_in-IsLessOf :
        (s : Section) (p : AnthropicPayload) (i k : ℕ)
        → is_foreign_of s p i k ≡ true
        → IsLessOf p (some (unmark_in s p i k))
    unmark_in-IsLessOf system p i k h =
        let t = unmark_at-totals i p.system h in (omega (arith, t.0), omega (arith, t.1))
    unmark_in-IsLessOf tools p i k h =
        let t = unmark_at-totals i p.tools h in (omega (arith, t.0), omega (arith, t.1))
    unmark_in-IsLessOf messages p i k h =
        let t = unmark_message-totals i k p.messages h in (omega (arith, t.0), omega (arith, t.1))

-- Every reference is to an owned or a foreign marker, as it says.
abbrev pub IsTrue : AnthropicPayload → MarkerRef → Type 0
IsTrue p r = (r.owned || is_foreign_ref p r) ≡ true

refs_from-All :
    (P : MarkerRef → Type 0) (at : ℕ → Bool → MarkerRef) (k : ℕ) (b : Blocks)
    → ((j : ℕ) (o : Bool) → (o || is_foreign_at j b) ≡ true → P (at (k + j) o))
    → All P (refs_from at k b)
unfolding refs_from
refs_from-All P at k nil h = tt
refs_from-All P at k (cons b blocks) h =
    let rest =
      refs_from-All P at (suc k) blocks
        λ j o e. subst (λ n. P (at n o)) (omega arith) (h (suc j) o e) in
    elim (Bool-cases (is_marked b)) [
      | inr bare ↦ rw bare rest
      | inl marked ↦ rw marked (
        subst (λ n. P (at n (is_owned b))) (add-zero k) (h 0 (is_owned b) (ground (arith, marked))),
        rest,
      )
    ]

zero_plus : (n : ℕ) → 0 + n ≡ n
zero_plus n = omega arith

message_refs-All :
    (P : MarkerRef → Type 0) (i : ℕ) (b : List Blocks)
    → ((n j : ℕ) (o : Bool) → (o || is_foreign_in n j b) ≡ true → P (in_message (i + n) j o))
    → All P (message_refs i b)
unfolding message_refs
message_refs-All P i [] h = tt
message_refs-All P i (content ∷ rest) h =
    All-append P (refs_from (in_message i) 0 content) (message_refs (suc i) rest)
      (refs_from-All P (in_message i) 0 content
        λ j o e. rw (zero_plus j) (subst (λ n. P (in_message n j o)) (add-zero i) (h 0 j o e)))
      (message_refs-All P (suc i) rest
        λ n j o e. subst (λ m. P (in_message m j o)) (omega arith) (h (suc n) j o e))

pub list_markers-IsTrue : (p : AnthropicPayload) → All (λ r. IsTrue p r) (list_markers p)
unfolding list_markers
list_markers-IsTrue p =
    All-append (λ r. IsTrue p r) (refs_from (in_section system) 0 p.system) _
      (refs_from-All (λ r. IsTrue p r) (in_section system) 0 p.system λ j o e. rw (zero_plus j) e)
      (All-append (λ r. IsTrue p r) (refs_from (in_section tools) 0 p.tools) _
        (refs_from-All (λ r. IsTrue p r) (in_section tools) 0 p.tools λ j o e. rw (zero_plus j) e)
        (message_refs-All (λ r. IsTrue p r) 0 p.messages λ n j o e. rw (zero_plus n) e))
