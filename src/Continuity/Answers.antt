-- ===== src/Continuity/Answers.antt =====
-- One answer for each question: what `collapseDecisionsByQuestion` keeps.
use pi_smart_compact.Base.{
  ◌≡◌, refl, ◌≢◌, List, [], ◌∷◌, map, String, Option, none, some, arith, if◌then◌else◌, All, ◌∙◌,
  lookup, String_discrete,
}
use pi_smart_compact.OrderedMap.{OrderedMap, set}
use pi_smart_compact.OrderedMap.Laws.{lookup-set}
use pi_smart_compact.OpenLoops.{is_text, first_some, find_key}
use pi_smart_compact.Continuity.{Decision, TextTests}
use pi_smart_compact.Continuity.Facts.{decision_key, is_answered, collapse_from, collapse}

module _ (t : TextTests) where
  -- The last answered record of a question.
  abbrev pub latest_answer : String → List Decision → Option Decision
  latest_answer k [] = none
  latest_answer k (d ∷ items) = first_some (latest_answer k items) (
      if is_text (decision_key t d) k
      then (if is_answered t d.user_response then some d else none)
      else none)

  lookup-collapse_from :
      (k : String) (m : OrderedMap String Decision) (items : List Decision)
      → k ≢ ""
      → lookup String_discrete k (collapse_from t m items)
        ≡ first_some
            (latest_answer k items)
            (first_some (lookup String_discrete k m) (find_key (decision_key t) k items))
  unfolding lookup collapse_from
  lookup-collapse_from k m [] h = ground arith
  lookup-collapse_from k m (d ∷ items) h = ground (
    arith,
    lookup-collapse_from k m items h,
    lookup-collapse_from k (set String_discrete m (decision_key t d) d) items h,
    lookup-set String_discrete m k (decision_key t d) d,
  )

  IsKeyed : OrderedMap String Decision → Type 0
  IsKeyed m = All (λ (e : String × Decision). decision_key t e.1 ≡ e.0) m

  set-IsKeyed :
      (m : OrderedMap String Decision) (d : Decision)
      → IsKeyed m
      → IsKeyed (set String_discrete m (decision_key t d) d)
  unfolding IsKeyed set
  set-IsKeyed [] d h = (refl, tt)
  set-IsKeyed ((k, e) ∷ m) d h = ground (arith, set-IsKeyed m d)

  collapse_from-IsKeyed :
      (m : OrderedMap String Decision) (items : List Decision)
      → IsKeyed m
      → IsKeyed (collapse_from t m items)
  unfolding collapse_from
  collapse_from-IsKeyed m [] h = h
  collapse_from-IsKeyed m (d ∷ items) h = ground (
    arith,
    collapse_from-IsKeyed m items,
    collapse_from-IsKeyed (set String_discrete m (decision_key t d) d) items,
    set-IsKeyed m d,
  )

  find-IsKeyed :
      (k : String) (m : OrderedMap String Decision)
      → IsKeyed m
      → find_key (decision_key t) k (map (λ (e : String × Decision). e.1) m)
        ≡ lookup String_discrete k m
  unfolding lookup IsKeyed
  find-IsKeyed k [] h = refl
  find-IsKeyed k ((j, d) ∷ m) h = ground (arith, find-IsKeyed k m)

  -- For a question with a key, the collapsed decisions have the last answered record, or else the
  -- first record: what a look from the end for an answer, and then one from the start, finds.
  pub collapse-find :
      (k : String) (items : List Decision)
      → k ≢ ""
      → find_key (decision_key t) k (collapse t items)
        ≡ first_some (latest_answer k items) (find_key (decision_key t) k items)
  unfolding collapse IsKeyed lookup
  collapse-find k items h =
      find-IsKeyed k (collapse_from t [] items) (collapse_from-IsKeyed [] items tt)
      ∙ lookup-collapse_from k [] items h
