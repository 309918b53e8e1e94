-- ===== src/Delivery/Drains.antt =====
-- The drain of a gate keeps the balance of the notifications.
use pi_smart_compact.Base.{
  ℕ, zero, suc, ◌+◌, ◌≡◌, refl, List, [], ◌∷◌, true, false, ◌&&◌, not, Option, none, some, arith,
  ◌==◌, Option-cases, Bool-cases, inl, inr, ap,
}
use pi_smart_compact.OpenLoops.Laws.{weigh}
use pi_smart_compact.Delivery.{
  DeliveryRequest, Gate, Delivery, SessionRead, put_gate, queue_of, matched, cleared, is_open,
}
use pi_smart_compact.Delivery.Drain.{
  Action, defers, acquires, releases, cancels, clears, act, act_all, Outcome, first_request,
  next_request, after_delivery, still_failed, drain_loop, settle_gate, is_done, finish, undrained,
  finish_drain, drain,
}
use pi_smart_compact.Delivery.Conserve.{
  weigh-append, held, IsBalanced, clear-IsBalanced, cleared-IsBalanced, put_gate-IsBalanced,
  matched-some, matched-kept, acquire-IsBalanced, defer-IsBalanced, release-IsBalanced,
  pause_cancelled-IsBalanced,
}

module _ (f : DeliveryRequest → ℕ) where
  act-IsBalanced : (n : ℕ) (s : Delivery) (a : Action) → IsBalanced f n s → IsBalanced f n (act s a)
  unfolding act
  act-IsBalanced n s (defers request read) h = defer-IsBalanced f n s request read h
  act-IsBalanced n s (acquires id) h = acquire-IsBalanced f n s id h
  act-IsBalanced n s (releases number token read) h = release-IsBalanced f n s number token read h
  act-IsBalanced n s (cancels number read) h = pause_cancelled-IsBalanced f n s number read h
  act-IsBalanced n s clears h = clear-IsBalanced f n s h

  act_all-IsBalanced :
      (n : ℕ) (s : Delivery) (actions : List Action)
      → IsBalanced f n s
      → IsBalanced f n (act_all s actions)
  unfolding act_all
  act_all-IsBalanced n s [] h = h
  act_all-IsBalanced n s (a ∷ actions) h =
      act_all-IsBalanced n (act s a) actions (act-IsBalanced n s a h)

  first_request-weigh :
      (gate : Gate) (queue : List DeliveryRequest) (request : DeliveryRequest) (rest : Gate)
      → first_request gate queue ≡ some (request, rest)
      → weigh f queue ≡ f request + weigh f rest.queue
  first_request-weigh gate [] request rest h = absurd (ground (arith, h))
  first_request-weigh gate (r ∷ queue) request rest h =
      ap
        (λ (o : Option (DeliveryRequest × Gate)). elim o [
          | none ↦ 0
          | some (a, g) ↦ f a + weigh f g.queue
        ])
        h

  next_request-weigh :
      (gate : Gate) (request : DeliveryRequest) (rest : Gate)
      → next_request (some gate) ≡ some (request, rest)
      → weigh f gate.queue ≡ f request + weigh f rest.queue
  next_request-weigh gate request rest h = elim (Bool-cases (is_open gate)) [
    | inl ready ↦ first_request-weigh gate gate.queue request rest (ground (arith, h, ready))
    | inr shut ↦ absurd (ground (arith, h, shut))
  ]

  module _ (deliver : DeliveryRequest → Outcome) (number : ℕ) (read : SessionRead) where
    after_delivery-IsBalanced :
        (s : Delivery) (request : DeliveryRequest) (failed : List DeliveryRequest)
        → IsBalanced f (weigh f failed + f request) s
        → IsBalanced f
            (weigh f (still_failed deliver number read request failed))
            (after_delivery deliver number read s request)
    unfolding IsBalanced held
    after_delivery-IsBalanced s request failed h =
        let s' = act_all s (deliver request).actions in
        let h' = act_all-IsBalanced (weigh f failed + f request) s (deliver request).actions h in
        elim (Bool-cases (deliver request).throws) [
          | inl throws ↦ rw throws (omega (arith, h', weigh-append f failed (request ∷ [])))
          | inr returns ↦ rw returns (omega (arith, h', weigh-append f s'.delivered (request ∷ [])))
        ]

    take_request-IsBalanced :
        (n : ℕ) (s : Delivery) (gate : Gate) (request : DeliveryRequest) (rest : Gate)
        → s.current ≡ some gate
        → weigh f gate.queue ≡ f request + weigh f rest.queue
        → IsBalanced f n s
        → IsBalanced f (n + f request) (put_gate s rest)
    unfolding IsBalanced held
    take_request-IsBalanced n s gate request rest e w h =
        omega (arith, h, w, ap (λ c. weigh f (queue_of c)) e)

    drain_loop-IsBalanced :
        (fuel : ℕ) (s : Delivery) (failed : List DeliveryRequest)
        → IsBalanced f (weigh f failed) s
        → IsBalanced f
            (weigh f (drain_loop deliver number read fuel s failed).1)
            (drain_loop deliver number read fuel s failed).0
    unfolding drain_loop
    drain_loop-IsBalanced zero s failed h = h
    drain_loop-IsBalanced (suc fuel) s failed h = elim (Option-cases (matched s number read)) [
      | inl e ↦ rw (e, drain_loop) (cleared-IsBalanced f (weigh f failed) s number read h)
      | inr (gate, e) ↦ elim (Option-cases (next_request (some gate))) [
        | inl stop ↦
            rw (drain_loop, e, stop) (cleared-IsBalanced f (weigh f failed) s number read h)
        | inr ((request, rest), go) ↦
            let taken =
              take_request-IsBalanced (weigh f failed) s gate request rest
                (matched-some f s number read gate e) (next_request-weigh gate request rest go) h in
            rw (drain_loop, e, go)
              (drain_loop-IsBalanced fuel _ _
                (after_delivery-IsBalanced (put_gate s rest) request failed taken))
      ]
    ]

  settle_gate-IsBalanced :
      (s : Delivery) (gate : Gate) (failed : List DeliveryRequest)
      → s.current ≡ some gate
      → IsBalanced f (weigh f failed) s
      → IsBalanced f 0 (put_gate s (settle_gate failed gate))
  unfolding IsBalanced held
  settle_gate-IsBalanced s gate failed e h =
      omega (arith, h, ap (λ c. weigh f (queue_of c)) e, weigh-append f failed gate.queue)

  finish-IsBalanced :
      (s : Delivery) (o : Option Gate) (failed : List DeliveryRequest)
      → ((gate : Gate) → o ≡ some gate → s.current ≡ some gate)
      → IsBalanced f (weigh f failed) s
      → IsBalanced f 0 (finish s o failed)
  unfolding finish IsBalanced held
  finish-IsBalanced s none failed mine h = omega (arith, h, weigh-append f s.lost failed)
  finish-IsBalanced s (some gate) failed mine h =
      let v = settle_gate-IsBalanced s gate failed (mine gate refl) h in
      elim (Bool-cases (is_done (settle_gate failed gate))) [
        | inl done ↦ rw done (clear-IsBalanced f 0 (put_gate s (settle_gate failed gate)) v)
        | inr kept ↦ rw kept v
      ]

  undrained-IsBalanced :
      (n : ℕ) (s : Delivery) (number : ℕ) → IsBalanced f n s → IsBalanced f n (undrained s number)
  unfolding undrained
  undrained-IsBalanced n s number h = elim (Option-cases s.current) [
    | inl e ↦ rw (e, undrained) h
    | inr (gate, e) ↦ elim (Bool-cases (gate.number == number)) [
      | inl same ↦
          rw (undrained, e, same)
            (put_gate-IsBalanced f n s gate (record gate { draining = false }) e refl h)
      | inr other ↦ rw (undrained, e, other) h
    ]
  ]

  finish_drain-IsBalanced :
      (s : Delivery) (number : ℕ) (read : SessionRead) (failed : List DeliveryRequest)
      → IsBalanced f (weigh f failed) s
      → IsBalanced f 0 (finish_drain s number read failed)
  unfolding finish_drain
  finish_drain-IsBalanced s number read failed h =
      let s' = undrained s number in
      finish-IsBalanced (cleared s' number read) (matched s' number read) failed
        (λ gate e. rw (matched-kept f s' number read gate e) (matched-some f s' number read gate e))
        (cleared-IsBalanced f (weigh f failed) s' number read
          (undrained-IsBalanced (weigh f failed) s number h))

  module _ (fuel : ℕ) (deliver : DeliveryRequest → Outcome) where
    pub drain-IsBalanced :
        (s : Delivery) (number : ℕ) (read : SessionRead)
        → IsBalanced f 0 s
        → IsBalanced f 0 (drain fuel deliver s number read)
    unfolding drain
    drain-IsBalanced s number read h = elim (Option-cases (matched s number read)) [
      | inl e ↦ rw (drain, e) (cleared-IsBalanced f 0 s number read h)
      | inr (gate, e) ↦ elim (Bool-cases (is_open gate && not gate.draining)) [
        | inr shut ↦ rw (drain, e, shut) (cleared-IsBalanced f 0 s number read h)
        | inl ready ↦
            let begun = record gate { draining = true; has_timer = false } in
            let v =
              put_gate-IsBalanced f 0 s gate begun (matched-some f s number read gate e) refl h in
            let r = drain_loop deliver number read fuel (put_gate s begun) [] in
            rw (drain, e, ready)
              (finish_drain-IsBalanced r.0 number read r.1
                (drain_loop-IsBalanced deliver number read fuel (put_gate s begun) [] v))
      ]
    ]
