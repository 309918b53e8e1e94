-- ===== src/Delivery/Live.antt =====
-- A drain delivers what waits.
use pi_smart_compact.Base.{
  ℕ, zero, suc, ◌≤◌, ◌≡◌, refl, List, [], ◌∷◌, ◌++◌, String, true, false, not, some, arith,
  if◌then◌else◌, ◌==◌, is_some, Bool-cases, inl, inr, ◌∙◌, length, append-nil, append_assoc,
}
use pi_smart_compact.OpenLoops.{is_text}
use pi_smart_compact.Continuity.Facts.{keep_if}
use pi_smart_compact.Delivery.{
  DeliveryRequest, Gate, Delivery, SessionRead, put_gate, queue_of, clear, matched, cleared,
  is_open, is_empty,
}
use pi_smart_compact.Delivery.Drain.{
  act_all, Outcome, after_delivery, drain_loop, finish, undrained, finish_drain, drain,
}

is_text_self : (a : String) → is_text a a ≡ true
is_text_self a = ground arith

same_number : (n : ℕ) → (n == n) ≡ true
same_number n = ground arith

matched_self :
    (s : Delivery) (g : Gate) → matched (put_gate s g) g.number (some g.session_id) ≡ some g
unfolding matched
matched_self s g = rw (same_number g.number, is_text_self g.session_id) refl

cleared-some :
    (s : Delivery) (g : Gate) (number : ℕ) (id : String)
    → cleared (put_gate s g) number (some id) ≡ put_gate s g
unfolding cleared
cleared-some s g number id = elim (Bool-cases (g.number == number)) [
  | inl same ↦ rw same refl
  | inr other ↦ rw other refl
]

undrained_self :
    (s : Delivery) (g : Gate)
    → undrained (put_gate s g) g.number ≡ put_gate s (record g { draining = false })
unfolding undrained
undrained_self s g = rw (same_number g.number) refl

finish_drain_self :
    (s : Delivery) (g : Gate) (failed : List DeliveryRequest)
    → finish_drain (put_gate s g) g.number (some g.session_id) failed
      ≡ finish
          (put_gate s (record g { draining = false }))
          (some (record g { draining = false }))
          failed
unfolding finish_drain
finish_drain_self s g failed =
    let idle = record g { draining = false } in
    rw (undrained_self s g, cleared-some s idle g.number g.session_id, matched_self s idle) refl

-- The end of a drain whose gate is open and has nothing queued.
finish_quiet :
    (s : Delivery) (g : Gate) (failed : List DeliveryRequest)
    → is_open g ≡ true
    → ((finish_drain
          (put_gate s (record g { queue = [] }))
          g.number
          (some g.session_id)
          failed).delivered
        ≡ s.delivered)
      × (queue_of
            (finish_drain
              (put_gate s (record g { queue = [] }))
              g.number
              (some g.session_id)
              failed).current
          ≡ failed)
      × ((finish_drain
            (put_gate s (record g { queue = [] }))
            g.number
            (some g.session_id)
            failed).lost
          ≡ s.lost)
      × (is_some
            (finish_drain
              (put_gate s (record g { queue = [] }))
              g.number
              (some g.session_id)
              failed).current
          ≡ not (is_empty failed))
unfolding finish clear
finish_quiet s g [] h =
    rw (finish_drain_self s (record g { queue = [] }) [], finish, h, clear, append-nil s.lost)
      (refl, refl, refl, refl)
finish_quiet s g (r ∷ failed) h =
    let unheld : is_empty g.scopes ≡ true = ground (arith, h) in
    rw
      (
        finish_drain_self s (record g { queue = [] }) (r ∷ failed),
        finish,
        h,
        unheld,
        append-nil failed,
      )
      (refl, refl, refl, refl)

-- What throws and what returns of a queue.
abbrev pub failing : (DeliveryRequest → Outcome) → List DeliveryRequest → List DeliveryRequest
failing deliver queue = keep_if (λ r. (deliver r).throws) queue

abbrev pub healthy : (DeliveryRequest → Outcome) → List DeliveryRequest → List DeliveryRequest
healthy deliver queue = keep_if (λ r. not (deliver r).throws) queue

module _ (deliver : DeliveryRequest → Outcome)
    (quiet : (r : DeliveryRequest) → (deliver r).actions ≡ []) where
  after_delivery_quiet :
      (number : ℕ) (read : SessionRead) (s : Delivery) (r : DeliveryRequest)
      → after_delivery deliver number read s r
        ≡ (if (deliver r).throws then s else record s { delivered = s.delivered ++ r ∷ [] })
  unfolding act_all
  after_delivery_quiet number read s r = rw (quiet r) refl

  abbrev emptied : Delivery → Gate → List DeliveryRequest → Delivery
  emptied s g queue = record s {
    current = some (record g { queue = [] });
    delivered = s.delivered ++ healthy deliver queue;
  }

  emptied_nil :
      (s : Delivery) (g : Gate) (failed : List DeliveryRequest)
      → ◌≡◌ {A = Delivery × List DeliveryRequest}
          (put_gate s (record g { queue = [] }), failed)
          (emptied s g [], failed ++ [])
  unfolding keep_if
  emptied_nil s g failed = rw (append-nil s.delivered, append-nil failed) refl

  drain_loop_quiet :
      (fuel : ℕ) (queue : List DeliveryRequest) (s : Delivery) (g : Gate)
      (failed : List DeliveryRequest)
      → is_open g ≡ true
      → length queue ≤ fuel
      → drain_loop deliver g.number
          (some g.session_id)
          fuel
          (put_gate s (record g { queue = queue }))
          failed
        ≡ (emptied s g queue, failed ++ failing deliver queue)
  unfolding drain_loop keep_if
  drain_loop_quiet zero [] s g failed h room = emptied_nil s g failed
  drain_loop_quiet (suc fuel) [] s g failed h room =
      rw
        (
          drain_loop,
          matched_self s (record g { queue = [] }),
          h,
          cleared-some s (record g { queue = [] }) g.number g.session_id,
        )
        (emptied_nil s g failed)
  drain_loop_quiet zero (r ∷ queue) s g failed h room = absurd (omega arith)
  drain_loop_quiet (suc fuel) (r ∷ queue) s g failed h room =
      let rest = record g { queue = queue } in
      elim (Bool-cases (deliver r).throws) [
        | inl throws ↦
            rw
              (
                drain_loop,
                matched_self s (record g { queue = r ∷ queue }),
                h,
                after_delivery_quiet g.number (some g.session_id) (put_gate s rest) r,
                throws,
              )
              (drain_loop_quiet fuel queue s g (failed ++ r ∷ []) h (omega arith)
                ∙ rw (append_assoc failed (r ∷ []) (failing deliver queue)) refl)
        | inr returns ↦
            rw
              (
                drain_loop,
                matched_self s (record g { queue = r ∷ queue }),
                h,
                after_delivery_quiet g.number (some g.session_id) (put_gate s rest) r,
                returns,
              )
              (drain_loop_quiet fuel queue (record s { delivered = s.delivered ++ r ∷ [] }) g failed
                  h (omega arith)
                ∙ rw (append_assoc s.delivered (r ∷ []) (healthy deliver queue)) refl)
      ]

  -- Where callbacks do nothing to the module and the fuel is the queue's length, a drain of an
  -- open gate delivers all that does not throw, in order, keeps what throws queued in order, gives
  -- nothing up, and clears the gate exactly if nothing failed.
  pub drain_quiet :
      (fuel : ℕ) (s : Delivery) (g : Gate)
      → is_open g ≡ true
      → g.draining ≡ false
      → length g.queue ≤ fuel
      → ((drain fuel deliver (put_gate s g) g.number (some g.session_id)).delivered
          ≡ s.delivered ++ healthy deliver g.queue)
        × (queue_of (drain fuel deliver (put_gate s g) g.number (some g.session_id)).current
            ≡ failing deliver g.queue)
        × ((drain fuel deliver (put_gate s g) g.number (some g.session_id)).lost ≡ s.lost)
        × (is_some (drain fuel deliver (put_gate s g) g.number (some g.session_id)).current
            ≡ not (is_empty (failing deliver g.queue)))
  unfolding drain
  drain_quiet fuel s g h free room =
      rw
        (
          drain,
          matched_self s g,
          h,
          free,
          drain_loop_quiet fuel g.queue s (record g { draining = true; has_timer = false }) [] h
              room,
        )
        (finish_quiet (record s { delivered = s.delivered ++ healthy deliver g.queue })
          (record g { draining = true; has_timer = false }) (failing deliver g.queue) h)
