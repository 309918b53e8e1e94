-- ===== src/Delivery/Conserve.antt =====
-- No notification is lost in a run, and none is delivered and kept.
use pi_smart_compact.Base.{
  ℕ, ◌+◌, ◌≡◌, refl, List, [], ◌∷◌, ◌++◌, String, ◌&&◌, not, some, arith, ◌==◌, is_some,
  Option-cases, Bool-cases, inl, inr, ap,
}
use pi_smart_compact.OpenLoops.{is_text}
use pi_smart_compact.OpenLoops.Laws.{weigh}
use pi_smart_compact.Delivery.{
  DeliveryRequest, cancelled, Gate, Delivery, SessionRead, put_gate, queue_of, clear, matched,
  cleared, is_session, leave_other, gate_or_new, acquire, with_gate, check_idle, release_gate,
  release, pause_cancelled, is_deferrable, takes_in, defer, set_timer,
}

pub weigh-append :
    {A : Type 0} (f : A → ℕ) (xs ys : List A) → weigh f (xs ++ ys) ≡ weigh f xs + weigh f ys
weigh-append f [] ys = omega arith
weigh-append f (x ∷ xs) ys = omega (arith, weigh-append f xs ys)

module _ (f : DeliveryRequest → ℕ) where
  -- What the gate's queue and the logs hold.
  unfoldable pub held : Delivery → ℕ
  held s = weigh f (queue_of s.current) + weigh f s.delivered + weigh f s.lost

  -- What was accepted is held, but for `n` that a drain has in hand.
  unfoldable pub IsBalanced : ℕ → Delivery → Type 0
  unfolding held
  IsBalanced n s = weigh f s.accepted ≡ held s + n

  pub clear-IsBalanced : (n : ℕ) (s : Delivery) → IsBalanced n s → IsBalanced n (clear s)
  unfolding clear IsBalanced held
  clear-IsBalanced n s h = omega (arith, h, weigh-append f s.lost (queue_of s.current))

  pub cleared-IsBalanced :
      (n : ℕ) (s : Delivery) (number : ℕ) (read : SessionRead)
      → IsBalanced n s
      → IsBalanced n (cleared s number read)
  unfolding cleared
  cleared-IsBalanced n s number read h = elim (Option-cases s.current) [
    | inl e ↦ rw (e, cleared) h
    | inr (gate, e) ↦ elim (Bool-cases (gate.number == number && not (is_some read))) [
      | inl thrown ↦ rw (e, thrown, cleared) (clear-IsBalanced n s h)
      | inr valid ↦ rw (e, valid, cleared) h
    ]
  ]

  -- A change of the gate that keeps its queue.
  pub put_gate-IsBalanced :
      (n : ℕ) (s : Delivery) (gate new : Gate)
      → s.current ≡ some gate
      → new.queue ≡ gate.queue
      → IsBalanced n s
      → IsBalanced n (put_gate s new)
  unfolding IsBalanced held
  put_gate-IsBalanced n s gate new e q h = ground (arith, e, q, h)

  pub matched-some :
      (s : Delivery) (number : ℕ) (read : SessionRead) (gate : Gate)
      → matched s number read ≡ some gate
      → s.current ≡ some gate
  unfolding matched
  matched-some s number read gate h = ground (arith, h)

  pub matched-kept :
      (s : Delivery) (number : ℕ) (read : SessionRead) (gate : Gate)
      → matched s number read ≡ some gate
      → cleared s number read ≡ s
  unfolding matched cleared
  matched-kept s number read gate h = ground (arith, h)

  pub with_gate-IsBalanced :
      (n : ℕ) (s : Delivery) (number : ℕ) (read : SessionRead) (change : Gate → Gate)
      → ((gate : Gate) → (change gate).queue ≡ gate.queue)
      → IsBalanced n s
      → IsBalanced n (with_gate (cleared s number read) (matched s number read) change)
  with_gate-IsBalanced n s number read change same h = elim (Option-cases (matched s number read)) [
    | inl e ↦ rw e (cleared-IsBalanced n s number read h)
    | inr (gate, e) ↦
        rw (e, matched-kept s number read gate e)
          (put_gate-IsBalanced n s gate (change gate) (matched-some s number read gate e)
            (same gate) h)
  ]

  leave_other-IsBalanced :
      (n : ℕ) (s : Delivery) (id : String) → IsBalanced n s → IsBalanced n (leave_other s id)
  unfolding leave_other
  leave_other-IsBalanced n s id h = elim (Option-cases s.current) [
    | inl e ↦ rw (e, leave_other) h
    | inr (gate, e) ↦ elim (Bool-cases (is_text gate.session_id id)) [
      | inl same ↦ rw (e, same, leave_other) h
      | inr other ↦ rw (e, other, leave_other) (clear-IsBalanced n s h)
    ]
  ]

  gate_or_new-queue :
      (s : Delivery) (id : String) → weigh f (gate_or_new s id).queue ≡ weigh f (queue_of s.current)
  gate_or_new-queue s id = elim (Option-cases s.current) [
    | inl e ↦ rw e refl
    | inr (gate, e) ↦ rw e refl
  ]

  pub acquire-IsBalanced :
      (n : ℕ) (s : Delivery) (id : String) → IsBalanced n s → IsBalanced n (acquire s id)
  unfolding acquire IsBalanced held
  acquire-IsBalanced n s id h =
      omega (arith, leave_other-IsBalanced n s id h, gate_or_new-queue (leave_other s id) id)

  pub defer-IsBalanced :
      (n : ℕ) (s : Delivery) (request : DeliveryRequest) (read : SessionRead)
      → IsBalanced n s
      → IsBalanced n (defer s request read).0
  unfolding defer IsBalanced held
  defer-IsBalanced n s request read h = elim (Option-cases s.current) [
    | inl e ↦ rw (e, defer) h
    | inr (gate, e) ↦ elim (Bool-cases (is_deferrable request gate)) [
      | inr refused ↦ rw (e, refused, defer) h
      | inl fits ↦ elim (Bool-cases (not (is_some read))) [
        | inl thrown ↦ rw (e, fits, thrown, defer) (clear-IsBalanced n s h)
        | inr valid ↦ elim (Bool-cases (is_session read gate && takes_in gate)) [
          | inr shut ↦ rw (e, fits, valid, shut, defer) h
          | inl ready ↦
              rw (e, fits, valid, ready, defer)
                (omega (
                  arith,
                  h,
                  ap (λ c. weigh f (queue_of c)) e,
                  weigh-append f gate.queue (request ∷ []),
                  weigh-append f s.accepted (request ∷ []),
                ))
        ]
      ]
    ]
  ]

  pub release-IsBalanced :
      (n : ℕ) (s : Delivery) (number token : ℕ) (read : SessionRead)
      → IsBalanced n s
      → IsBalanced n (release s number token read)
  unfolding release
  release-IsBalanced n s number token read h =
      with_gate-IsBalanced n s number read (release_gate token) (λ gate. ground arith) h

  pub check_idle-IsBalanced :
      (n : ℕ) (s : Delivery) (number : ℕ) (read : SessionRead)
      → IsBalanced n s
      → IsBalanced n (check_idle s number read)
  unfolding check_idle
  check_idle-IsBalanced n s number read h =
      with_gate-IsBalanced n s number read set_timer (λ gate. ground arith) h

  pub pause_cancelled-IsBalanced :
      (n : ℕ) (s : Delivery) (number : ℕ) (read : SessionRead)
      → IsBalanced n s
      → IsBalanced n (pause_cancelled s number read)
  unfolding pause_cancelled
  pause_cancelled-IsBalanced n s number read h =
      with_gate-IsBalanced n s number read (λ gate. record gate { pause = some cancelled })
        (λ gate. refl) h
