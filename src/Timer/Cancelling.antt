-- ===== src/Timer/Cancelling.antt =====
-- What a cancel call ensures (timer.cpp).
use protoactor_cpp.Base.{
  ℕ, ◌+◌, ◌≤◌, ◌≡◌, refl, ◌∙◌, Bool, true, false, List, [], ◌∷◌, if◌then◌else◌, arith,
}
use protoactor_cpp.Timer.{
  OncePhase, once_ended, CancelCall, not_called, returned, OnceTimer, Move, thread, cancel, ready,
  new_once, once_step, once_run, Phase, at_send, ended, RepeatedTimer, new_repeated, repeated_step,
  repeated_run,
}

abbrev is_once_ended : OncePhase → Bool
is_once_ended once_ended = true
is_once_ended _ = false

abbrev pub is_ended : Phase → Bool
is_ended ended = true
is_ended _ = false

abbrev pub is_returned : CancelCall → Bool
is_returned returned = true
is_returned _ = false

abbrev pub is_called : CancelCall → Bool
is_called not_called = false
is_called _ = true

-- Sent once at most, and only at the end; a call that has returned has seen the end.
abbrev OnceGood : OnceTimer → Type 0
OnceGood t =
    (t.sent ≤ (if is_once_ended t.phase then 1 else 0))
    × (is_returned t.call ≡ true → is_once_ended t.phase ≡ true)

once_step-OnceGood : (t : OnceTimer) (m : Move) → OnceGood t → OnceGood (once_step t m)
unfolding once_step
once_step-OnceGood t thread (few, seen) = (ground (arith, few, seen), λ e. ground (arith, seen, e))
once_step-OnceGood t cancel (few, seen) = (ground (arith, few), λ e. ground (arith, seen, e))
once_step-OnceGood t ready h = h

once_run-OnceGood : (t : OnceTimer) (ms : List Move) → OnceGood t → OnceGood (once_run t ms)
unfolding once_run
once_run-OnceGood t [] h = h
once_run-OnceGood t (m ∷ ms) h = once_run-OnceGood (once_step t m) ms (once_step-OnceGood t m h)

once_step_ended :
    (t : OnceTimer) (m : Move)
    → is_once_ended t.phase ≡ true
    → ((once_step t m).sent ≡ t.sent) × (is_once_ended (once_step t m).phase ≡ true)
unfolding once_step
once_step_ended t thread h = (ground (arith, h), ground (arith, h))
once_step_ended t cancel h = (ground (arith, h), ground (arith, h))
once_step_ended t ready h = (refl, h)

once_run_ended :
    (t : OnceTimer) (ms : List Move) → is_once_ended t.phase ≡ true → (once_run t ms).sent ≡ t.sent
unfolding once_run
once_run_ended t [] h = refl
once_run_ended t (m ∷ ms) h =
    let (same, still) = once_step_ended t m h in once_run_ended (once_step t m) ms still ∙ same

-- SendOnce and RequestOnce: in any interleaving the message is sent at most once, and after a cancel
-- call has returned it is not sent any more.
pub once_run_cancelled :
    (ms ns : List Move)
    → is_returned (once_run new_once ms).call ≡ true
    → ((once_run new_once ms).sent ≤ 1)
      × ((once_run (once_run new_once ms) ns).sent ≡ (once_run new_once ms).sent)
once_run_cancelled ms ns h =
    let start : OnceGood new_once = unfold new_once in (omega arith, λ e. ground (arith, e)) in
    let (few, seen) = once_run-OnceGood new_once ms start in
    (ground (arith, few), once_run_ended (once_run new_once ms) ns (seen h))

-- A cancel call that has begun has set the state; one that has returned has seen the end.
abbrev Good : RepeatedTimer → Type 0
Good t =
    (is_called t.call ≡ true → t.state ≡ 2) × (is_returned t.call ≡ true → is_ended t.phase ≡ true)

repeated_step-Good : (t : RepeatedTimer) (m : Move) → Good t → Good (repeated_step t m)
unfolding repeated_step
repeated_step-Good t thread (set, seen) =
    (λ e. ground (arith, set, e), λ e. ground (arith, seen, e))
repeated_step-Good t cancel (set, seen) =
    (λ e. ground (arith, set, e), λ e. ground (arith, seen, e))
repeated_step-Good t ready (set, seen) = (λ e. ground (arith, set, e), λ e. ground (arith, seen, e))

repeated_run-Good : (t : RepeatedTimer) (ms : List Move) → Good t → Good (repeated_run t ms)
unfolding repeated_run
repeated_run-Good t [] h = h
repeated_run-Good t (m ∷ ms) h = repeated_run-Good (repeated_step t m) ms (repeated_step-Good t m h)

-- The message that the thread has still to send whatever the state is.
abbrev in_flight : Phase → ℕ
in_flight at_send = 1
in_flight _ = 0

repeated_step_set :
    (t : RepeatedTimer) (m : Move)
    → t.state ≡ 2
    → ((repeated_step t m).sent + in_flight (repeated_step t m).phase ≤ t.sent + in_flight t.phase)
      × ((repeated_step t m).state ≡ 2)
unfolding repeated_step
repeated_step_set t thread h = (ground (arith, h), ground (arith, h))
repeated_step_set t cancel h = (ground (arith, h), ground (arith, h))
repeated_step_set t ready h = (ground (arith, h), ground (arith, h))

repeated_run_set :
    (t : RepeatedTimer) (ms : List Move)
    → t.state ≡ 2
    → (repeated_run t ms).sent ≤ t.sent + in_flight t.phase
unfolding repeated_run
repeated_run_set t [] h = omega arith
repeated_run_set t (m ∷ ms) h =
    let (less, still) = repeated_step_set t m h in
    omega (arith, less, repeated_run_set (repeated_step t m) ms still)

ends_soon :
    (t : RepeatedTimer)
    → t.state ≡ 2
    → is_ended (repeated_run t (thread ∷ thread ∷ thread ∷ [])).phase ≡ true
unfolding repeated_run repeated_step
ends_soon t h = ground (arith, h)

-- SendRepeatedly and RequestRepeatedly: once a cancel call has begun, in any interleaving, at most one
-- more message is sent, and three steps of the thread end it, so that the call can return; after it
-- has returned nothing is sent.
pub repeated_run_cancelled :
    (ms ns : List Move)
    → is_called (repeated_run new_repeated ms).call ≡ true
    → let t = repeated_run new_repeated ms in
      ((repeated_run t ns).sent ≤ t.sent + (if is_returned t.call then 0 else 1))
      × (is_ended (repeated_run t (thread ∷ thread ∷ thread ∷ [])).phase ≡ true)
repeated_run_cancelled ms ns h =
    let t = repeated_run new_repeated ms in
    let start : Good new_repeated =
      unfold new_repeated in (λ e. ground (arith, e), λ e. ground (arith, e)) in
    let (set, seen) = repeated_run-Good new_repeated ms start in
    (ground (arith, repeated_run_set t ns (set h), seen), ends_soon t (set h))
