-- ===== src/Timer/Examples.antt =====
-- A timer that sends once, and one that is cancelled as it sends.
use protoactor_cpp.Base.{◌+◌, ◌≤◌, ◌≡◌, refl, true, List, [], ◌∷◌, if◌then◌else◌}
use protoactor_cpp.Timer.{
  Move, thread, cancel, ready, new_once, once_step, once_run, new_repeated, repeated_step,
  repeated_run,
}
use protoactor_cpp.Timer.Cancelling.{is_returned, is_called, is_ended, repeated_run_cancelled}

abbrev moves : List Move
moves = thread ∷ cancel ∷ thread ∷ cancel ∷ []

once_returned : is_returned (once_run new_once moves).call ≡ true
unfolding once_run once_step new_once
once_returned = refl

-- The thread has passed both tests when the cancel call begins.
abbrev as_it_sends : List Move
as_it_sends = ready ∷ thread ∷ thread ∷ thread ∷ thread ∷ thread ∷ cancel ∷ []

repeated_called : is_called (repeated_run new_repeated as_it_sends).call ≡ true
unfolding repeated_run repeated_step new_repeated
repeated_called = refl

repeated_run_cancelled_example :
    let t = repeated_run new_repeated as_it_sends in
    ((repeated_run t (thread ∷ thread ∷ [])).sent ≤ t.sent + (if is_returned t.call then 0 else 1))
    × (is_ended (repeated_run t (thread ∷ thread ∷ thread ∷ [])).phase ≡ true)
repeated_run_cancelled_example =
    repeated_run_cancelled as_it_sends (thread ∷ thread ∷ []) repeated_called
