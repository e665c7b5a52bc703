-- ===== src/Future/Completion.antt =====
-- Whether a future can be waited for (future.cpp).
use protoactor_cpp.Base.{
  ◌≡◌, refl, Bool, true, false, Option, none, some, List, [], ◌∷◌, ◌++◌, map, if◌then◌else◌, arith,
}
use protoactor_cpp.Messages.{Ref, Msg, unwrap_envelope}
use protoactor_cpp.Future.{
  remove, pipe_message, completion, Future, Outcome, returned, blocked, new_future, stop, finish,
  pipe_to, result_of, continue_with, send_user_message, send_system_message, time_out, settle,
  send_to_pipes, run_completions,
}

-- The calls that others make on a future, each from a thread of its own.
pub data Call (P F : Type 0) : Type 0 where
  user_message : Option Ref → Option (Msg P) → Call P F
  system_message : Option Ref → Option (Msg P) → Call P F
  timeout : Call P F
  pipes_to : List Ref → Call P F
  continues_with : F → Call P F

module _ {P F : Type 0} where
  -- The future as a call leaves it, whether the call returns or waits.
  abbrev pub left_by : {A : Type 0} → Outcome P F A → Future P F
  left_by (returned s a) = s
  left_by (blocked s) = s

  unfoldable pub call : Call P F → Future P F → Outcome P F Unit
  call (user_message pid m) s = send_user_message pid m s
  call (system_message pid m) s = send_system_message pid m s
  call timeout s = time_out s
  call (pipes_to pids) s = pipe_to pids s
  call (continues_with f) s = continue_with f s

  unfoldable pub after_calls : List (Call P F) → Future P F → Future P F
  after_calls [] s = s
  after_calls (c ∷ cs) s = after_calls cs (left_by (call c s))

  -- Not done, or locked for good.
  abbrev unanswered : Future P F → Bool
  unanswered s = if s.locked then true else (if s.done then false else true)

  settle_keeps :
      (m : Option (Msg P)) (s : Future P F)
      → ((settle m s).locked ≡ s.locked) × ((settle m s).done ≡ s.done)
  unfolding settle
  settle_keeps none s = (refl, refl)
  settle_keeps (some m) s = (refl, refl)

  call-unanswered :
      (c : Call P F) (s : Future P F) → unanswered s ≡ true → unanswered (left_by (call c s)) ≡ true
  unfolding call send_user_message send_system_message time_out pipe_to continue_with stop
  call-unanswered (user_message pid m) s h =
      ground (arith, settle_keeps (unwrap_envelope m).1 (record s { locked = true }))
  call-unanswered (system_message pid m) s h = ground arith
  call-unanswered timeout s h = ground arith
  call-unanswered (pipes_to pids) s h = ground arith
  call-unanswered (continues_with f) s h = ground arith

  after_calls-unanswered :
      (cs : List (Call P F)) (s : Future P F)
      → unanswered s ≡ true
      → unanswered (after_calls cs s) ≡ true
  unfolding after_calls
  after_calls-unanswered [] s h = h
  after_calls-unanswered (c ∷ cs) s h =
      after_calls-unanswered cs (left_by (call c s)) (call-unanswered c s h)

  result_of-unanswered : (s : Future P F) → unanswered s ≡ true → result_of s ≡ blocked s
  unfolding result_of
  result_of-unanswered s h = ground arith

  -- Whatever a new future is sent, and also if its timeout passes: Result never returns.
  pub result_never_returns :
      (pid : Ref) (cs : List (Call P F))
      → result_of (after_calls cs (new_future pid)) ≡ blocked (after_calls cs (new_future pid))
  unfolding new_future
  result_never_returns pid cs =
      result_of-unanswered (after_calls cs (new_future pid))
        (after_calls-unanswered cs (new_future pid) refl)

  -- Stop on a future that no thread holds and that is not done: it returns, every pipe and every
  -- continuation is called once with what the future holds, in the order they came, a continuation
  -- that comes later is called too, Result returns, and another Stop changes nothing.
  pub stop_answers :
      (s : Future P F) (pid : Option Ref) (f : F)
      → s.locked ≡ false
      → s.done ≡ false
      → let later = left_by (continue_with f (left_by (stop pid s))) in
        (result_of later ≡ returned later (s.result, s.err))
        × (later.log
            ≡ (((s.log ++ remove pid ∷ []) ++ map (λ q. pipe_message q s.result s.err) s.pipes)
                ++ map (λ g. completion g s.result s.err) s.completions)
              ++ completion f s.result s.err ∷ [])
        × (stop pid later ≡ returned later tt)
  unfolding result_of continue_with stop finish send_to_pipes run_completions
  stop_answers s pid f free undone = ground (arith, free, undone)
