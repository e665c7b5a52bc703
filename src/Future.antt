-- ===== src/Future.antt =====
-- src/actor/future.cpp: FutureImpl once it is constructed. Its mutex is a std::mutex, so a thread
-- that locks it while it holds it waits for itself for ever; so does each thread that comes later.
-- `R` is what result_ points to and `F` a continuation.
pub mod Completion
mod Examples
use protoactor_cpp.Base.{
  ℕ, Bool, true, false, Option, none, some, List, [], ◌∷◌, ◌++◌, map, if◌then◌else◌,
}
use protoactor_cpp.Messages.{Ref, Msg, unwrap_envelope}

-- err_: no error, or one of the two error codes that are stored.
pub data ErrorCode : Type 0 where
  success timed_out host_unreachable : ErrorCode

-- What a future does to others: the PID is taken out of the registry, a message to a pipe (with the
-- error in its place, if there is one), the call of a continuation.
pub data Effect (P F : Type 0) : Type 0 where
  remove : Option Ref → Effect P F
  pipe_message : Ref → Option (Msg P) → ErrorCode → Effect P F
  completion : F → Option (Msg P) → ErrorCode → Effect P F

pub record Future (P F : Type 0) : Type 0 where
  pub pid : Ref
  -- Whether a thread holds mutex_.
  pub locked : Bool
  pub done : Bool
  pub result : Option (Msg P)
  pub err : ErrorCode
  pub pipes : List Ref
  pub completions : List F
  pub log : List (Effect P F)

-- How a call ends: with a value, or never, with the future as the waiting thread leaves it.
pub data Outcome (P F A : Type 0) : Type 0 where
  returned : Future P F → A → Outcome P F A
  blocked : Future P F → Outcome P F A

module _ {P F : Type 0} where
  unfoldable pub new_future : Ref → Future P F
  new_future pid = record {
    pid = pid;
    locked = false;
    done = false;
    result = none;
    err = success;
    pipes = [];
    completions = [];
    log = [];
  }

  abbrev unlocked : {A : Type 0} → Outcome P F A → Outcome P F A
  unlocked (returned s a) = returned (record s { locked = false }) a
  unlocked (blocked s) = blocked s

  -- A lock_guard around the rest of the function.
  abbrev pub guarded : {A : Type 0} → Future P F → (Future P F → Outcome P F A) → Outcome P F A
  guarded s body =
      let inside = body (record s { locked = true }) in
      if s.locked then blocked s else unlocked inside

  unfoldable pub send_to_pipes : Future P F → Future P F
  send_to_pipes s = record s {
    log = s.log ++ map (λ pid. pipe_message pid s.result s.err) s.pipes;
    pipes = [];
  }

  unfoldable pub run_completions : Future P F → Future P F
  run_completions s = record s {
    log = s.log ++ map (λ f. completion f s.result s.err) s.completions;
    completions = [];
  }

  -- The part of Stop under its lock.
  unfoldable pub finish : Option Ref → Future P F → Future P F
  finish pid s =
      if s.done
      then s
      else run_completions
          (send_to_pipes (record s { done = true; log = s.log ++ remove pid ∷ [] }))

  unfoldable pub stop : Option Ref → Future P F → Outcome P F Unit
  stop pid s = guarded s (λ s1. returned (finish pid s1) tt)

  unfoldable pub pipe_to : List Ref → Future P F → Outcome P F Unit
  pipe_to pids s = guarded s (λ s1.
      let s2 = record s1 { pipes = s1.pipes ++ pids } in
      returned (if s2.done then send_to_pipes s2 else s2) tt)

  -- Result; the wait on the condition variable gives the lock back.
  unfoldable pub result_of : Future P F → Outcome P F (Option (Msg P) × ErrorCode)
  result_of s =
      if s.locked then blocked s else (if s.done then returned s (s.result, s.err) else blocked s)

  unfoldable pub continue_with : F → Future P F → Outcome P F Unit
  continue_with f s = guarded s (λ s1.
      returned
        (if s1.done
          then record s1 { log = s1.log ++ completion f s1.result s1.err ∷ [] }
          else record s1 { completions = s1.completions ++ f ∷ [] })
        tt)

  -- result_ and err_ for a user message.
  unfoldable pub settle : Option (Msg P) → Future P F → Future P F
  settle none s = record s { result = none; err = success }
  settle (some m) s = record s { result = none; err = host_unreachable }

  unfoldable pub send_user_message : Option Ref → Option (Msg P) → Future P F → Outcome P F Unit
  send_user_message pid m s = guarded s (λ s1.
      let stopped = stop pid (settle (unwrap_envelope m).1 s1) in
      if s1.done then returned s1 tt else stopped)

  unfoldable pub send_system_message : Option Ref → Option (Msg P) → Future P F → Outcome P F Unit
  send_system_message pid m s = guarded s (λ s1.
      let stopped = stop pid (record s1 { result = m; err = success }) in
      if s1.done then returned s1 tt else stopped)

  -- The thread of the timeout, once it has slept.
  unfoldable pub time_out : Future P F → Outcome P F Unit
  time_out s = guarded s (λ s1.
      let stopped = stop (some s1.pid) (record s1 { err = timed_out; done = true }) in
      if s1.done then returned s1 tt else stopped)
