-- ===== src/Timer.antt =====
-- src/scheduler/timer.cpp: the timers of TimerScheduler, as the steps of the timer's thread and of the
-- call of its cancel function, interleaved in any way. A message that is sent, by Send or by Request,
-- is counted; a sleep ends at some later step of the thread. One call of the cancel function is
-- modelled: a second one, which returns without a join, is not.
pub mod Cancelling
mod Examples
use protoactor_cpp.Base.{
  ℕ, suc, ◌+◌, Bool, true, false, not, ◌&&◌, List, [], ◌∷◌, eqb, if◌then◌else◌,
}

-- The thread of SendOnce and RequestOnce: before it loads `cancelled`, between that and the message,
-- and after.
pub data OncePhase : Type 0 where
  sleeping about_to_send once_ended : OncePhase

-- A cancel call that has stored its flag and is in join, or has returned.
pub data CancelCall : Type 0 where
  not_called exchanged joining returned : CancelCall

pub record OnceTimer : Type 0 where
  pub cancelled : Bool
  pub phase : OncePhase
  pub call : CancelCall
  pub sent : ℕ

pub data Move : Type 0 where
  -- The thread, and the cancel call: its next step.
  thread cancel : Move
  -- The store that makes a repeated timer ready.
  ready : Move

unfoldable pub new_once : OnceTimer
new_once = record { cancelled = false; phase = sleeping; call = not_called; sent = 0 }

abbrev after_load : Bool → OncePhase
after_load true = once_ended
after_load false = about_to_send

abbrev once_thread : OnceTimer → OncePhase → OnceTimer
once_thread t sleeping = record t { phase = after_load t.cancelled }
once_thread t about_to_send = record t { phase = once_ended; sent = t.sent + 1 }
once_thread t once_ended = t

-- join returns when the thread has ended.
abbrev once_cancel : OnceTimer → CancelCall → OncePhase → OnceTimer
once_cancel t not_called phase = record t { cancelled = true; call = joining }
once_cancel t joining once_ended = record t { call = returned }
once_cancel t call phase = t

unfoldable pub once_step : OnceTimer → Move → OnceTimer
once_step t thread = once_thread t t.phase
once_step t cancel = once_cancel t t.call t.phase
once_step t ready = t

unfoldable pub once_run : OnceTimer → List Move → OnceTimer
unfolding once_step
once_run t [] = t
once_run t (m ∷ ms) = once_run (once_step t m) ms

-- The thread of SendRepeatedly and RequestRepeatedly: it waits for `state` to be other than 0, tests
-- it, sleeps, and then loops: it loads `cancelled`, loads `state`, sends and sleeps.
pub data Phase : Type 0 where
  waiting tests_ready initial_sleep at_cancelled at_state at_send ended : Phase

pub record RepeatedTimer : Type 0 where
  pub cancelled : Bool
  pub state : ℕ
  pub phase : Phase
  pub call : CancelCall
  pub sent : ℕ

unfoldable pub new_repeated : RepeatedTimer
new_repeated = record { cancelled = false; state = 0; phase = waiting; call = not_called; sent = 0 }

abbrev repeated_thread : RepeatedTimer → Phase → RepeatedTimer
repeated_thread t waiting = record t { phase = if eqb t.state 0 then waiting else tests_ready }
repeated_thread t tests_ready = record t { phase = if eqb t.state 2 then ended else initial_sleep }
repeated_thread t initial_sleep = record t { phase = at_cancelled }
repeated_thread t at_cancelled = record t { phase = if t.cancelled then ended else at_state }
repeated_thread t at_state = record t { phase = if eqb t.state 2 then ended else at_send }
repeated_thread t at_send = record t { phase = at_cancelled; sent = t.sent + 1 }
repeated_thread t ended = t

-- The exchange of `state`, the store of `cancelled`, the join. The timer is handed out ready, so that
-- no cancel call comes before.
abbrev repeated_cancel : RepeatedTimer → CancelCall → Phase → RepeatedTimer
repeated_cancel t not_called phase =
    if eqb t.state 1 then record t { state = 2; call = exchanged } else t
repeated_cancel t exchanged phase = record t { cancelled = true; call = joining }
repeated_cancel t joining ended = record t { call = returned }
repeated_cancel t call phase = t

unfoldable pub repeated_step : RepeatedTimer → Move → RepeatedTimer
repeated_step t thread = repeated_thread t t.phase
repeated_step t cancel = repeated_cancel t t.call t.phase
repeated_step t ready = if eqb t.state 0 then record t { state = 1 } else t

unfoldable pub repeated_run : RepeatedTimer → List Move → RepeatedTimer
unfolding repeated_step
repeated_run t [] = t
repeated_run t (m ∷ ms) = repeated_run (repeated_step t m) ms
