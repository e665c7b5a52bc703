-- ===== src/Context/Timers.antt =====
-- src/actor/actor_context.cpp: the receive timeout and its timer, in milliseconds (a negative
-- timeout counts as 0, as each below 1 does).
use protoactor_cpp.Base.{
  ℕ, suc, ◌≡◌, Bool, false, Option, none, some, List, [], ◌∷◌, ltb, eqb, if◌then◌else◌, is_some,
  has, nat_eq, not, ◌&&◌, ◌<◌, All,
}
use protoactor_cpp.Messages.{Msg}
use protoactor_cpp.Context.{
  Effect, start_timer, cancel_timer, Extras, Context, emit, ensure_extras, send,
}

module _ {A P : Type 0} where
  -- The timer of the extras is cancelled and forgotten, if there is one.
  unfoldable pub cancel_current : Context A P → Context A P
  cancel_current c =
      let x = ensure_extras c in
      elim x.receive_timeout_timer [
        | none ↦ c
        | some k ↦ record (emit c (cancel_timer k)) {
          extras = some (record x { receive_timeout_timer = none });
        }
      ]

  unfoldable pub start_new : Context A P → ℕ → Context A P
  start_new c timeout = record (emit c (start_timer c.timers timeout)) {
    extras = some (record (ensure_extras c) { receive_timeout_timer = some c.timers });
    timers = suc c.timers;
  }

  unfoldable pub set_receive_timeout : Context A P → ℕ → Context A P
  set_receive_timeout c timeout =
      if eqb timeout c.receive_timeout
      then c
      else (let c1 =
            cancel_current
              (record c { receive_timeout = timeout; extras = some (ensure_extras c) }) in
          if ltb 0 timeout then start_new c1 timeout else c1)

  unfoldable pub cancel_receive_timeout : Context A P → Context A P
  cancel_receive_timeout c = elim c.extras [
    | none ↦ c
    | some x ↦ record (cancel_current c) { receive_timeout = 0 }
  ]

  -- Nothing in the program calls it.
  unfoldable pub receive_timeout_handler : Context A P → Context A P
  receive_timeout_handler c =
      if ltb 0 c.receive_timeout
      then send (cancel_receive_timeout c) c.self (some Msg.receive_timeout)
      else c

-- The timers that the log shows as started and not cancelled, newest first.
abbrev pub remove_timer : ℕ → List ℕ → List ℕ
remove_timer k [] = []
remove_timer k (j ∷ js) = let rest = remove_timer k js in if eqb j k then rest else j ∷ rest

module _ {P : Type 0} where
  abbrev pub armed : List ℕ → List (Effect P) → List ℕ
  armed live [] = live
  armed live (start_timer k t ∷ es) = armed (k ∷ live) es
  armed live (cancel_timer k ∷ es) = armed (remove_timer k live) es
  armed live (_ ∷ es) = armed live es

  abbrev pub current : Option (Extras P) → List ℕ
  current none = []
  current (some x) = elim x.receive_timeout_timer [ none ↦ [] | some k ↦ k ∷ [] ]

  abbrev pub has_timer : Option (Extras P) → Bool
  has_timer none = false
  has_timer (some x) = is_some x.receive_timeout_timer

-- The context and the timers whose threads have sent ReceiveTimeout, through the root context.
pub record Timing (A P : Type 0) : Type 0 where
  pub context : Context A P
  pub expired : List ℕ

-- The calls, and the end of the sleep of the timer with this number.
pub data TimerCall : Type 0 where
  sets : ℕ → TimerCall
  cancels : TimerCall
  expires : ℕ → TimerCall

module _ {A P : Type 0} where
  -- The one timer that was started and not cancelled is the one that the context will cancel; it
  -- is there exactly if the timeout is set.
  pub record OneTimer (c : Context A P) : Type 0 where
    pub armed_is_current : armed [] c.log ≡ current c.extras
    pub set_iff : ltb 0 c.receive_timeout ≡ has_timer c.extras
    pub older : All (λ k. k < c.timers) (current c.extras)

  -- The thread of a timer (scheduler/timer.cpp): after the sleep it sends and ends, unless the timer
  -- was cancelled.
  unfoldable pub expire : Timing A P → ℕ → Timing A P
  expire t k =
      if has k (armed [] t.context.log) && not (has k t.expired)
      then record t { expired = k ∷ t.expired }
      else t

  unfoldable pub timer_call : Timing A P → TimerCall → Timing A P
  timer_call t (sets timeout) = record t { context = set_receive_timeout t.context timeout }
  timer_call t cancels = record t { context = cancel_receive_timeout t.context }
  timer_call t (expires k) = expire t k

  unfoldable pub timer_run : Timing A P → List TimerCall → Timing A P
  timer_run t [] = t
  timer_run t (call ∷ calls) = timer_run (timer_call t call) calls

  -- The timers whose threads have sent are older than the next one.
  abbrev pub ExpiredOlder : Timing A P → Type 0
  ExpiredOlder t = All (λ k. k < t.context.timers) t.expired
