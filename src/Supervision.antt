-- ===== src/Supervision.antt =====
-- src/actor/supervision.cpp: restart statistics and the three strategies. `Reason` and `Message`
-- are the pointers that are passed on. Times are ticks of the system clock, `ticks` to the
-- millisecond; `time_point::min()` is 0, which nothing reads while failure_count is 0.
pub mod Decisions
mod Examples
use protoactor_cpp.Base.{
  ℕ, suc, ◌+◌, ◌-◌, ◌/◌, ◌<◌, Bool, true, false, Option, none, some, List, [], ◌∷◌, ltb, leb, eqb,
  if◌then◌else◌,
}
use protoactor_cpp.Pid.{Pid}

pub data Directive : Type 0 where
  resume restart stop escalate : Directive

pub record RestartStatistics : Type 0 where
  pub failure_count : ℕ
  pub last_failure_time : ℕ

unfoldable pub new_statistics : RestartStatistics
new_statistics = record { failure_count = 0; last_failure_time = 0 }

unfoldable pub reset : RestartStatistics → RestartStatistics
reset rs = record { failure_count = 0; last_failure_time = 0 }

unfoldable pub fail : ℕ → RestartStatistics → RestartStatistics
fail now rs = record { failure_count = suc rs.failure_count; last_failure_time = now }

-- The call that a strategy makes on its Supervisor.
pub data Action (Reason Message : Type 0) : Type 0 where
  resume_children : List Pid → Action Reason Message
  restart_children : List Pid → Action Reason Message
  stop_children : List Pid → Action Reason Message
  escalate_failure : Reason → Message → Action Reason Message

-- The fields of OneForOneStrategyImpl and AllForOneStrategyImpl.
pub record Limits : Type 0 where
  pub max_retries : ℕ
  pub within_duration : ℕ

-- elapsed > within_duration_, in whole milliseconds; a clock that went back gives no elapsed time.
abbrev pub outside_window : ℕ → Limits → ℕ → RestartStatistics → Bool
outside_window ticks l now rs = ltb l.within_duration ((now - rs.last_failure_time) / ticks)

-- ShouldStop, which may reset the statistics that it is given.
unfoldable pub should_stop :
    ℕ → Limits → ℕ → Option RestartStatistics → Option RestartStatistics × Bool
unfolding reset
should_stop ticks l now none = (none, false)
should_stop ticks l now (some rs) =
    if eqb rs.failure_count 0
    then (some rs, false)
    else (if outside_window ticks l now rs
        then (some (reset rs), false)
        else (some rs, leb l.max_retries rs.failure_count))

module _ {Reason Message : Type 0} (ticks : ℕ) where
  -- The Restart branch: `targets` are restarted, or stopped once the retries are used up.
  unfoldable pub restart_or_stop :
      Limits
      → ℕ
      → List Pid
      → Option RestartStatistics
      → Option RestartStatistics × Action Reason Message
  unfolding should_stop
  restart_or_stop l now targets rs =
      let (rs', stops) = should_stop ticks l now rs in
      if stops then (rs', stop_children targets) else (rs', restart_children targets)

  unfoldable pub one_for_one :
      Limits
      → Directive
      → ℕ
      → Pid
      → Option RestartStatistics
      → Reason
      → Message
      → Option RestartStatistics × Action Reason Message
  unfolding restart_or_stop
  one_for_one l resume now child rs reason message = (rs, resume_children (child ∷ []))
  one_for_one l restart now child rs reason message = restart_or_stop l now (child ∷ []) rs
  one_for_one l stop now child rs reason message = (rs, stop_children (child ∷ []))
  one_for_one l escalate now child rs reason message = (rs, escalate_failure reason message)

  unfoldable pub all_for_one :
      Limits
      → Directive
      → ℕ
      → List Pid
      → Pid
      → Option RestartStatistics
      → Reason
      → Message
      → Option RestartStatistics × Action Reason Message
  unfolding restart_or_stop
  all_for_one l resume now children child rs reason message = (rs, resume_children (child ∷ []))
  all_for_one l restart now children child rs reason message = restart_or_stop l now children rs
  all_for_one l stop now children child rs reason message = (rs, stop_children children)
  all_for_one l escalate now children child rs reason message =
      (rs, escalate_failure reason message)

pub data Strategy (Reason : Type 0) : Type 0 where
  one_for_one_strategy : Limits → (Reason → Directive) → Strategy Reason
  all_for_one_strategy : Limits → (Reason → Directive) → Strategy Reason
  restarting_strategy : Strategy Reason

-- SupervisorStrategy::HandleFailure. `children` is what `supervisor->Children()` gives.
unfoldable pub handle_failure :
    {Reason Message : Type 0}
    → ℕ
    → Strategy Reason
    → ℕ
    → List Pid
    → Pid
    → Option RestartStatistics
    → Reason
    → Message
    → Option RestartStatistics × Action Reason Message
unfolding one_for_one all_for_one
handle_failure ticks (one_for_one_strategy l decider) now children child rs reason message =
    one_for_one ticks l (decider reason) now child rs reason message
handle_failure ticks (all_for_one_strategy l decider) now children child rs reason message =
    all_for_one ticks l (decider reason) now children child rs reason message
handle_failure ticks restarting_strategy now children child rs reason message =
    (rs, restart_children (child ∷ []))

unfoldable pub default_decider : {Reason : Type 0} → Reason → Directive
default_decider reason = restart

unfoldable pub default_strategy : {Reason : Type 0} → Strategy Reason
default_strategy =
    one_for_one_strategy (record { max_retries = 10; within_duration = 10000 }) default_decider
