-- ===== src/Supervision/Decisions.antt =====
-- What the strategies decide (supervision.cpp).
use protoactor_cpp.Base.{
  ℕ, ◌-◌, ◌/◌, ◌<◌, ◌≤◌, ◌≡◌, ◌↔◌, refl, true, false, Option, none, some, List, [], ◌∷◌, eqb,
  if◌then◌else◌, arith, All,
}
use protoactor_cpp.Pid.{Pid}
use protoactor_cpp.Supervision.{
  Directive, resume, restart, stop, escalate, RestartStatistics, new_statistics, reset, Action,
  resume_children, restart_children, stop_children, escalate_failure, Limits, outside_window,
  should_stop, one_for_one, all_for_one, Strategy, one_for_one_strategy, all_for_one_strategy,
  restarting_strategy, handle_failure,
}

-- The failures that count have used up the retries, and the last one is not too long ago.
pub record Exhausted (ticks : ℕ) (l : Limits) (now : ℕ) (rs : RestartStatistics) : Type 0 where
  pub failed : 0 < rs.failure_count
  pub recent : (now - rs.last_failure_time) / ticks ≤ l.within_duration
  pub used_up : l.max_retries ≤ rs.failure_count

-- A child is stopped in place of a restart exactly if its statistics are exhausted; without
-- statistics it never is. The statistics change only in one case: failures that are too long ago
-- are forgotten.
pub should_stop_iff :
    (ticks : ℕ) (l : Limits) (now : ℕ) (rs : RestartStatistics)
    → (((should_stop ticks l now (some rs)).1 ≡ true) ↔ Exhausted ticks l now rs)
      × ((should_stop ticks l now none).1 ≡ false)
      × ((should_stop ticks l now (some rs)).0 ≡ (
          if outside_window ticks l now rs
          then (if eqb rs.failure_count 0 then some rs else some new_statistics)
          else some rs))
unfolding should_stop reset new_statistics
should_stop_iff ticks l now rs = ((λ h. ground arith, λ h. ground arith), refl, ground arith)

-- What the strategy's decider says; the restarting strategy has none and always restarts.
abbrev pub decision : {Reason : Type 0} → Strategy Reason → Reason → Directive
decision (one_for_one_strategy l decider) reason = decider reason
decision (all_for_one_strategy l decider) reason = decider reason
decision restarting_strategy reason = restart

module _ {Reason Message : Type 0} (ticks : ℕ) where
  -- The action with other children in place of those that it restarts or stops.
  abbrev pub retarget : List Pid → Action Reason Message → Action Reason Message
  retarget ps (resume_children qs) = resume_children qs
  retarget ps (restart_children qs) = restart_children ps
  retarget ps (stop_children qs) = stop_children ps
  retarget ps (escalate_failure reason message) = escalate_failure reason message

  -- On every directive the two strategies decide alike and keep the same statistics; they differ
  -- in whom they restart or stop: the failing child, or all children of the supervisor.
  pub all_for_one-one_for_one :
      (l : Limits) (d : Directive) (now : ℕ) (children : List Pid) (child : Pid)
      (rs : Option RestartStatistics) (reason : Reason) (message : Message)
      → all_for_one ticks l d now children child rs reason message ≡ (
          let (rs', action) = one_for_one ticks l d now child rs reason message in
          (rs', retarget children action))
  unfolding all_for_one one_for_one
  all_for_one-one_for_one l resume now children child rs reason message = refl
  all_for_one-one_for_one l restart now children child rs reason message = ground arith
  all_for_one-one_for_one l stop now children child rs reason message = refl
  all_for_one-one_for_one l escalate now children child rs reason message = refl

  -- One failure after the other, at the given times, under one strategy with one child's
  -- statistics: as the code has it, with no call of Fail in between.
  unfoldable pub actions :
      Strategy Reason
      → List Pid
      → Pid
      → Option RestartStatistics
      → List (ℕ × Reason × Message)
      → List (Action Reason Message)
  actions s children child rs [] = []
  actions s children child rs ((now, reason, message) ∷ failures) =
      let (rs', action) = handle_failure ticks s now children child rs reason message in
      action ∷ actions s children child rs' failures

  abbrev pub IsRestart : Action Reason Message → Type 0
  IsRestart (restart_children ps) = Unit {0}
  IsRestart _ = ⊥

  restart_fresh :
      (s : Strategy Reason) (now : ℕ) (children : List Pid) (child : Pid) (reason : Reason)
      (message : Message)
      → ((r : Reason) → decision s r ≡ restart)
      → let (rs', action) =
          handle_failure ticks s now children child (some new_statistics) reason message in
        (rs' ≡ some new_statistics) × IsRestart action
  unfolding handle_failure new_statistics
  restart_fresh (one_for_one_strategy l d) now children child reason message all =
      ground (arith, all reason)
  restart_fresh (all_for_one_strategy l d) now children child reason message all =
      ground (arith, all reason)
  restart_fresh restarting_strategy now children child reason message all = (refl, tt)

  -- As nothing calls Fail, the retries are never used up: under every strategy whose decider says
  -- Restart, a child with fresh statistics is restarted for each of its failures, however many and
  -- however close together.
  pub always_restarted :
      (s : Strategy Reason) (children : List Pid) (child : Pid)
      (failures : List (ℕ × Reason × Message))
      → ((r : Reason) → decision s r ≡ restart)
      → All IsRestart (actions s children child (some new_statistics) failures)
  unfolding actions
  always_restarted s children child [] all = tt
  always_restarted s children child ((now, reason, message) ∷ failures) all =
      let (same, restarted) = restart_fresh s now children child reason message all in
      (restarted, rw same (always_restarted s children child failures all))
