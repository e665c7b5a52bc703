-- ===== src/Supervision/Examples.antt =====
-- The strategies on concrete failures.
use protoactor_cpp.Base.{◌≡◌, ◌↔◌, true, false, none, some, [], ◌∷◌, eqb, if◌then◌else◌}
use protoactor_cpp.Pid.{Pid}
use protoactor_cpp.Supervision.{
  Limits, RestartStatistics, new_statistics, outside_window, should_stop,
}
use protoactor_cpp.Supervision.Decisions.{Exhausted, should_stop_iff}

abbrev limits : Limits
limits = record { max_retries = 3; within_duration = 1000 }

abbrev failed_often : RestartStatistics
failed_often = record { failure_count = 4; last_failure_time = 5000 }

abbrev child : Pid
child = record { address = []; id = 1 ∷ []; request_id = 0 }

abbrev brother : Pid
brother = record { address = []; id = 2 ∷ []; request_id = 0 }

should_stop_iff_example :
    (((should_stop 1000 limits 6000 (some failed_often)).1 ≡ true)
      ↔ Exhausted 1000 limits 6000 failed_often)
    × ((should_stop 1000 limits 6000 none).1 ≡ false)
    × ((should_stop 1000 limits 6000 (some failed_often)).0 ≡ (
        if outside_window 1000 limits 6000 failed_often
        then (if eqb failed_often.failure_count 0 then some failed_often else some new_statistics)
        else some failed_often))
should_stop_iff_example = should_stop_iff 1000 limits 6000 failed_often
