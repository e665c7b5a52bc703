-- ===== src/EndpointManager/Examples.antt =====
-- A manager that watches and delivers before and after Stop.
use protoactor_cpp.Base.{ℕ, ◌≡◌, Bool, true, false, none, some, List, [], ◌∷◌, Bytes}
use protoactor_cpp.Pid.{Pid}
use protoactor_cpp.EndpointManager.{endpoint_connected, endpoint_terminated, new_manager}
use protoactor_cpp.EndpointManager.Calls.{
  Call, starts, stops, event, delivers, watches, terminates, run, answers,
}
use protoactor_cpp.EndpointManager.Answers.{run-answers}

abbrev watcher : Pid
watcher = record { address = []; id = 1 ∷ []; request_id = 0 }

abbrev remote : Pid
remote = record { address = 9 ∷ []; id = 2 ∷ []; request_id = 0 }

abbrev calls : List (Call ℕ)
calls =
    starts 4 (some remote)
    ∷ watches watcher (some remote)
    ∷ delivers (some remote) 7 none
    ∷ event (endpoint_connected (8 ∷ []))
    ∷ event (endpoint_terminated (9 ∷ []))
    ∷ []

abbrev ended : List (Call ℕ)
ended =
    watches watcher (some remote)
    ∷ stops
    ∷ watches watcher (some remote)
    ∷ terminates watcher (some remote)
    ∷ []

abbrev everybody : Bytes → Bool
everybody name = true

run-answers_example : (run everybody new_manager ended).sent ≡ answers everybody false ended
run-answers_example = run-answers everybody ended
