-- ===== src/EndpointWatcher/Examples.antt =====
-- Two watchers of one remote address.
use protoactor_cpp.Base.{ℕ, ◌≡◌, Bool, true, false, ◌&&◌, Option, some, List, [], ◌∷◌, Bytes}
use protoactor_cpp.Pid.{Pid}
use protoactor_cpp.EndpointWatcher.{new_watcher, handle_endpoint_terminated}
use protoactor_cpp.EndpointWatcher.Watching.{Call, watch, unwatch, terminate, run, relation_after}
use protoactor_cpp.EndpointWatcher.Notices.{told, terminated_told}

abbrev named : ℕ → Option Pid
named n = some (record { address = []; id = n ∷ []; request_id = 0 })

-- 1 watches 7 and 8 and stops to watch 8; 2 watches 7, which then terminates.
abbrev calls : List Call
calls =
    watch (named 1) (named 7)
    ∷ watch (named 1) (named 8)
    ∷ watch (named 2) (named 7)
    ∷ unwatch (named 1) (named 8)
    ∷ terminate (named 2) (named 7)
    ∷ []

abbrev everybody : Bytes → Bool
everybody name = true

terminated_told_example :
    let s = handle_endpoint_terminated everybody (run everybody new_watcher calls) in
    (told (1 ∷ []) (7 ∷ []) s.sent
      ≡ (everybody (1 ∷ []) && relation_after (λ other i. false) calls (1 ∷ []) (7 ∷ [])))
    × (s.watched ≡ [])
terminated_told_example = terminated_told everybody calls (1 ∷ []) (7 ∷ [])
