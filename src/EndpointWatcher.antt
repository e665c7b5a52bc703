-- ===== src/EndpointWatcher.antt =====
-- src/remote/endpoint_watcher.cpp: EndpointWatcher, which keeps who watches whom at one remote
-- address. `local` says whether the registry has a process of that name, which GetLocal finds.
pub mod Watching
pub mod Notices
mod Examples
use protoactor_cpp.Base.{
  ℕ, Bool, true, false, not, Option, none, some, List, [], ◌∷◌, ◌++◌, map, Bytes, bytes_eq,
  bytes_beq, lookup, insert, erase, any, keep, if◌then◌else◌,
}
use protoactor_cpp.Pid.{Pid}
use protoactor_cpp.Messages.{TerminatedReason, stopped_reason, address_terminated}

-- What the watcher sends: Watch and Unwatch to a remote PID, and Terminated to a local watcher, by
-- its name. context->Stop(self) is the last.
pub data Sent : Type 0 where
  remote_watch : Pid → Pid → Sent
  remote_unwatch : Pid → Pid → Sent
  terminated_to : Bytes → Pid → TerminatedReason → Sent
  stops_self : Sent

-- watched_, from the name of a watcher to what it watches. Its PIDs are never null.
pub record EndpointWatcher : Type 0 where
  pub watched : List (Bytes × List Pid)
  pub sent : List Sent

abbrev pub watchees_or_nil : Option (List Pid) → List Pid
watchees_or_nil none = []
watchees_or_nil (some ps) = ps

abbrev pub has_id : Bytes → List Pid → Bool
has_id id = any (λ p. bytes_beq p.id id)

unfoldable pub new_watcher : EndpointWatcher
new_watcher = record { watched = []; sent = [] }

-- The watcher and the watchee of a message; a null pointer is `none`.
unfoldable pub handle_remote_watch : EndpointWatcher → Option Pid → Option Pid → EndpointWatcher
handle_remote_watch s (some watcher) (some watchee) =
    let watchees = watchees_or_nil (lookup watcher.id s.watched) in
    record {
      watched =
          insert watcher.id
            (if has_id watchee.id watchees then watchees else watchees ++ watchee ∷ []) s.watched;
      sent = s.sent ++ remote_watch watchee watcher ∷ [];
    }
handle_remote_watch s _ _ = s

abbrev kept : Bytes → Bytes → List Pid → List (Bytes × List Pid) → List (Bytes × List Pid)
kept watcher watchee [] watched = erase watcher watched
kept watcher watchee (p ∷ ps) watched = insert watcher (p ∷ ps) watched

abbrev without_id : Bytes → List Pid → List Pid
without_id id = keep (λ p. not (bytes_beq p.id id))

-- The erase of HandleRemoteUnwatch and HandleRemoteTerminate.
unfoldable pub forget : Bytes → Bytes → List (Bytes × List Pid) → List (Bytes × List Pid)
forget watcher watchee watched = elim (lookup watcher watched) [
  | none ↦ watched
  | some watchees ↦ kept watcher watchee (without_id watchee watchees) watched
]

unfoldable pub handle_remote_unwatch : EndpointWatcher → Option Pid → Option Pid → EndpointWatcher
unfolding forget
handle_remote_unwatch s (some watcher) (some watchee) = record {
  watched = forget watcher.id watchee.id s.watched;
  sent = s.sent ++ remote_unwatch watchee watcher ∷ [];
}
handle_remote_unwatch s _ _ = s

unfoldable pub handle_remote_terminate :
    (Bytes → Bool) → EndpointWatcher → Option Pid → Option Pid → EndpointWatcher
unfolding forget
handle_remote_terminate local s (some watcher) (some watchee) = record {
  watched = forget watcher.id watchee.id s.watched;
  sent =
      if local watcher.id
      then s.sent ++ terminated_to watcher.id watchee stopped_reason ∷ []
      else s.sent;
}
handle_remote_terminate local s _ _ = s

-- The two loops of HandleEndpointTerminated.
unfoldable pub notices : (Bytes → Bool) → List (Bytes × List Pid) → List Sent
notices local [] = []
notices local (entry ∷ rest) =
    let later = notices local rest in
    if local entry.0
    then map (λ p. terminated_to entry.0 p address_terminated) entry.1 ++ later
    else later

unfoldable pub handle_endpoint_terminated : (Bytes → Bool) → EndpointWatcher → EndpointWatcher
unfolding notices
handle_endpoint_terminated local s = record {
  watched = [];
  sent = s.sent ++ (notices local s.watched ++ stops_self ∷ []);
}
