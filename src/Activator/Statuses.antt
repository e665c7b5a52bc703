-- ===== src/Activator/Statuses.antt =====
-- What HandleActorPidRequest would answer, if Receive called it (activator_actor.cpp).
use protoactor_cpp.Base.{
  ℕ, ◌≡◌, Bool, true, false, none, some, List, [], ◌∷◌, ◌++◌, Bytes, bytes_eq, lookup,
  if◌then◌else◌, arith,
}
use protoactor_cpp.Pid.{Pid, new_pid}
use protoactor_cpp.Registry.{get_local}
use protoactor_cpp.Registry.Ids.{codes}
use protoactor_cpp.Spawn.{World, Spawned, spawn_named, below}
use protoactor_cpp.Spawn.Names.{spawn_named_cases}
use protoactor_cpp.Activator.{
  ActorPidRequest, Handled, error_response, respond, spawn_request, handle_actor_pid_request,
}

module _ {P : Type 0} where
  -- What a request for a new actor leaves, given whether its name is taken.
  abbrev Answered : World P → P → Bytes → Bool → Handled P → Type 0
  Answered w process name taken (w', response, throws) =
      (throws ≡ taken)
      × (response ≡ (
          if taken
          then error_response
          else record { pid = some (new_pid w.registry.address name); status_code = 0 }))
      × (w'.started ≡ (if taken then w.started else w.started ++ process ∷ []))

  respond_lem :
      (w : World P) (process : P) (name : Bytes) (taken : Bool) (s : Spawned P)
      → s.2 ≡ taken
      → s.1 ≡ new_pid w.registry.address name
      → s.0.started ≡ (if taken then w.started else w.started ++ process ∷ [])
      → Answered w process name taken (respond s)
  respond_lem w process name true s err pid started =
      (ground (arith, err), ground (arith, err), ground (arith, err, started))
  respond_lem w process name false s err pid started =
      (ground (arith, err), ground (arith, err, pid), ground (arith, err, started))

module _ {A P : Type 0} where
  known_kind :
      (self : Pid) (kinds : List (Bytes × A)) (make : A → P) (w : World P)
      (request : ActorPidRequest) (props : A)
      → lookup request.kind kinds ≡ some props
      → handle_actor_pid_request self kinds make w request
        ≡ spawn_request self w (make props) request.name
  unfolding handle_actor_pid_request
  known_kind self kinds make w request props known = ground (arith, known)

  -- A request for a known kind with a name: if the name below the activator is free, the actor is
  -- started and the answer is its PID with status 0; if it is taken, nothing is started, the answer is
  -- the error status 1 and the handler throws. Status 2, that the name is taken, is not answered.
  requested_by_name :
      (dead_letter : P) (self : Pid) (kinds : List (Bytes × A)) (make : A → P) (w : World P)
      (kind : Bytes) (c : ℕ) (cs : Bytes) (props : A)
      → lookup kind kinds ≡ some props
      → let name = below self.id (codes "Remote$" ++ (c ∷ cs)) in
        Answered w
          (make props)
          name
          (get_local dead_letter w.registry name).1
          (handle_actor_pid_request self kinds make w (record { name = c ∷ cs; kind = kind }))
  requested_by_name dead_letter self kinds make w kind c cs props known =
      let id = codes "Remote$" ++ (c ∷ cs) in
      let (err, pid, leads, children, started) =
        spawn_named_cases dead_letter self w id (make props) in
      rw (known_kind self kinds make w (record { name = c ∷ cs; kind = kind }) props known) (
        respond_lem w (make props) (below self.id id)
          (get_local dead_letter w.registry (below self.id id)).1
          (spawn_named self w id (make props)) err pid started)

  -- A request for an unknown kind is answered the error status 1, the handler throws, and nothing
  -- changes.
  requested_unknown :
      (self : Pid) (kinds : List (Bytes × A)) (make : A → P) (w : World P)
      (request : ActorPidRequest)
      → lookup request.kind kinds ≡ none
      → handle_actor_pid_request self kinds make w request ≡ (w, error_response, true)
  unfolding handle_actor_pid_request
  requested_unknown self kinds make w request unknown = ground (arith, unknown)
