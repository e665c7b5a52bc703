-- ===== src/Activator.antt =====
-- src/remote/activator_actor.cpp: ActivatorActor, which spawns actors by the name of their kind, for a
-- remote with a configuration. `kinds` is Config::kinds of the remote (Register of src/remote/remote.cpp
-- adds to it), `make` the process that a spawn makes of Props. Receive takes every message for a
-- SystemMessage and returns before it looks for a request: the program never calls the handler that
-- is modelled here.
pub mod Statuses
use protoactor_cpp.Base.{
  ℕ, zero, suc, Bool, true, false, Option, none, some, List, [], ◌∷◌, ◌++◌, Bytes, bytes_eq, lookup,
  insert, eqb, if◌then◌else◌,
}
use protoactor_cpp.Pid.{Pid}
use protoactor_cpp.Registry.{Registry, next_id}
use protoactor_cpp.Registry.Ids.{codes}
use protoactor_cpp.Spawn.{World, Spawned, spawn, spawn_named}

-- Remote::Register.
unfoldable pub register_kind : {A : Type 0} → List (Bytes × A) → Bytes → A → List (Bytes × A)
register_kind kinds kind props = insert kind props kinds

pub record ActorPidRequest : Type 0 where
  pub name : Bytes
  pub kind : Bytes

pub record ActorPidResponse : Type 0 where
  pub pid : Option Pid
  pub status_code : ℕ

-- value() of the error code of file_exists (EEXIST), with which SpawnNamed refuses a name.
abbrev pub file_exists_value : ℕ
file_exists_value = 17

-- What the handler leaves: the world, the response, and whether it throws.
abbrev pub Handled : Type 0 → Type 0
Handled P = World P × ActorPidResponse × Bool

abbrev pub error_response : ActorPidResponse
error_response = record { pid = none; status_code = 1 }

module _ {P : Type 0} where
  -- The end of the handler, with `err.value()`.
  abbrev respond_error : World P → Pid → ℕ → Handled P
  respond_error w pid value =
      if eqb value 1
      then (w, record { pid = some pid; status_code = 2 }, false)
      else (w, error_response, true)

  abbrev pub respond : Spawned P → Handled P
  respond (w, pid, err) =
      if err
      then respond_error w pid file_exists_value
      else (w, record { pid = some pid; status_code = 0 }, false)

  abbrev spawn_remote : Pid → World P → P → Bytes → Handled P
  spawn_remote self w process name = respond (spawn_named self w (codes "Remote$" ++ name) process)

  -- NextID always gives a name, so that Spawn is never called.
  abbrev spawn_next : Pid → World P → P → Registry P × Option Bytes → Handled P
  spawn_next self w process (r, none) = (record w { registry = r }, error_response, true)
  spawn_next self w process (r, some name) =
      spawn_remote self (record w { registry = r }) process name

  abbrev pub spawn_request : Pid → World P → P → Bytes → Handled P
  spawn_request self w process [] = spawn_next self w process (next_id w.registry)
  spawn_request self w process (c ∷ cs) = spawn_remote self w process (c ∷ cs)

  unfoldable pub handle_actor_pid_request :
      {A : Type 0} → Pid → List (Bytes × A) → (A → P) → World P → ActorPidRequest → Handled P
  unfolding spawn_named
  handle_actor_pid_request self kinds make w request = elim (lookup request.kind kinds) [
    | none ↦ (w, error_response, true)
    | some props ↦ spawn_request self w (make props) request.name
  ]
