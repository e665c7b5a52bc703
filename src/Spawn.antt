-- ===== src/Spawn.antt =====
-- How actors are spawned: defaultSpawner and Props::Spawn (src/actor/props.cpp), Spawn, SpawnPrefix
-- and SpawnNamed of ActorContext (src/actor/actor_context.cpp) and ActorProcess
-- (src/actor/actor_process.cpp). `P` is a process; the one that a spawn makes is an argument.
pub mod Names
mod Examples
use protoactor_cpp.Base.{
  ℕ, Bool, true, false, Option, none, some, List, [], ◌∷◌, ◌++◌, Bytes, if◌then◌else◌,
}
use protoactor_cpp.Pid.{Pid}
use protoactor_cpp.Registry.{Registry, add, next_id}

-- What a spawn changes outside of its own objects: the registry, the children of the parent, and
-- the processes whose mailbox has got its handlers and then Started.
pub record World (P : Type 0) : Type 0 where
  pub registry : Registry P
  pub children : List Pid
  pub started : List P

-- The PID, and whether there is an error (file_exists).
abbrev pub Spawned : Type 0 → Type 0
Spawned P = World P × Pid × Bool

-- self_->id + "/" + id.
abbrev pub below : Bytes → Bytes → Bytes
below self id = self ++ (b'/' ∷ id)

module _ {P : Type 0} where
  abbrev finish_spawn : World P → P → Registry P × (Pid × Bool) → Spawned P
  finish_spawn w process (r, (pid, added)) =
      if added
      then (record w { registry = r; started = w.started ++ process ∷ [] }, pid, false)
      else (record w { registry = r }, pid, true)

  unfoldable pub default_spawner : World P → Bytes → P → Spawned P
  default_spawner w id process = finish_spawn w process (add w.registry process id)

  abbrev keep_child : Spawned P → Spawned P
  keep_child (w, pid, err) =
      if err then (w, pid, err) else (record w { children = w.children ++ pid ∷ [] }, pid, err)

  -- SpawnNamed of the context with this PID, for Props without a spawner of their own.
  unfoldable pub spawn_named : Pid → World P → Bytes → P → Spawned P
  unfolding default_spawner
  spawn_named self w id process = keep_child (default_spawner w (below self.id id) process)

  abbrev thrown : Spawned P → World P × Option Pid
  thrown (w, pid, err) = (w, if err then none else some pid)

  -- NextID always gives a name: its loop has the fuel that it needs.
  abbrev spawn_prefixed :
      Pid → World P → Bytes → P → Registry P × Option Bytes → World P × Option Pid
  spawn_prefixed self w prefix process (r, none) = (record w { registry = r }, none)
  spawn_prefixed self w prefix process (r, some id) =
      thrown (spawn_named self (record w { registry = r }) (below self.id (prefix ++ id)) process)

  -- SpawnPrefix; no PID means that the exception is thrown.
  unfoldable pub spawn_prefix : Pid → World P → Bytes → P → World P × Option Pid
  unfolding spawn_named
  spawn_prefix self w prefix process = spawn_prefixed self w prefix process (next_id w.registry)

  unfoldable pub spawn : Pid → World P → P → World P × Option Pid
  unfolding spawn_prefix
  spawn self w process = spawn_prefix self w [] process
