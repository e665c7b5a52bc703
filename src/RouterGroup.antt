-- ===== src/RouterGroup.antt =====
-- src/router/router_group.cpp: RouterActorGroup and RouterActorPool, as the list of their routees.
-- Spawn is that of the context with the PID `self`; `make i` is the process that turn i makes.
pub mod Routees
mod Examples
use protoactor_cpp.Base.{
  ℕ, zero, suc, Bool, not, ◌&&◌, Option, none, some, List, [], ◌∷◌, ◌++◌, keep, bytes_beq,
}
use protoactor_cpp.Pid.{Pid}
use protoactor_cpp.Spawn.{World, spawn}

abbrev pub RouterActorGroup : Type 0
RouterActorGroup = List Pid

module _ {P : Type 0} where
  -- The loop of New, of a group and of a pool, from turn `i` on; without a group it throws.
  unfoldable pub spawn_routees :
      Pid → (ℕ → P) → ℕ → ℕ → World P → RouterActorGroup → World P × Option RouterActorGroup
  unfolding spawn
  spawn_routees self make i zero w routees = (w, some routees)
  spawn_routees self make i (suc count) w routees =
      let (w', spawned) = spawn self w (make i) in
      elim spawned [
        | none ↦ (w', none)
        | some pid ↦ spawn_routees self make (suc i) count w' (routees ++ pid ∷ [])
      ]

  unfoldable pub new_group : Pid → (ℕ → P) → ℕ → World P → World P × Option RouterActorGroup
  unfolding spawn_routees
  new_group self make count w = spawn_routees self make 0 count w []

unfoldable pub get_routees : RouterActorGroup → List Pid
get_routees routees = routees

unfoldable pub add_routee : RouterActorGroup → Option Pid → RouterActorGroup
add_routee routees none = routees
add_routee routees (some pid) = routees ++ pid ∷ []

unfoldable pub remove_routee : RouterActorGroup → Option Pid → RouterActorGroup
remove_routee routees none = routees
remove_routee routees (some pid) = keep (λ p. not (bytes_beq p.id pid.id)) routees

-- The group that is left, and the PIDs that the context is told to stop.
unfoldable pub stop_group : RouterActorGroup → RouterActorGroup × List Pid
stop_group routees = ([], routees)
