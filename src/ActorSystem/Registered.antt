-- ===== src/ActorSystem/Registered.antt =====
-- What an actor system knows of extensions and, once it is shut down, of processes (extensions.cpp,
-- actor_system.cpp).
use protoactor_cpp.Base.{
  ℕ, ◌+◌, ◌<◌, ◌^◌, ◌≡◌, refl, ap, ◌∙◌, false, Option, none, some, List, [], ◌∷◌, nat_eq, eqb,
  lookup, lookup-insert, arith, if◌then◌else◌,
}
use protoactor_cpp.Pid.{Pid}
use protoactor_cpp.Registry.{get, get_local, is_remote, clear}
use protoactor_cpp.Registry.Refinement.{get_bucket-lt}
use protoactor_cpp.ActorSystem.{
  Extensions, new_extensions, next_extension_id, register_extension, get_extension, ActorSystem,
  shutdown_system,
}

pub data Call (A : Type 0) : Type 0 where
  takes_id : Call A
  registers : ℕ → A → Call A

module _ {A : Type 0} where
  unfoldable pub handle : Extensions A → Call A → Extensions A
  unfolding next_extension_id register_extension
  handle e takes_id = (next_extension_id e).0
  handle e (registers id extension) = register_extension id extension e

  unfoldable pub run : Extensions A → List (Call A) → Extensions A
  unfolding handle
  run e [] = e
  run e (c ∷ cs) = run (handle e c) cs

  abbrev pub taken : List (Call A) → ℕ
  taken [] = 0
  taken (takes_id ∷ cs) = 1 + taken cs
  taken (registers id extension ∷ cs) = taken cs

  -- The extension that was registered last under an id, and before them `known`.
  abbrev pub registered : List (Call A) → ℕ → Option A → Option A
  registered [] id known = known
  registered (takes_id ∷ cs) id known = registered cs id known
  registered (registers other extension ∷ cs) id known =
      registered cs id (if eqb other id then some extension else known)

  run_lem :
      (e : Extensions A) (cs : List (Call A)) (id : ℕ)
      → e.id_counter + taken cs < 2 ^ 32
      → ((run e cs).id_counter ≡ e.id_counter + taken cs)
        × (lookup id (run e cs).extensions ≡ registered cs id (lookup id e.extensions))
  unfolding run
  run_lem e [] id few = (ground arith, refl)
  run_lem e (takes_id ∷ cs) id few =
      let (next, known) = run_lem (next_extension_id e).0 cs id (omega (arith, few)) in
      (omega (arith, next, few), known)
  run_lem e (registers other extension ∷ cs) id few =
      let (next, known) = run_lem (register_extension other extension e) cs id few in
      (next, known ∙ ap (registered cs id) (lookup-insert other id extension e.extensions))

  -- As long as fewer than 2^32 - 1 ids are taken, they are 1, 2, 3 and so on; and Get gives for an id
  -- what was registered last under it.
  pub extensions-run :
      (cs : List (Call A)) (id : ℕ)
      → 1 + taken cs < 2 ^ 32
      → let e = run new_extensions cs in
        ((next_extension_id e).1 ≡ 1 + taken cs) × (get_extension e id ≡ registered cs id none)
  unfolding new_extensions next_extension_id get_extension lookup
  extensions-run cs id few = run_lem new_extensions cs id few

module _ {R A : Type 0} where
  -- After Shutdown no PID at the own address leads to a process: Get gives a null pointer, even for
  -- the dead-letter process.
  pub shutdown_forgets :
      (s : ActorSystem R A) (pid : Pid)
      → is_remote s.process_registry pid ≡ false
      → let s' = shutdown_system s in
        get s'.dead_letter s'.process_registry (some pid) ≡ (none, false)
  unfolding shutdown_system clear get get_local lookup
  shutdown_forgets s pid home = ground (arith, home, get_bucket-lt pid.id)
