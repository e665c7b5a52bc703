-- ===== src/Spawn/Names.antt =====
-- The names of spawned actors (props.cpp, actor_context.cpp).
use protoactor_cpp.Base.{
  ◌≡◌, inl, inr, refl, ◌∙◌, true, false, none, some, [], ◌∷◌, ◌++◌, Bytes, bytes_eq, bytes_beq_iff,
  lookup, insert, lookup-insert, if◌then◌else◌, eqb_iff, arith, Option-cases,
}
use protoactor_cpp.Pid.{Pid, new_pid}
use protoactor_cpp.Registry.{
  Registry, add, next_id, get, get_local, found_or, get_bucket, with_shard,
}
use protoactor_cpp.Spawn.{World, default_spawner, spawn_named, spawn_prefix, spawn, below}

module _ {P : Type 0} where
  add_free :
      (r : Registry P) (process : P) (name : Bytes)
      → lookup name (r.local_pids (get_bucket name)) ≡ none
      → add r process name ≡ (
        with_shard r (get_bucket name) (insert name process (r.local_pids (get_bucket name))),
        (new_pid r.address name, true),
      )
  unfolding add
  add_free r process name free = rw free refl

  add_taken :
      (r : Registry P) (process other : P) (name : Bytes)
      → lookup name (r.local_pids (get_bucket name)) ≡ some other
      → add r process name ≡ (r, (new_pid r.address name, false))
  unfolding add
  add_taken r process other name taken = rw taken refl

  -- A PID with the registry's own address is looked up by its name.
  get_own :
      (dead_letter : P) (r : Registry P) (name : Bytes)
      → get dead_letter r (some (new_pid r.address name))
        ≡ found_or dead_letter (lookup name (r.local_pids (get_bucket name)))
  unfolding get get_local new_pid
  get_own dead_letter r name = ground (arith, bytes_beq_iff r.address r.address)

  get_added :
      (dead_letter : P) (r : Registry P) (process : P) (name : Bytes)
      → let bucket = get_bucket name in
        get dead_letter
          (with_shard r bucket (insert name process (r.local_pids bucket)))
          (some (new_pid r.address name))
        ≡ (process, true)
  get_added dead_letter r process name =
      let bucket = get_bucket name in
      let shard = r.local_pids bucket in
      get_own dead_letter (with_shard r bucket (insert name process shard)) name
      ∙ ground (
        arith,
        lookup-insert name name process shard,
        bytes_beq_iff name name,
        eqb_iff bucket bucket,
      )

  -- SpawnNamed, in all of its cases. If the name is free: no error, the PID leads to the new
  -- process, which has got Started, and is the last child. If it is taken: an error and the PID of
  -- that name, which leads to the process that was there, and neither children nor anything
  -- started.
  pub spawn_named_cases :
      (dead_letter : P) (self : Pid) (w : World P) (id : Bytes) (process : P)
      → let name = below self.id id in
        let there = get_local dead_letter w.registry name in
        let (w', pid, err) = spawn_named self w id process in
        (err ≡ there.1)
        × (pid ≡ new_pid w.registry.address name)
        × (get dead_letter w'.registry (some pid) ≡ (if there.1 then there else (process, true)))
        × (w'.children ≡ (if there.1 then w.children else w.children ++ pid ∷ []))
        × (w'.started ≡ (if there.1 then w.started else w.started ++ process ∷ []))
  unfolding spawn_named default_spawner get_local
  spawn_named_cases dead_letter self w id process =
      let name = below self.id id in
      let shard = w.registry.local_pids (get_bucket name) in
      elim (Option-cases (lookup name shard)) [
        | inl free ↦
            let found = get_added dead_letter w.registry process name in
            rw (add_free w.registry process name free, free) (refl, refl, found, refl, refl)
        | inr (other, taken) ↦
            let found = get_own dead_letter w.registry name in
            rw (add_taken w.registry process other name taken, taken)
              (refl, refl, rw taken at found, refl, refl)
      ]

  -- Spawn puts the parent's name in front of the new name twice: a child of "a" that NextID names
  -- "x" is called "a/a/x", if that name is free.
  pub spawn_doubles_name :
      (self : Pid) (w : World P) (process : P) (id : Bytes)
      → let name = below self.id (below self.id id) in
        (next_id w.registry).1 ≡ some id
        → lookup name ((next_id w.registry).0.local_pids (get_bucket name)) ≡ none
        → (spawn self w process).1 ≡ some (new_pid (next_id w.registry).0.address name)
  unfolding spawn spawn_prefix spawn_named default_spawner
  spawn_doubles_name self w process id drawn free =
      let name = below self.id (below self.id id) in
      rw (drawn, add_free (next_id w.registry).0 process name free) refl
