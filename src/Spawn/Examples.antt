-- ===== src/Spawn/Examples.antt =====
-- Actors spawned below one that is called "a"; processes are numbers.
use protoactor_cpp.Base.{
  ℕ, ◌≡◌, refl, true, none, some, [], ◌∷◌, Bytes, bytes_eq, lookup, if◌then◌else◌,
}
use protoactor_cpp.Pid.{Pid, new_pid}
use protoactor_cpp.Registry.{new_registry, next_id, get, get_local, get_bucket}
use protoactor_cpp.Registry.Ids.{uint64_to_id, digit, digits}
use protoactor_cpp.Spawn.{World, spawn_named, below}
use protoactor_cpp.Spawn.Names.{spawn_named_cases}

abbrev parent : Pid
parent = new_pid [] (97 ∷ [])

abbrev first_name : Bytes
first_name = b'1' ∷ b'$' ∷ []

abbrev world : World ℕ
world = record { registry = new_registry; children = []; started = [] }

spawn_named_cases_example :
    let name = below parent.id (98 ∷ []) in
    let there = get_local 0 world.registry name in
    let (w', pid, err) = spawn_named parent world (98 ∷ []) 5 in
    (err ≡ there.1)
    × (pid ≡ new_pid world.registry.address name)
    × (get 0 w'.registry (some pid) ≡ (if there.1 then there else (5, true)))
    × (w'.children ≡ (if there.1 then [] else pid ∷ []))
    × (w'.started ≡ (if there.1 then [] else 5 ∷ []))
spawn_named_cases_example = spawn_named_cases 0 parent world (98 ∷ []) 5

first_id : (next_id world.registry).1 ≡ some first_name
unfolding next_id new_registry uint64_to_id digit digits
first_id = refl

name_free :
    let name = below parent.id (below parent.id first_name) in
    lookup name ((next_id world.registry).0.local_pids (get_bucket name)) ≡ none
unfolding next_id new_registry lookup
name_free = refl
