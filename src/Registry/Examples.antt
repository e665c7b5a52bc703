-- ===== src/Registry/Examples.antt =====
-- The registry on concrete calls.
use protoactor_cpp.Base.{ℕ, ◌^◌, ◌<◌, ◌≡◌, refl, some, List, [], ◌∷◌, arith}
use protoactor_cpp.Pid.{new_pid}
use protoactor_cpp.Registry.Ids.{codes, digit, uint64_to_id}
use protoactor_cpp.Registry.Refinement.{
  Call, next_ids, adds, gets_local, removes, replies, spec_replies, view, replies-Table,
}
use protoactor_cpp.Registry.{Registry, new_registry, local_address}

-- The name of 64 is written with its digits first and the mark last.
id_64 : uint64_to_id 64 ≡ some (codes "10$")
unfolding uint64_to_id digit
id_64 = refl

abbrev registry : Registry ℕ
registry = new_registry

registry_sequence_id : registry.sequence_id < 2 ^ 64
unfolding new_registry
registry_sequence_id = omega arith

abbrev calls : List (Call ℕ)
calls =
    next_ids
    ∷ adds 7 (codes "a")
    ∷ adds 8 (codes "a")
    ∷ gets_local (codes "a")
    ∷ removes (some (new_pid local_address (codes "a")))
    ∷ gets_local (codes "a")
    ∷ []

replies-Table_example : replies 0 registry calls ≡ spec_replies 0 (view 0 registry) calls
replies-Table_example = replies-Table 0 registry calls
