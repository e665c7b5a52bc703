-- ===== src/RootContext/Examples.antt =====
-- The root context with one process, named 1.
use protoactor_cpp.Base.{
  ◌≡◌, refl, true, false, none, some, [], ◌∷◌, ℕ, bytes_eq, bytes_beq, lookup, insert, Option,
}
use protoactor_cpp.Pid.{new_pid}
use protoactor_cpp.Messages.{Ref, Msg, payload}
use protoactor_cpp.Registry.{
  Registry, new_registry, add, add_to, get, get_local, get_bucket, hash_from,
}
use protoactor_cpp.DeadLetter.{undefined, throws}
use protoactor_cpp.RootContext.{
  Process, process, dead_letter, send, request_with_custom_sender, request_future, stop_pid,
  poison_pid, stop_future, poison_future,
}
use protoactor_cpp.RootContext.Sending.{dead_lettered, dead_cases}

abbrev registry : Registry (Process ℕ)
registry = (add new_registry (process 40) (1 ∷ [])).0

abbrev ref : ℕ → Ref
ref n = record { ptr = n; pid = new_pid [] (n ∷ []) }

known : get dead_letter registry (some (new_pid registry.address (1 ∷ []))) ≡ (process 40, true)
unfolding get get_local add add_to new_registry new_pid get_bucket hash_from lookup insert bytes_beq
known = refl

abbrev known_ref : Ref
known_ref = record { ptr = 1; pid = new_pid registry.address (1 ∷ []) }

unknown : get dead_letter registry (some (new_pid registry.address (2 ∷ []))) ≡ (dead_letter, false)
unfolding get get_local add add_to new_registry new_pid get_bucket hash_from lookup insert bytes_beq
unknown = refl

abbrev unknown_ref : Ref
unknown_ref = record { ptr = 2; pid = new_pid registry.address (2 ∷ []) }

abbrev message : Option (Msg ℕ)
message = some (payload 9)

dead_cases_example :
    (send registry (some unknown_ref) message ≡ dead_lettered unknown_ref message none)
    × (request_with_custom_sender registry (some unknown_ref) message (some known_ref)
        ≡ dead_lettered unknown_ref message (some known_ref))
    × (stop_pid ℕ registry (some unknown_ref) ≡ undefined)
    × (poison_pid ℕ registry (some unknown_ref) ≡ undefined)
    × (request_future registry unknown_ref message ≡ throws)
    × (stop_future ℕ registry unknown_ref ≡ throws)
    × (poison_future ℕ registry unknown_ref ≡ throws)
dead_cases_example = dead_cases registry unknown_ref false message (some known_ref) unknown
