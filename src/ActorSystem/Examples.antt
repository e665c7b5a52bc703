-- ===== src/ActorSystem/Examples.antt =====
-- Extensions and ids on small inputs.
use protoactor_cpp.Base.{ℕ, ◌+◌, ◌≡◌, refl, some, [], ◌∷◌, lookup, insert}
use protoactor_cpp.ActorSystem.{new_extensions, register_extension, get_extension, new_id}

overwritten :
    get_extension {A = ℕ} (register_extension 1 8 (register_extension 1 7 new_extensions)) 1
    ≡ some 8
unfolding get_extension register_extension new_extensions lookup insert
overwritten = refl

short_id : new_id (λ i. i + 9) 0 2 ≡ b'9' ∷ b'a' ∷ []
unfolding new_id
short_id = refl
