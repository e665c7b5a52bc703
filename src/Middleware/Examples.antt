-- ===== src/Middleware/Examples.antt =====
-- Chains of two handlers on numbers.
use protoactor_cpp.Base.{ℕ, ◌+◌, ◌*◌, ◌≡◌, [], ◌∷◌}
use protoactor_cpp.Middleware.{make_chain, make_chain-nested}

abbrev double : ℕ → ℕ
double h = h * 2

abbrev one_more : ℕ → ℕ
one_more h = h + 1

make_chain-nested_example : make_chain (double ∷ one_more ∷ []) 5 ≡ double (one_more 5)
make_chain-nested_example = make_chain-nested (double ∷ one_more ∷ []) 5
