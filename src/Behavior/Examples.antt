-- ===== src/Behavior/Examples.antt =====
-- An actor that becomes 2, stacks 3 and 4, and takes both back.
use protoactor_cpp.Base.{ℕ, List, [], ◌∷◌}
use protoactor_cpp.Behavior.Stack.{Call, stacks, unstacks, Balanced, nothing, nested}

abbrev before : List (Call ℕ)
before = stacks 1 ∷ unstacks ∷ unstacks ∷ []

abbrev after : List (Call ℕ)
after = stacks 3 ∷ stacks 4 ∷ unstacks ∷ unstacks ∷ []

after-Balanced : Balanced after
after-Balanced = nested 3 (stacks 4 ∷ unstacks ∷ []) [] (nested 4 [] [] nothing nothing) nothing
