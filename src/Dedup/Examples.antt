-- ===== src/Dedup/Examples.antt =====
-- A window of 100 milliseconds; each message is its own key.
use protoactor_cpp.Base.{ℕ, ◌≡◌, refl, none, List, [], ◌∷◌, Bytes, bytes_beq, arith}
use protoactor_cpp.Dedup.{passed_on}
use protoactor_cpp.Dedup.Window.{due_ones, passed_on-due}

abbrev own_key : ℕ → Bytes
own_key m = m ∷ []

-- The second and the third 5 come too soon after the one before; the last does not.
abbrev repeated : List (ℕ × ℕ)
repeated = (10, 5) ∷ (90, 5) ∷ (150, 5) ∷ (200, 6) ∷ (250, 5) ∷ []

repeated_due : due_ones 1 100 own_key (λ key. none) repeated ≡ (10, 5) ∷ (200, 6) ∷ (250, 5) ∷ []
unfolding due_ones bytes_beq
repeated_due = refl

passed_on-due_example :
    passed_on 1 own_key 100 [] repeated ≡ due_ones 1 100 own_key (λ key. none) repeated
passed_on-due_example =
    passed_on-due 1 100 own_key repeated
      (omega arith, (omega arith, (omega arith, (omega arith, (omega arith, tt)))))
