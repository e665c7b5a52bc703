-- ===== src/TestProbe/Examples.antt =====
-- The probe on small inputs: 1 arrives before the poll 1, 2 before the poll 2.
use protoactor_cpp.Base.{
  ℕ, zero, suc, ◌*◌, ◌≡◌, refl, eqb, List, [], ◌∷◌, ◌++◌, some, true, false, arith, if◌then◌else◌,
}
use protoactor_cpp.TestProbe.{expect_msg, found, timed_out, await_condition}
use protoactor_cpp.TestProbe.Expecting.{is_polling, arrived, expect_msg-ends}

abbrev one_by_one : ℕ → List ℕ
one_by_one zero = []
one_by_one (suc zero) = 1 ∷ []
one_by_one (suc (suc zero)) = 2 ∷ []
one_by_one (suc (suc (suc i))) = []

expect_one : expect_msg (eqb 1) (λ i. i * 10) 30 one_by_one 5 [] ≡ found 1 []
unfolding expect_msg
expect_one = refl

-- The 2 is behind the 1.
expect_two : expect_msg (eqb 2) (λ i. i * 10) 30 one_by_one 5 [] ≡ timed_out (1 ∷ 2 ∷ [])
unfolding expect_msg
expect_two = refl

await_two : await_condition (eqb 2) (λ i. i * 10) 30 0 5 ≡ some true
unfolding await_condition
await_two = refl

expect_msg-ends_example :
    (is_polling (expect_msg (eqb 2) (λ i. i * 10) 30 one_by_one 4 []) ≡ false)
    × ((n : ℕ) × (expect_msg (eqb 2) (λ i. i * 10) 30 one_by_one 4 (1 ∷ 2 ∷ []) ≡ (
          if eqb 2 1
          then found 1 ((2 ∷ []) ++ one_by_one 0)
          else timed_out (1 ∷ (2 ∷ []) ++ arrived one_by_one 0 n))))
expect_msg-ends_example =
    expect_msg-ends (eqb 2) (λ i. i * 10) 30 one_by_one (λ j. omega arith) 4 [] 1 (2 ∷ [])
      (omega arith)
