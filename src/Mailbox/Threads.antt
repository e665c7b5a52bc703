-- ===== src/Mailbox/Threads.antt =====
-- Counting threads: a weight for each thread, summed over all of them.
use protoactor_cpp.Base.{ℕ, ◌+◌, ◌≡◌, List, [], ◌∷◌, ◌++◌, arith}

module _ {A : Type 0} where
  abbrev pub total : (A → ℕ) → List A → ℕ
  total w [] = 0
  total w (x ∷ xs) = w x + total w xs

  pub total-append : (w : A → ℕ) (xs ys : List A) → total w (xs ++ ys) ≡ total w xs + total w ys
  total-append w [] ys = omega arith
  total-append w (x ∷ xs) ys = omega (arith, total-append w xs ys)

  -- What the other threads weigh is the same before and after the step of one.
  pub total_split :
      (w : A → ℕ) (xs : List A) (x : A) (ys : List A)
      → total w (xs ++ (x ∷ ys)) ≡ total w xs + total w ys + w x
  total_split w xs x ys = omega (arith, total-append w xs (x ∷ ys))

  pub total_replaced :
      (w : A → ℕ) (xs zs ys : List A)
      → total w (xs ++ (zs ++ ys)) ≡ total w xs + total w ys + total w zs
  total_replaced w xs zs ys = omega (arith, total-append w xs (zs ++ ys), total-append w zs ys)
