-- ===== src/Base/Int.antt =====
-- `int` counters as integers: `negsuc n` is -(n + 1).
use Prim.Native.Nat.{ℕ, zero, suc, ◌+◌, ◌<◌}
use mathlib.Core.Path.{◌≡◌, refl}
use mathlib.Core.Bool.{Bool, true, false}
use native.Mathlib.Omega.{arith}

pub data ℤ : Type 0 where
  pos : ℕ → ℤ
  negsuc : ℕ → ℤ

abbrev pub pos_part : ℤ → ℕ
pos_part (pos n) = n
pos_part (negsuc n) = 0

abbrev pub neg_part : ℤ → ℕ
neg_part (pos n) = 0
neg_part (negsuc n) = suc n

unfoldable pub incr : ℤ → ℤ
incr (pos n) = pos (suc n)
incr (negsuc zero) = pos 0
incr (negsuc (suc n)) = negsuc n

unfoldable pub decr : ℤ → ℤ
decr (pos zero) = negsuc 0
decr (pos (suc n)) = pos n
decr (negsuc n) = negsuc (suc n)

abbrev pub is_positive : ℤ → Bool
is_positive (pos zero) = false
is_positive (pos (suc n)) = true
is_positive (negsuc n) = false

pub incr_parts : (z : ℤ) → pos_part (incr z) + neg_part z ≡ pos_part z + neg_part (incr z) + 1
unfolding incr
incr_parts (pos n) = omega arith
incr_parts (negsuc zero) = omega arith
incr_parts (negsuc (suc n)) = omega arith

pub decr_parts : (z : ℤ) → pos_part (decr z) + neg_part z + 1 ≡ pos_part z + neg_part (decr z)
unfolding decr
decr_parts (pos zero) = omega arith
decr_parts (pos (suc n)) = omega arith
decr_parts (negsuc n) = omega arith

pub is_positive-decr : (z : ℤ) → is_positive (decr z) ≡ true → is_positive z ≡ true
unfolding decr
is_positive-decr (pos zero) h = h
is_positive-decr (pos (suc n)) h = refl
is_positive-decr (negsuc n) h = h

pub not_positive_parts : (z : ℤ) → is_positive z ≡ false → pos_part z ≡ 0
not_positive_parts (pos zero) h = refl
not_positive_parts (pos (suc n)) h = ground arith
not_positive_parts (negsuc n) h = refl

pub positive_parts : (z : ℤ) → is_positive z ≡ true → 0 < pos_part z
positive_parts (pos zero) h = ground arith
positive_parts (pos (suc n)) h = omega arith
positive_parts (negsuc n) h = ground arith
