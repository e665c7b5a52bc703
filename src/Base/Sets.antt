-- ===== src/Base/Sets.antt =====
-- `std::unordered_set` as a list that holds nothing twice, in an order that no operation of the
-- program relies on.
use Prim.Native.Nat.{◌+◌}
use mathlib.Core.Path.{◌≡◌, refl}
use mathlib.Core.Bool.{Bool, true, false, ◌||◌}
use mathlib.Core.List.{List, [], ◌∷◌, ◌++◌}
use native.Mathlib.Omega.{arith}
use protoactor_cpp.Base.Tests.{if◌then◌else◌}
use protoactor_cpp.Base.Equality.{Eq, ◌==◌}
use protoactor_cpp.Base.Lists.{length, length-append}

module _ {K : Type 0} ⦃e : Eq K⦄ where
  unfoldable pub has : K → List K → Bool
  has key [] = false
  has key (x ∷ xs) = if x == key then true else has key xs

  unfoldable pub put : K → List K → List K
  unfolding has
  put key xs = if has key xs then xs else xs ++ key ∷ []

  -- Nothing stands twice.
  abbrev pub NoneTwice : List K → Type 0
  NoneTwice [] = Unit
  NoneTwice (x ∷ xs) = (has x xs ≡ false) × NoneTwice xs

  pub has-snoc :
      (key other : K) (xs : List K) → has other (xs ++ key ∷ []) ≡ (has other xs || (key == other))
  unfolding has
  has-snoc key other [] = ground arith
  has-snoc key other (x ∷ xs) = ground (arith, has-snoc key other xs)

  pub has-put :
      (key other : K) (xs : List K)
      → has other (put key xs) ≡ (if key == other then true else has other xs)
  unfolding put
  has-put key other xs = ground (arith, has-snoc key other xs, e.beq_iff key other)

  NoneTwice-snoc :
      (key : K) (xs : List K) → has key xs ≡ false → NoneTwice xs → NoneTwice (xs ++ key ∷ [])
  unfolding has
  NoneTwice-snoc key [] new h = (refl, tt)
  NoneTwice-snoc key (x ∷ xs) new (first, rest) = (
    ground (arith, has-snoc key x xs, first, new, e.beq_iff key x, e.beq_iff x key),
    NoneTwice-snoc key xs (ground (arith, new)) rest,
  )

  pub NoneTwice-put : (key : K) (xs : List K) → NoneTwice xs → NoneTwice (put key xs)
  unfolding put
  NoneTwice-put key xs h = ground (arith, h, NoneTwice-snoc key xs)

  pub length-put :
      (key : K) (xs : List K)
      → length (put key xs) ≡ (if has key xs then length xs else length xs + 1)
  unfolding put
  length-put key xs = ground (arith, length-append xs (key ∷ []))
