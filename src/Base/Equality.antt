-- ===== src/Base/Equality.antt =====
-- Decidable equality as an interface: a test and the law that it decides equality. `Bytes` is a
-- `std::string`, byte by byte.
use Prim.Native.Nat.{ℕ}
use mathlib.Core.Path.{◌≡◌, refl}
use mathlib.Core.Logic.{◌↔◌, ◌≢◌}
use mathlib.Core.Bool.{Bool, true, false, ◌&&◌}
use mathlib.Core.List.{List, [], ◌∷◌}
use native.Mathlib.Omega.{arith}
use protoactor_cpp.Base.Tests.{eqb, eqb_iff}

pub record Eq (A : Type 0) : Type 0 where
  pub beq : A → A → Bool
  pub beq_iff : (a b : A) → (beq a b ≡ true) ↔ (a ≡ b)

infix 50 ◌==◌
abbrev pub ◌==◌ : {A : Type 0} ⦃e : Eq A⦄ → A → A → Bool
◌==◌ ⦃e⦄ = e.beq

instance abbrev pub nat_eq : Eq ℕ
nat_eq = record { beq = eqb; beq_iff = eqb_iff }

abbrev pub Bytes : Type 0
Bytes = List ℕ

unfoldable pub bytes_beq : Bytes → Bytes → Bool
bytes_beq [] [] = true
bytes_beq (x ∷ xs) (y ∷ ys) = eqb x y && bytes_beq xs ys
bytes_beq _ _ = false

bytes_eq_of_beq : (xs ys : Bytes) → bytes_beq xs ys ≡ true → xs ≡ ys
unfolding bytes_beq
bytes_eq_of_beq [] [] h = refl
bytes_eq_of_beq (x ∷ xs) (y ∷ ys) h = ground (arith, bytes_eq_of_beq xs ys)
bytes_eq_of_beq [] (y ∷ ys) h = ground arith
bytes_eq_of_beq (x ∷ xs) [] h = ground arith

bytes_beq_refl : (xs : Bytes) → bytes_beq xs xs ≡ true
unfolding bytes_beq
bytes_beq_refl [] = refl
bytes_beq_refl (x ∷ xs) = ground (arith, bytes_beq_refl xs)

bytes_beq_of_eq : (xs ys : Bytes) → xs ≡ ys → bytes_beq xs ys ≡ true
bytes_beq_of_eq xs ys e = rw e (bytes_beq_refl ys)

pub bytes_beq_iff : (xs ys : Bytes) → (bytes_beq xs ys ≡ true) ↔ (xs ≡ ys)
bytes_beq_iff xs ys = (bytes_eq_of_beq xs ys, bytes_beq_of_eq xs ys)

instance abbrev pub bytes_eq : Eq Bytes
bytes_eq = record { beq = bytes_beq; beq_iff = bytes_beq_iff }

module _ {A : Type 0} ⦃e : Eq A⦄ where
  pub ==_refl : (a : A) → (a == a) ≡ true
  ==_refl a = (e.beq_iff a a).1 refl

  pub ==_ne : (a b : A) → a ≢ b → (a == b) ≡ false
  ==_ne a b h = ground (arith, e.beq_iff a b)

-- Pairs are equal if both halves are.
abbrev pub pair_beq : {A B : Type 0} ⦃a : Eq A⦄ ⦃b : Eq B⦄ → A × B → A × B → Bool
pair_beq (x, y) (x', y') = (x == x') && (y == y')

pub pair_beq_iff :
    {A B : Type 0} ⦃a : Eq A⦄ ⦃b : Eq B⦄ (p q : A × B) → (pair_beq p q ≡ true) ↔ (p ≡ q)
pair_beq_iff ⦃a⦄ ⦃b⦄ (x, y) (x', y') = (
  λ h. ground (arith, h, a.beq_iff x x', b.beq_iff y y'),
  λ h. ground (arith, h, a.beq_iff x x', b.beq_iff y y'),
)

instance abbrev pub bytes_pair_eq : Eq (Bytes × Bytes)
bytes_pair_eq = record { beq = pair_beq; beq_iff = pair_beq_iff }
