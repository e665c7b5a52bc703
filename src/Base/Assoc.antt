-- ===== src/Base/Assoc.antt =====
-- `std::unordered_map` as an association list: one entry for a key, in an order that no operation
-- of the program relies on.
use mathlib.Core.Path.{◌≡◌, refl}
use mathlib.Core.List.{List, [], ◌∷◌}
use mathlib.Core.Option.{Option, none, some}
use native.Mathlib.Omega.{arith}
use protoactor_cpp.Base.Tests.{if◌then◌else◌}
use protoactor_cpp.Base.Equality.{Eq, ◌==◌}

module _ {K : Type 0} ⦃e : Eq K⦄ {V : Type 0} where
  unfoldable pub lookup : K → List (K × V) → Option V
  lookup key [] = none
  lookup key (entry ∷ rest) = if entry.0 == key then some entry.1 else lookup key rest

  -- operator[] and an assignment: the entry of the key is replaced, or a new one added.
  unfoldable pub insert : K → V → List (K × V) → List (K × V)
  insert key value [] = (key, value) ∷ []
  insert key value (entry ∷ rest) =
      let replaced = insert key value rest in
      if entry.0 == key then (key, value) ∷ rest else entry ∷ replaced

  unfoldable pub erase : K → List (K × V) → List (K × V)
  erase k [] = []
  erase k ((j, w) ∷ m) = if j == k then erase k m else (j, w) ∷ erase k m

  pub lookup-insert :
      (key other : K) (value : V) (table : List (K × V))
      → lookup other (insert key value table)
        ≡ (if key == other then some value else lookup other table)
  unfolding lookup insert
  lookup-insert key other value [] = refl
  lookup-insert key other value (entry ∷ rest) =
      let shorter = lookup-insert key other value rest in
      ground (arith, e.beq_iff key other, e.beq_iff entry.0 key, e.beq_iff entry.0 other, shorter)

  pub lookup-erase :
      (k j : K) (m : List (K × V)) → lookup j (erase k m) ≡ (if k == j then none else lookup j m)
  unfolding lookup erase
  lookup-erase k j [] = ground arith
  lookup-erase k j ((i, w) ∷ m) =
      ground (arith, e.beq_iff k j, e.beq_iff i k, e.beq_iff i j, lookup-erase k j m)

  -- No key stands twice.
  abbrev pub Distinct : List (K × V) → Type 0
  Distinct [] = Unit
  Distinct (entry ∷ rest) = (lookup entry.0 rest ≡ none) × Distinct rest

  pub Distinct-insert :
      (key : K) (value : V) (table : List (K × V))
      → Distinct table
      → Distinct (insert key value table)
  unfolding insert lookup
  Distinct-insert key value [] h = (refl, tt)
  Distinct-insert key value (entry ∷ rest) h = ground (
    arith,
    Distinct-insert key value rest h.1,
    lookup-insert key entry.0 value rest,
    e.beq_iff entry.0 key,
    e.beq_iff key entry.0,
    h.0,
  )

  pub Distinct-erase :
      (key : K) (table : List (K × V)) → Distinct table → Distinct (erase key table)
  unfolding erase
  Distinct-erase key [] h = tt
  Distinct-erase key (entry ∷ rest) h =
      ground (arith, Distinct-erase key rest h.1, lookup-erase key entry.0 rest, h.0)
