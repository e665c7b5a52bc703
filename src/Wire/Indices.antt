-- ===== src/Wire/Indices.antt =====
-- The tables of a message batch (endpoint_writer.cpp): an index stays good while the table grows.
use protoactor_cpp.Base.{
  ℕ, zero, suc, ◌+◌, ◌<◌, ◌≡◌, refl, inl, inr, none, some, List, [], ◌∷◌, ◌++◌, Eq, length,
  get_elem?, lookup, insert, lookup-insert, arith, Option-cases, Bool-cases,
}
use protoactor_cpp.Wire.{index_of}

module _ {A : Type 0} where
  abbrev pub Extends : List A → List A → Type 0
  Extends xs ys = (i : ℕ) (a : A) → get_elem? xs i ≡ some a → get_elem? ys i ≡ some a

  pub Extends-append : (xs ys : List A) → Extends xs (xs ++ ys)
  Extends-append [] ys i a h = ground (arith, h)
  Extends-append (x ∷ xs) ys zero a h = h
  Extends-append (x ∷ xs) ys (suc i) a h = Extends-append xs ys i a h

  pub get_elem?-append-length :
      (xs ys : List A) (a : A) → get_elem? (xs ++ a ∷ ys) (length xs) ≡ some a
  get_elem?-append-length [] ys a = refl
  get_elem?-append-length (x ∷ xs) ys a = get_elem?-append-length xs ys a

  pub get_elem?-some-lt : (xs : List A) (i : ℕ) (a : A) → get_elem? xs i ≡ some a → i < length xs
  get_elem?-some-lt [] i a h = ground arith
  get_elem?-some-lt (x ∷ xs) zero a h = omega arith
  get_elem?-some-lt (x ∷ xs) (suc i) a h = omega (arith, get_elem?-some-lt xs i a h)

module _ {A K : Type 0} ⦃e : Eq K⦄ (first : ℕ) (view : K → A) where
  -- The index, counted from `first`, of the entry of this key.
  abbrev pub Indexes : List A → K → ℕ → Type 0
  Indexes entries key index =
      (j : ℕ) × (index ≡ j + first) × (get_elem? entries j ≡ some (view key))

  abbrev pub Indexed : List (K × ℕ) → List A → Type 0
  Indexed table entries =
      (key : K) (index : ℕ) → lookup key table ≡ some index → Indexes entries key index

  -- What index_of gives: a good index, in good tables that extend the old ones.
  abbrev pub Gives : K → List A → ℕ × List (K × ℕ) × List A → Type 0
  Gives key entries (index, table, grown) =
      Indexed table grown × Extends entries grown × Indexes grown key index

  pub index_of_there :
      (key : K) (table : List (K × ℕ)) (entries : List A) (index : ℕ)
      → lookup key table ≡ some index
      → index_of first key (view key) table entries ≡ (index, table, entries)
  unfolding index_of
  index_of_there key table entries index h = ground (arith, h)

  pub index_of_new :
      (key : K) (table : List (K × ℕ)) (entries : List A)
      → lookup key table ≡ none
      → index_of first key (view key) table entries ≡ (
        length entries + first,
        insert key (length entries + first) table,
        entries ++ view key ∷ [],
      )
  unfolding index_of
  index_of_new key table entries h = ground (arith, h)

  pub Indexed-insert :
      (key : K) (table : List (K × ℕ)) (entries : List A)
      → Indexed table entries
      → Indexed (insert key (length entries + first) table) (entries ++ view key ∷ [])
  Indexed-insert key table entries good other index h = elim (Bool-cases (e.beq key other)) [
    | inl same ↦ (
      length entries,
      ground (arith, same, h, lookup-insert key other (length entries + first) table),
      ground (arith, get_elem?-append-length entries [] (view key), same, e.beq_iff key other),
    )
    | inr differs ↦
        let (j, at_j, there) =
          good other index
            (ground (arith, differs, h, lookup-insert key other (length entries + first) table)) in
        (j, at_j, Extends-append entries (view key ∷ []) j (view other) there)
  ]

  pub index_of_lem :
      (key : K) (table : List (K × ℕ)) (entries : List A)
      → Indexed table entries
      → Gives key entries (index_of first key (view key) table entries)
  index_of_lem key table entries good = elim (Option-cases (lookup key table)) [
    | inr (index, there) ↦
        rw (index_of_there key table entries index there) (good, λ i a h. h, good key index there)
    | inl new ↦ rw (index_of_new key table entries new) (
      Indexed-insert key table entries good,
      Extends-append entries (view key ∷ []),
      (length entries, refl, get_elem?-append-length entries [] (view key)),
    )
  ]
