-- ===== src/Gossip/Selection.antt =====
-- The members that gossip goes to (gossip.cpp).
use protoactor_cpp.Base.{
  ℕ, zero, suc, ◌+◌, ◌<◌, ◌≤◌, ◌≡◌, refl, Bool, List, [], ◌∷◌, ◌++◌, length, length-append, keep,
  get_elem?, ltb, if◌then◌else◌, arith,
}
use protoactor_cpp.MemberList.{Member}
use protoactor_cpp.Gossip.{Informer, remove_at, in_list, select, select_random_members}

-- Every draw is below its size.
abbrev pub InRange : (ℕ → ℕ) → Type 0
InRange dis = (size : ℕ) → 0 < size → dis size < size

module _ {A : Type 0} where
  -- How many pass a test.
  abbrev pub count : (A → Bool) → List A → ℕ
  count p xs = length (keep p xs)

  count-append : (p : A → Bool) (xs ys : List A) → count p (xs ++ ys) ≡ count p xs + count p ys
  count-append p [] ys = omega arith
  count-append p (x ∷ xs) ys = ground (arith, count-append p xs ys)

  -- One in range is taken out.
  taken :
      (p : A → Bool) (xs : List A) (i : ℕ)
      → i < length xs
      → (length (in_list (get_elem? xs i)) ≡ 1)
        × (length (remove_at xs i) + 1 ≡ length xs)
        × (count p (in_list (get_elem? xs i)) + count p (remove_at xs i) ≡ count p xs)
  taken p [] i h = absurd (omega arith)
  taken p (x ∷ xs) zero h = (refl, omega arith, ground arith)
  taken p (x ∷ xs) (suc i) h =
      let (one, left, counts) = taken p xs i (omega arith) in
      (one, omega (arith, left), ground (arith, counts))

  -- Selected from `available`, with `left` left over.
  abbrev pub Splits : (A → Bool) → List A → List A → List A → Type 0
  Splits p available selected left = count p selected + count p left ≡ count p available

  -- The members that the loop leaves.
  abbrev pub leftover : (ℕ → ℕ) → ℕ → List A → List A
  leftover dis zero available = available
  leftover dis (suc n) [] = []
  leftover dis (suc n) (x ∷ xs) = leftover dis n (remove_at (x ∷ xs) (dis (length (x ∷ xs))))

  pub select-Splits :
      (dis : ℕ → ℕ) (n : ℕ) (available : List A) (p : A → Bool)
      → InRange dis
      → n ≤ length available
      → (length (select dis n available) ≡ n)
        × Splits p available (select dis n available) (leftover dis n available)
  unfolding select
  select-Splits dis zero available p draws le = (refl, omega arith)
  select-Splits dis (suc n) [] p draws le = absurd (omega arith)
  select-Splits dis (suc n) (x ∷ xs) p draws le =
      let available = x ∷ xs in
      let index = dis (length available) in
      let (one, left, counts) = taken p available index (draws (length available) (omega arith)) in
      let (size, splits) =
        select-Splits dis n (remove_at available index) p draws (omega (arith, le, left)) in
      let first = in_list (get_elem? available index) in
      let later = select dis n (remove_at available index) in
      (
        omega (arith, length-append first later, one, size),
        omega (arith, count-append p first later, splits, counts),
      )

-- If each draw is below its size, as many members are selected as asked for, or all if there are
-- fewer; and for every test, the number of those selected that pass it and the number of those left
-- that do add up to the number of all members that do. So none is selected more often than it is
-- there.
pub select_random_members-Splits :
    (dis : ℕ → ℕ) (s : Informer) (n : ℕ) (p : Member → Bool)
    → InRange dis
    → let size = if ltb n (length s.other_members) then n else length s.other_members in
      (length (select_random_members dis s n) ≡ size)
      × Splits p s.other_members (select_random_members dis s n) (leftover dis size s.other_members)
unfolding select_random_members
select_random_members-Splits dis s n p draws =
    let size = if ltb n (length s.other_members) then n else length s.other_members in
    select-Splits dis size s.other_members p draws (ground arith)
