-- ===== src/Router/Turns.antt =====
-- Round robin (router.cpp): whose turn it is.
use protoactor_cpp.Base.{
  ℕ, zero, suc, ◌+◌, ◌%◌, ◌^◌, ◌<◌, ◌≤◌, ◌≡◌, refl, sym, ap, ◌∙◌, true, Option, none, some, List,
  [], ◌∷◌, ◌++◌, map, length, get_elem?, ℤ, pos, negsuc, arith, lt→ltb,
}
use protoactor_cpp.Router.{Router, to_int, int_rem, not_negative, round_robin}

-- The index of a router with a counter and so many routees.
abbrev pub turn : ℕ → ℕ → ℕ
turn counter size = not_negative (int_rem (to_int counter) size) size

turn_range : (z : ℤ) (size : ℕ) → 0 < size → not_negative (int_rem z size) size < size
turn_range (pos m) size h = omega arith
turn_range (negsuc m) size h = ground arith

turn_lem : (c size : ℕ) → c < 2 ^ 31 → turn c size ≡ c % size
turn_lem c size h = rw (lt→ltb c (2 ^ 31) h) refl

nonempty : {A : Type 0} (xs : List A) → 0 < length xs → (x : A) × (ys : List A) × (xs ≡ x ∷ ys)
nonempty [] h = elim h [ ]
nonempty (x ∷ xs) h = (x, xs, refl)

get_elem?-some :
    {A : Type 0} (xs : List A) (i : ℕ) → i < length xs → (x : A) × (get_elem? xs i ≡ some x)
get_elem?-some [] i h = elim h [ ]
get_elem?-some (x ∷ xs) zero h = (x, refl)
get_elem?-some (x ∷ xs) (suc i) h = get_elem?-some xs i (omega arith)

module _ {R M : Type 0} where
  round_robin_step :
      (r : Router R) (m : M)
      → r.has_sender ≡ true
      → 0 < length r.routees
      → (routee : R) × (get_elem? r.routees (turn r.current_index (length r.routees)) ≡ some routee)
        × (round_robin r m
            ≡ (record r { current_index = (r.current_index + 1) % 2 ^ 32 }, (routee, m) ∷ []))
  unfolding round_robin
  round_robin_step r m sends h =
      let (x, xs, e) = nonempty r.routees h in
      let (routee, at) =
        get_elem?-some r.routees (turn r.current_index (length r.routees))
          (turn_range (to_int r.current_index) (length r.routees) h) in
      (routee, at, ground (arith, e, at, sends))

  -- The messages routed one after the other, with all that was sent.
  unfoldable pub route_all : Router R → List M → List (R × M)
  route_all r [] = []
  route_all r (m ∷ ms) = (round_robin r m).1 ++ route_all (round_robin r m).0 ms

  -- A round-robin router with a sender and a routee sends every message, in order and once each,
  -- also when its counter overflows.
  pub route_all_delivers :
      (r : Router R) (ms : List M)
      → r.has_sender ≡ true
      → 0 < length r.routees
      → map (λ sent. sent.1) (route_all r ms) ≡ ms
  unfolding route_all
  route_all_delivers r [] sends h = refl
  route_all_delivers r (m ∷ ms) sends h =
      let (routee, at, step) = round_robin_step r m sends h in
      let rest =
        route_all_delivers (record r { current_index = (r.current_index + 1) % 2 ^ 32 }) ms sends
          h in
      rw step (ap (λ t. m ∷ t) rest)

  abbrev sent_to : Option R → M → List (R × M) → List (R × M)
  sent_to none m rest = rest
  sent_to (some routee) m rest = (routee, m) ∷ rest

  -- The routees in their order, over and over, from a place on.
  abbrev pub in_turn : List R → ℕ → List M → List (R × M)
  in_turn routees place [] = []
  in_turn routees place (m ∷ ms) =
      sent_to (get_elem? routees (place % length routees)) m (in_turn routees (place + 1) ms)

  -- Until the counter overflows, the messages go to the routees in turn, in the order of the
  -- routees, and after the last it is the turn of the first again.
  pub route_all-in_turn :
      (r : Router R) (ms : List M)
      → r.has_sender ≡ true
      → 0 < length r.routees
      → r.current_index + length ms ≤ 2 ^ 31
      → route_all r ms ≡ in_turn r.routees r.current_index ms
  unfolding route_all
  route_all-in_turn r [] sends h small = refl
  route_all-in_turn r (m ∷ ms) sends h small =
      let (routee, at, step) = round_robin_step r m sends h in
      let next : (r.current_index + 1) % 2 ^ 32 ≡ r.current_index + 1 = omega arith in
      let place = turn_lem r.current_index (length r.routees) (omega arith) in
      let at' = rw place at at in
      let rest =
        route_all-in_turn (record r { current_index = r.current_index + 1 }) ms sends h
          (omega arith) in
      let later = in_turn r.routees (r.current_index + 1) ms in
      rw (step, next) (ap (λ t. (routee, m) ∷ t) rest ∙ sym (ap (λ o. sent_to o m later) at'))
