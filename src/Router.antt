-- ===== src/Router.antt =====
-- src/router/router.cpp: the four routers. `R` is a pointer to a routee and `M` a message; what a
-- router does is the list of its calls of Send, in order, each with the routee.
pub mod Turns
mod Examples
use protoactor_cpp.Base.{
  ℕ, zero, suc, ◌+◌, ◌-◌, ◌%◌, ◌^◌, Bool, true, false, Option, none, some, List, [], ◌∷◌, map,
  length, get_elem?, ltb, if◌then◌else◌, ℤ, pos, negsuc,
}

-- The fields of the routers: their base and, for round robin, the bit pattern of current_index_.
pub record Router (R : Type 0) : Type 0 where
  pub routees : List R
  pub has_sender : Bool
  pub current_index : ℕ

-- The `int` with a bit pattern.
abbrev pub to_int : ℕ → ℤ
to_int w = if ltb w (2 ^ 31) then pos w else negsuc (2 ^ 32 - 1 - w)

abbrev negated : ℕ → ℤ
negated zero = pos 0
negated (suc n) = negsuc n

-- `%` on `int` by a positive size: the sign is that of the dividend.
abbrev pub int_rem : ℤ → ℕ → ℤ
int_rem (pos m) size = pos (m % size)
int_rem (negsuc m) size = negated (suc m % size)

-- `if (index < 0) index += size`, for an index that is not below -size.
abbrev pub not_negative : ℤ → ℕ → ℕ
not_negative (pos index) size = index
not_negative (negsuc index) size = size - suc index

module _ {R : Type 0} where
  unfoldable pub new_router : Router R
  new_router = record { routees = []; has_sender = false; current_index = 0 }

  unfoldable pub set_routees : Router R → List R → Router R
  set_routees r routees = record r { routees = routees; current_index = 0 }

  unfoldable pub set_sender : Router R → Bool → Router R
  set_sender r has_sender = record r { has_sender = has_sender }

module _ {R M : Type 0} where
  -- Send to the routee at an index, if there is a sender and the index is in range.
  abbrev pub send_to : Router R → ℕ → M → List (R × M)
  send_to r index message =
      if r.has_sender
      then elim (get_elem? r.routees index) [ none ↦ [] | some routee ↦ (routee, message) ∷ [] ]
      else []

  unfoldable pub broadcast : Router R → M → List (R × M)
  broadcast r message = if r.has_sender then map (λ routee. (routee, message)) r.routees else []

  unfoldable pub round_robin : Router R → M → Router R × List (R × M)
  round_robin r message = elim r.routees [
    | [] ↦ (r, [])
    | first ∷ others ↦
        let size = length r.routees in
        let index = not_negative (int_rem (to_int r.current_index) size) size in
        (record r { current_index = (r.current_index + 1) % 2 ^ 32 }, send_to r index message)
  ]

  -- `dis` is what the distribution on 0 .. size - 1 draws.
  unfoldable pub random : (ℕ → ℕ) → Router R → M → List (R × M)
  random dis r message = elim r.routees [
    | [] ↦ []
    | first ∷ others ↦ send_to r (dis (length r.routees)) message
  ]

  -- `hash` is std::hash of the message pointer. The index is an `int`.
  unfoldable pub consistent_hash : (M → ℕ) → Router R → M → List (R × M)
  consistent_hash hash r message = elim r.routees [
    | [] ↦ []
    | first ∷ others ↦ send_to r (hash message % length r.routees) message
  ]
