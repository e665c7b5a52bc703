-- ===== src/Middleware.antt =====
-- src/actor/middleware_chain.cpp: the chain of handlers that a list of middleware makes. The four
-- functions of the file are one, at four types of handler `H`.
mod Examples
use protoactor_cpp.Base.{
  ℕ, zero, suc, ◌+◌, ◌-◌, ◌<◌, ◌≤◌, ◌≡◌, refl, ap, sym, ◌∙◌, Option, none, some, List, [], ◌∷◌,
  ◌++◌, length, length-append, get_elem?, arith,
}

module _ {H : Type 0} where
  abbrev apply_or : Option (H → H) → H → H
  apply_or none h = h
  apply_or (some middleware) h = middleware h

  -- The loop from `i - 1` down to 0.
  unfoldable pub wrap_down : List (H → H) → ℕ → H → H
  wrap_down middleware zero h = h
  wrap_down middleware (suc i) h = wrap_down middleware i (apply_or (get_elem? middleware i) h)

  unfoldable pub make_chain : List (H → H) → H → H
  unfolding wrap_down
  make_chain [] last = last
  make_chain (m ∷ ms) last =
      let size = length (m ∷ ms) in
      wrap_down (m ∷ ms) (size - 1) (apply_or (get_elem? (m ∷ ms) (size - 1)) last)

  -- The first middleware around the second, and so on, around the last handler.
  abbrev pub nested : List (H → H) → H → H
  nested [] last = last
  nested (m ∷ ms) last = m (nested ms last)

  wrap_down_step :
      (m : H → H) (ms : List (H → H)) (i : ℕ) (h : H)
      → wrap_down (m ∷ ms) (suc i) h ≡ m (wrap_down ms i h)
  unfolding wrap_down
  wrap_down_step m ms zero h = refl
  wrap_down_step m ms (suc i) h = wrap_down_step m ms i (apply_or (get_elem? ms i) h)

  wrap_down-nested : (ms : List (H → H)) (h : H) → wrap_down ms (length ms) h ≡ nested ms h
  unfolding wrap_down
  wrap_down-nested [] h = refl
  wrap_down-nested (m ∷ ms) h = wrap_down_step m ms (length ms) h ∙ ap m (wrap_down-nested ms h)

  -- The loop, which runs over the list from its end, nests the middleware in the order of the list:
  -- the first is the outermost, and the given handler is inside of all.
  pub make_chain-nested : (ms : List (H → H)) (last : H) → make_chain ms last ≡ nested ms last
  unfolding make_chain wrap_down
  make_chain-nested [] last = refl
  make_chain-nested (m ∷ ms) last =
      let e : suc (length ms) - 1 ≡ length ms = omega arith in rw e (wrap_down-nested (m ∷ ms) last)
