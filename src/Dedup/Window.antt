-- ===== src/Dedup/Window.antt =====
-- Which messages get through (deduplication_context.cpp).
use protoactor_cpp.Base.{
  Distinct, Distinct-insert, ℕ, zero, suc, ◌-◌, ◌/◌, ◌≤◌, ◌≡◌, refl, sym, ap, ◌∙◌, Bool, true,
  false, ◌||◌, Option, none, some, List, [], ◌∷◌, Bytes, bytes_eq, bytes_beq, bytes_beq_iff, lookup,
  insert, lookup-insert, if◌then◌else◌, arith, Bool-cases, Option-cases, inl, inr, lt→ltb, ltb→lt,
}
use native.Mathlib.Nat.{div-zero, div-mul-le_self, le-div_iff_mul-le}
use protoactor_cpp.Dedup.{Seen, fresh, cleanup, is_empty, decide, should_process, passed_on}

abbrev if_fresh : ℕ → ℕ → ℕ → Option ℕ → Option ℕ
if_fresh ticks ttl now none = none
if_fresh ticks ttl now (some t) = if fresh ticks ttl now t then some t else none

lookup-cleanup-none :
    (ticks ttl now : ℕ) (key : Bytes) (seen : Seen)
    → lookup key seen ≡ none
    → lookup key (cleanup ticks ttl now seen) ≡ none
unfolding cleanup lookup
lookup-cleanup-none ticks ttl now key [] h = refl
lookup-cleanup-none ticks ttl now key (entry ∷ seen) h =
    ground (arith, lookup-cleanup-none ticks ttl now key seen)

lookup-cleanup :
    (ticks ttl now : ℕ) (key : Bytes) (seen : Seen)
    → Distinct seen
    → lookup key (cleanup ticks ttl now seen) ≡ if_fresh ticks ttl now (lookup key seen)
unfolding cleanup lookup
lookup-cleanup ticks ttl now key [] h = refl
lookup-cleanup ticks ttl now key (entry ∷ seen) h = ground (
  arith,
  lookup-cleanup ticks ttl now key seen h.1,
  lookup-cleanup-none ticks ttl now key seen,
  bytes_beq_iff entry.0 key,
  h.0,
)

Distinct-cleanup :
    (ticks ttl now : ℕ) (seen : Seen) → Distinct seen → Distinct (cleanup ticks ttl now seen)
unfolding cleanup
Distinct-cleanup ticks ttl now [] h = tt
Distinct-cleanup ticks ttl now (entry ∷ seen) h = ground (
  arith,
  Distinct-cleanup ticks ttl now seen h.1,
  lookup-cleanup-none ticks ttl now entry.0 seen h.0,
)

div_le : (k m n : ℕ) → m ≤ n → m / k ≤ n / k
div_le zero m n h = omega (arith, div-zero m, div-zero n)
div_le (suc k) m n h =
    (le-div_iff_mul-le {k = suc k} {x = m / suc k} {y = n} (omega arith)).1
      (omega (arith, div-mul-le_self m (suc k)))

fresh_earlier :
    (ticks ttl now later t : ℕ)
    → now ≤ later
    → fresh ticks ttl later t ≡ true
    → fresh ticks ttl now t ≡ true
fresh_earlier ticks ttl now later t le h =
    let lt = ltb→lt ((later - t) / ticks) ttl h in
    let less = div_le ticks (now - t) (later - t) (omega arith) in
    lt→ltb ((now - t) / ticks) ttl (omega arith)

if_fresh_twice :
    (ticks ttl now later : ℕ) (o : Option ℕ)
    → now ≤ later
    → if_fresh ticks ttl later (if_fresh ticks ttl now o) ≡ if_fresh ticks ttl later o
if_fresh_twice ticks ttl now later none le = refl
if_fresh_twice ticks ttl now later (some t) le = elim (Bool-cases (fresh ticks ttl now t)) [
  | inl now_fresh ↦ rw now_fresh refl
  | inr now_old ↦ elim (Bool-cases (fresh ticks ttl later t)) [
    | inl later_fresh ↦ ground (arith, fresh_earlier ticks ttl now later t le later_fresh)
    | inr later_old ↦ rw (now_old, later_old) refl
  ]
]

module _ (ticks ttl : ℕ) where
  -- From `now` on the table and the exact history answer alike.
  abbrev Agrees : ℕ → Seen → (Bytes → Option ℕ) → Type 0
  Agrees now seen last =
      (later : ℕ) (key : Bytes)
      → now ≤ later
      → if_fresh ticks ttl later (lookup key seen) ≡ if_fresh ticks ttl later (last key)

  -- The history in which a key was met just now.
  abbrev pub met : Bytes → ℕ → (Bytes → Option ℕ) → Bytes → Option ℕ
  met key now last other = if bytes_beq key other then some now else last other

  Agrees-cleanup :
      (now now' : ℕ) (seen : Seen) (last : Bytes → Option ℕ)
      → now ≤ now'
      → Distinct seen
      → Agrees now seen last
      → Agrees now' (cleanup ticks ttl now' seen) last
  Agrees-cleanup now now' seen last le distinct agrees later key le' =
      ap (if_fresh ticks ttl later) (lookup-cleanup ticks ttl now' key seen distinct)
      ∙ if_fresh_twice ticks ttl now' later (lookup key seen) le'
      ∙ agrees later key (omega arith)

  Agrees-insert :
      (now : ℕ) (key : Bytes) (seen : Seen) (last : Bytes → Option ℕ)
      → Agrees now seen last
      → Agrees now (insert key now seen) (met key now last)
  Agrees-insert now key seen last agrees later other le =
      ground (arith, lookup-insert key other now seen, agrees later other le)

  if_fresh-now :
      (now : ℕ) (o : Option ℕ) (t : ℕ)
      → if_fresh ticks ttl now o ≡ some t
      → fresh ticks ttl now t ≡ true
  if_fresh-now now none t h = cc
  if_fresh-now now (some t') t h = ground arith

  abbrev is_none : Option ℕ → Bool
  is_none none = true
  is_none (some t) = false

  -- A message is due if it has no key, or its key was not met within the window.
  abbrev pub due : ℕ → Bytes → (Bytes → Option ℕ) → Bool
  due now key last = is_empty key || is_none (if_fresh ticks ttl now (last key))

  abbrev pub met_if_key : Bytes → ℕ → (Bytes → Option ℕ) → Bytes → Option ℕ
  met_if_key key now last = if is_empty key then last else met key now last

  module _ {M : Type 0} (dedup : M → Bytes) where
    -- The messages that are due, for an exact history of the keys.
    unfoldable pub due_ones : (Bytes → Option ℕ) → List (ℕ × M) → List (ℕ × M)
    due_ones last [] = []
    due_ones last ((now, m) ∷ ms) =
        let rest = due_ones (met_if_key (dedup m) now last) ms in
        if due now (dedup m) last then (now, m) ∷ rest else rest

    -- The times do not go back.
    abbrev pub InOrder : ℕ → List (ℕ × M) → Type 0
    InOrder now [] = Unit
    InOrder now ((later, m) ∷ ms) = (now ≤ later) × InOrder later ms

    should_process-due :
        (now now' : ℕ) (seen : Seen) (last : Bytes → Option ℕ) (m : M)
        → now ≤ now'
        → Distinct seen
        → Agrees now seen last
        → let (seen', process) = should_process ticks dedup ttl now' (some m) seen in
          (process ≡ due now' (dedup m) last)
          × Distinct seen'
          × Agrees now' seen' (met_if_key (dedup m) now' last)
    unfolding should_process decide
    should_process-due now now' seen last m le distinct agrees =
        let kept = cleanup ticks ttl now' seen in
        let distinct' = Distinct-cleanup ticks ttl now' seen distinct in
        let agrees' = Agrees-cleanup now now' seen last le distinct agrees in
        let found =
          lookup-cleanup ticks ttl now' (dedup m) seen distinct ∙ agrees now' (dedup m) le in
        elim (Bool-cases (is_empty (dedup m))) [
          | inl no_key ↦ rw no_key (refl, distinct', agrees')
          | inr key ↦ elim (Option-cases (lookup (dedup m) kept)) [
            | inl unmet ↦ rw (key, unmet, sym found ∙ unmet) (refl, written.0, written.1)
            | inr (t, at) ↦
                let again = if_fresh-now now' (last (dedup m)) t (sym found ∙ at) in
                rw (key, at, sym found ∙ at, decide, again) (refl, written.0, written.1)
          ]
        ]
      where
        written :
            Distinct (insert (dedup m) now' (cleanup ticks ttl now' seen))
            × Agrees now'
                (insert (dedup m) now' (cleanup ticks ttl now' seen))
                (met (dedup m) now' last)
        written = (
          Distinct-insert (dedup m) now' (cleanup ticks ttl now' seen)
              (Distinct-cleanup ticks ttl now' seen distinct),
          Agrees-insert now' (dedup m) (cleanup ticks ttl now' seen) last
              (Agrees-cleanup now now' seen last le distinct agrees),
        )

    passed_on-agreeing :
        (now : ℕ) (seen : Seen) (last : Bytes → Option ℕ) (ms : List (ℕ × M))
        → Distinct seen
        → Agrees now seen last
        → InOrder now ms
        → passed_on ticks dedup ttl seen ms ≡ due_ones last ms
    unfolding passed_on due_ones
    passed_on-agreeing now seen last [] distinct agrees order = refl
    passed_on-agreeing now seen last ((now', m) ∷ ms) distinct agrees order =
        let (same, distinct', agrees') =
          should_process-due now now' seen last m order.0 distinct agrees in
        let rest =
          passed_on-agreeing now' (should_process ticks dedup ttl now' (some m) seen).0
            (met_if_key (dedup m) now' last) ms distinct' agrees' order.1 in
        rw (same, rest) refl

    -- For messages whose times do not go back, through a new middleware: exactly those get through
    -- that have no key, or whose key no message before has had within the window, counted from the
    -- latest such message, dropped ones included. That old entries are cleaned up changes nothing.
    pub passed_on-due :
        (ms : List (ℕ × M))
        → InOrder 0 ms
        → passed_on ticks dedup ttl [] ms ≡ due_ones (λ key. none) ms
    unfolding lookup
    passed_on-due ms order =
        passed_on-agreeing 0 [] (λ key. none) ms tt (λ later key le. refl) order
