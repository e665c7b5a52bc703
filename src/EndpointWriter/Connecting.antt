-- ===== src/EndpointWriter/Connecting.antt =====
-- How a writer connects (endpoint_writer.cpp).
use protoactor_cpp.Base.{
  ℕ, zero, suc, ◌+◌, ◌<◌, ◌≤◌, ◌≡◌, ◌⊎◌, inl, inr, refl, Bool, true, false, arith, Bool-cases, eqb,
  eqb_iff,
}
use protoactor_cpp.EndpointWriter.{Attempt, initialize_internal, stream_after, try_connect}

-- Of the attempts from `start` on, `result` tells the first that connects, if one of the next
-- `retries` does.
abbrev pub Outcome : (ℕ → Attempt) → ℕ → ℕ → Bool → ℕ → Type 0
Outcome attempts start retries connected made =
    ((i : ℕ) × (start ≤ i)
      × (i < start + retries)
      × (initialize_internal (attempts i) ≡ true)
      × ((j : ℕ) → start ≤ j → j < i → initialize_internal (attempts j) ≡ false)
      × (connected ≡ true)
      × (made ≡ i + 1))
    ⊎ (((j : ℕ) → start ≤ j → j < start + retries → initialize_internal (attempts j) ≡ false)
        × (connected ≡ false)
        × (made ≡ start + retries))

try_connect-true :
    (attempts : ℕ → Attempt) (start retries : ℕ) (stream : Bool)
    → initialize_internal (attempts start) ≡ true
    → try_connect attempts start (suc retries) stream
      ≡ (true, start + 1, stream_after (attempts start) stream)
unfolding try_connect
try_connect-true attempts start retries stream h = ground (arith, h)

try_connect-false :
    (attempts : ℕ → Attempt) (start retries : ℕ) (stream : Bool)
    → initialize_internal (attempts start) ≡ false
    → try_connect attempts start (suc retries) stream
      ≡ try_connect attempts (start + 1) retries (stream_after (attempts start) stream)
unfolding try_connect
try_connect-false attempts start retries stream h = ground (arith, h)

fails_at :
    (attempts : ℕ → Attempt) (start j : ℕ)
    → start ≤ j
    → initialize_internal (attempts start) ≡ false
    → (start + 1 ≤ j → initialize_internal (attempts j) ≡ false)
    → initialize_internal (attempts j) ≡ false
fails_at attempts start j le first later = elim (Bool-cases (eqb start j)) [
  | inl same ↦ rw⁻¹ ((eqb_iff start j).0 same) first
  | inr other ↦ later (ground (arith, le, other))
]

Outcome-suc :
    (attempts : ℕ → Attempt) (start retries : ℕ) (connected : Bool) (made : ℕ)
    → initialize_internal (attempts start) ≡ false
    → Outcome attempts (start + 1) retries connected made
    → Outcome attempts start (suc retries) connected made
Outcome-suc attempts start retries connected made fails (inl (i, le, lt, here, before, c, m)) =
    inl (
      i,
      omega arith,
      omega arith,
      here,
      λ j from to. fails_at attempts start j from fails (λ later. before j later to),
      c,
      m,
    )
Outcome-suc attempts start retries connected made fails (inr (all, c, m)) = inr (
  λ j from to. fails_at attempts start j from fails (λ later. all j later (omega arith)),
  c,
  omega (arith, m),
)

connects_from :
    (attempts : ℕ → Attempt) (start retries : ℕ) (stream : Bool)
    → let (connected, made, _) = try_connect attempts start retries stream in
      Outcome attempts start retries connected made
connects_from attempts start zero stream =
    unfold try_connect in inr (λ j le lt. absurd (omega arith), refl, omega arith)
connects_from attempts start (suc retries) stream =
    let later =
      Outcome-suc attempts start retries
        (try_connect attempts (start + 1) retries (stream_after (attempts start) stream)).0
        (try_connect attempts (start + 1) retries (stream_after (attempts start) stream)).1 in
    let rest = connects_from attempts (start + 1) retries (stream_after (attempts start) stream) in
    elim (Bool-cases (initialize_internal (attempts start))) [
      | inl now ↦
          rw (try_connect-true attempts start retries stream now) (
            inl (start, omega arith, omega arith, now, λ j le lt. absurd (omega arith), refl, refl))
      | inr fails ↦ rw (try_connect-false attempts start retries stream fails) (later fails rest)
    ]

-- Initialize makes at most max_retry_count attempts and ends: if one of them connects, the first
-- that does is the last made and the writer is connected; if none does, it makes them all.
pub try_connect-Outcome :
    (attempts : ℕ → Attempt) (max_retry_count : ℕ) (stream : Bool)
    → let (connected, made, _) = try_connect attempts 0 max_retry_count stream in
      Outcome attempts 0 max_retry_count connected made
try_connect-Outcome attempts max_retry_count stream =
    connects_from attempts 0 max_retry_count stream
