-- ===== src/TestProbe/Expecting.antt =====
-- What ExpectMsg and Await::Condition (testprobe.cpp) find, and that they end.
use protoactor_cpp.Base.{
  ℕ, zero, suc, ◌+◌, ◌*◌, ◌≤◌, ◌<◌, ◌≡◌, ◌⊎◌, refl, eqb, eqb_iff, Bool, true, false, Option, some,
  List, [], ◌∷◌, ◌++◌, leb, if◌then◌else◌, arith, append_assoc, append-nil, sym, ap, Bool-cases,
  inl, inr,
}
use protoactor_cpp.TestProbe.{
  Expected, found, timed_out, polling, expect_msg, expect_from, front_matches, await_condition,
}

module _ {M : Type 0} where
  -- All that has arrived in `n` polls from `i` on.
  abbrev pub arrived : (ℕ → List M) → ℕ → ℕ → List M
  arrived arrivals i zero = []
  arrived arrivals i (suc n) = arrivals i ++ arrived arrivals (suc i) n

  abbrev pub is_polling : Expected M → Bool
  is_polling (found m ms) = false
  is_polling (timed_out ms) = false
  is_polling (polling ms) = true

  module _ (predicate : M → Bool) (elapsed : ℕ → ℕ) (timeout : ℕ) (arrivals : ℕ → List M)
      (slept : (j : ℕ) → j * 10 ≤ elapsed j) where
    -- One poll: the front decides, or the clock, or the loop goes on.
    expect_poll :
        (i polls : ℕ) (m : M) (ms : List M)
        → expect_from predicate elapsed timeout arrivals i (suc polls) (m ∷ ms) ≡ (
            if predicate m
            then found m (ms ++ arrivals i)
            else if leb timeout (elapsed i)
            then timed_out (m ∷ ms ++ arrivals i)
            else expect_from predicate elapsed timeout arrivals
                (suc i)
                polls
                (m ∷ ms ++ arrivals i))
    unfolding expect_from front_matches
    expect_poll i polls m ms = ground arith

    ends_from :
        (i polls : ℕ) (messages : List M)
        → i * 10 < timeout + 10
        → timeout + 10 ≤ (i + polls) * 10
        → is_polling (expect_from predicate elapsed timeout arrivals i polls messages) ≡ false
    unfolding expect_from front_matches
    ends_from i zero messages early enough = ground (arith, early, enough)
    ends_from i (suc polls) messages early enough =
        let messages' = messages ++ arrivals i in
        let later = ends_from (suc i) polls messages' in
        elim (Bool-cases (leb timeout (elapsed i))) [
          | inl late ↦ ground (arith, late)
          | inr soon ↦ ground (arith, soon, slept i, later)
        ]

    stuck_from :
        (i polls : ℕ) (m : M) (ms : List M)
        → predicate m ≡ false
        → i * 10 < timeout + 10
        → timeout + 10 ≤ (i + polls) * 10
        → (n : ℕ) × (expect_from predicate elapsed timeout arrivals i polls (m ∷ ms)
            ≡ timed_out (m ∷ ms ++ arrived arrivals i n))
    stuck_from i zero m ms other early enough = absurd (omega (arith, early, enough))
    stuck_from i (suc polls) m ms other early enough = elim (Bool-cases (leb timeout (elapsed i))) [
      | inl late ↦ (
        1,
        rw (expect_poll i polls m ms, other, late)
            (ap (λ xs. timed_out (m ∷ ms ++ xs)) (sym (append-nil (arrivals i)))),
      )
      | inr soon ↦
          let (n, later) =
            stuck_from (suc i) polls m (ms ++ arrivals i) other (ground (arith, soon, slept i))
              (ground (arith, enough)) in
          (
            suc n,
            rw (expect_poll i polls m ms, other, soon, later)
                (ap (λ xs. timed_out (m ∷ xs))
                  (append_assoc ms (arrivals i) (arrived arrivals (suc i) n))),
          )
    ]

    -- Polls are at least 10 ms apart, so that timeout / 10 + 1 of them are enough: ExpectMsg ends,
    -- whatever comes in. If the queue has a message at the start, that one decides: it is given if it
    -- matches, and else ExpectMsg times out, whatever comes in behind it, and nothing is taken.
    pub expect_msg-ends :
        (polls : ℕ) (messages : List M) (m : M) (ms : List M)
        → timeout + 10 ≤ polls * 10
        → (is_polling (expect_msg predicate elapsed timeout arrivals polls messages) ≡ false)
          × ((n : ℕ) × (expect_msg predicate elapsed timeout arrivals polls (m ∷ ms) ≡ (
                if predicate m
                then found m (ms ++ arrivals 0)
                else timed_out (m ∷ ms ++ arrived arrivals 0 n))))
    unfolding expect_msg
    expect_msg-ends zero messages m ms enough = absurd (omega (arith, enough))
    expect_msg-ends (suc polls) messages m ms enough = (
      ends_from 0 (suc polls) messages (omega arith) (omega (arith, enough)),
      elim (Bool-cases (predicate m)) [
        | inl matches ↦ (0, rw (expect_poll 0 polls m ms, matches) refl)
        | inr other ↦
            let (n, stuck) =
              stuck_from 0 (suc polls) m ms other (omega arith) (omega (arith, enough)) in
            (n, rw (stuck, other) refl)
      ],
    )

-- How a run of Await::Condition from poll `i` on comes out.
abbrev pub Awaited : (ℕ → Bool) → (ℕ → ℕ) → ℕ → ℕ → Option Bool → Type 0
Awaited condition elapsed timeout i result =
    (n : ℕ) × (i ≤ n)
    × ((j : ℕ) → i ≤ j → j < n → (condition j ≡ false) × (elapsed j < timeout))
    × (((condition n ≡ true) × (result ≡ some true))
        ⊎ ((condition n ≡ false) × (timeout ≤ elapsed n) × (result ≡ some false)))

await_from :
    (condition : ℕ → Bool) (elapsed : ℕ → ℕ) (timeout i polls : ℕ)
    → ((j : ℕ) → j * 10 ≤ elapsed j)
    → i * 10 < timeout + 10
    → timeout + 10 ≤ (i + polls) * 10
    → Awaited condition elapsed timeout i (await_condition condition elapsed timeout i polls)
unfolding await_condition
await_from condition elapsed timeout i zero slept early enough =
    absurd (omega (arith, early, enough))
await_from condition elapsed timeout i (suc polls) slept early enough =
    let later = await_from condition elapsed timeout (suc i) polls slept in
    elim (Bool-cases (condition i)) [
      | inl holds ↦ (
        i,
        omega arith,
        λ j from to. absurd (omega (arith, from, to)),
        inl (holds, ground (arith, holds)),
      )
      | inr fails ↦ elim (Bool-cases (leb timeout (elapsed i))) [
        | inl late ↦ (
          i,
          omega arith,
          λ j from to. absurd (omega (arith, from, to)),
          inr (fails, ground (arith, late), ground (arith, fails, late)),
        )
        | inr soon ↦
            let (n, le, before, ends) =
              later (ground (arith, soon, slept i)) (ground (arith, enough)) in
            (
              n,
              omega (arith, le),
              λ j from to. elim (Bool-cases (eqb i j)) [
                | inl same ↦ rw⁻¹ ((eqb_iff i j).0 same) (fails, ground (arith, soon))
                | inr other ↦ before j (ground (arith, from, other)) to
              ],
              ground (arith, fails, soon, ends),
            )
      ]
    ]

-- Await::Condition ends, if polls are at least 10 ms apart, and looks once at each poll: it is true if
-- the condition holds at a poll before which the time has not run out, and false after the first
-- poll that sees the time run out, if the condition holds neither there nor before.
pub await_condition-Awaited :
    (condition : ℕ → Bool) (elapsed : ℕ → ℕ) (timeout polls : ℕ)
    → ((j : ℕ) → j * 10 ≤ elapsed j)
    → timeout + 10 ≤ polls * 10
    → Awaited condition elapsed timeout 0 (await_condition condition elapsed timeout 0 polls)
await_condition-Awaited condition elapsed timeout polls slept enough =
    await_from condition elapsed timeout 0 polls slept (omega arith) (omega (arith, enough))
