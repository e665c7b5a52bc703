-- ===== src/TestProbe.antt =====
-- src/testkit/testprobe.cpp: TestProbe, the actor that collects messages for a test, and
-- Await::Condition. A loop that polls runs on fuel, a number of polls; `elapsed i` is what the clock
-- shows since the start at poll i, and `arrivals i` what came in since the poll before.
pub mod Expecting
mod Examples
use protoactor_cpp.Base.{
  ℕ, zero, suc, ◌+◌, Bool, true, false, Option, none, some, List, [], ◌∷◌, ◌++◌, leb, if◌then◌else◌,
}
use protoactor_cpp.Messages.{Msg, started}

-- ExpectMsg has found a message, has thrown or still polls; with the messages that are left.
pub data Expected (M : Type 0) : Type 0 where
  found : M → List M → Expected M
  timed_out : List M → Expected M
  polling : List M → Expected M

module _ {M : Type 0} where
  unfoldable pub on_message : M → List M → List M
  on_message m messages = messages ++ m ∷ []

  -- One look at the front of the queue: the message and the rest.
  unfoldable pub front_matches : (M → Bool) → List M → Option (M × List M)
  front_matches predicate [] = none
  front_matches predicate (m ∷ ms) = if predicate m then some (m, ms) else none

  -- The loop from poll `i` on.
  unfoldable pub expect_from : (M → Bool) → (ℕ → ℕ) → ℕ → (ℕ → List M) → ℕ → ℕ → List M → Expected M
  unfolding front_matches
  expect_from predicate elapsed timeout arrivals i zero messages = polling messages
  expect_from predicate elapsed timeout arrivals i (suc polls) messages =
      let messages' = messages ++ arrivals i in
      let rest = expect_from predicate elapsed timeout arrivals (suc i) polls messages' in
      elim (front_matches predicate messages') [
        | some (m, ms) ↦ found m ms
        | none ↦ if leb timeout (elapsed i) then timed_out messages' else rest
      ]

  unfoldable pub expect_msg : (M → Bool) → (ℕ → ℕ) → ℕ → (ℕ → List M) → ℕ → List M → Expected M
  unfolding expect_from
  expect_msg predicate elapsed timeout arrivals polls messages =
      expect_from predicate elapsed timeout arrivals 0 polls messages

  abbrev is_nonempty : List M → Bool
  is_nonempty [] = false
  is_nonempty (m ∷ ms) = true

  -- Whether it throws, after what came in while it slept.
  unfoldable pub expect_no_msg : List M → List M → Bool
  expect_no_msg arrived messages = is_nonempty (messages ++ arrived)

  unfoldable pub get_all_messages : List M → List M
  get_all_messages messages = messages

  unfoldable pub clear_messages : List M → List M
  clear_messages messages = []

-- Receive of the probe's actor: a null message and Started are dropped.
unfoldable pub receive_probe : {P : Type 0} → Option (Msg P) → List (Msg P) → List (Msg P)
unfolding on_message
receive_probe none messages = messages
receive_probe (some started) messages = messages
receive_probe (some m) messages = on_message m messages

-- The loop of Await::Condition from poll `i` on; `none` if it still polls.
unfoldable pub await_condition : (ℕ → Bool) → (ℕ → ℕ) → ℕ → ℕ → ℕ → Option Bool
await_condition condition elapsed timeout i zero = none
await_condition condition elapsed timeout i (suc polls) =
    let rest = await_condition condition elapsed timeout (suc i) polls in
    if condition i then some true else if leb timeout (elapsed i) then some false else rest
