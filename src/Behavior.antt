-- ===== src/Behavior.antt =====
-- src/actor/behavior.cpp: Behavior, the stack of what an actor does with a message. `F` is a receive
-- function; a null one is `none`. The last of the vector is the head of the list.
pub mod Stack
mod Examples
use protoactor_cpp.Base.{ℕ, Option, none, some, List, [], ◌∷◌, length}

abbrev pub Behavior : Type 0 → Type 0
Behavior F = List (Option F)

-- The behaviour that Receive calls, or the exception.
pub data Received (F : Type 0) : Type 0 where
  calls : F → Received F
  throws : Received F

module _ {F : Type 0} where
  abbrev pub new_behavior : Behavior F
  new_behavior = []

  unfoldable pub clear : Behavior F → Behavior F
  clear behaviors = []

  unfoldable pub peek : Behavior F → Option F
  peek [] = none
  peek (receive ∷ rest) = receive

  unfoldable pub push : Option F → Behavior F → Behavior F
  push receive behaviors = receive ∷ behaviors

  unfoldable pub pop : Behavior F → Behavior F
  pop [] = []
  pop (receive ∷ rest) = rest

  unfoldable pub become : Option F → Behavior F → Behavior F
  unfolding clear push
  become receive behaviors = push receive (clear behaviors)

  unfoldable pub become_stacked : Option F → Behavior F → Behavior F
  unfolding push
  become_stacked receive behaviors = push receive behaviors

  unfoldable pub unbecome_stacked : Behavior F → Behavior F
  unfolding pop
  unbecome_stacked behaviors = pop behaviors

  abbrev called : Option F → Received F
  called none = throws
  called (some f) = calls f

  unfoldable pub receive_with : Behavior F → Received F
  unfolding peek
  receive_with behaviors = called (peek behaviors)

  unfoldable pub behavior_length : Behavior F → ℕ
  behavior_length behaviors = length behaviors
