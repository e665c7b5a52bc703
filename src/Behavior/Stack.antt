-- ===== src/Behavior/Stack.antt =====
-- Histories of behaviours (behavior.cpp).
use protoactor_cpp.Base.{◌≡◌, refl, ap, ◌∙◌, some, List, [], ◌∷◌, ◌++◌}
use protoactor_cpp.Behavior.{
  Behavior, clear, push, pop, peek, become, become_stacked, unbecome_stacked, calls, throws,
  receive_with, behavior_length,
}

pub data Call (F : Type 0) : Type 0 where
  becomes stacks : F → Call F
  unstacks : Call F

module _ {F : Type 0} where
  abbrev handle : Call F → Behavior F → Behavior F
  handle (becomes f) b = become (some f) b
  handle (stacks f) b = become_stacked (some f) b
  handle unstacks b = unbecome_stacked b

  unfoldable pub run : List (Call F) → Behavior F → Behavior F
  run [] b = b
  run (c ∷ cs) b = run cs (handle c b)

  -- Calls in which every BecomeStacked is taken back, and nothing else is.
  pub data Balanced : List (Call F) → Type 0 where
    nothing : Balanced []
    nested :
        (f : F) (inner later : List (Call F))
        → Balanced inner
        → Balanced later
        → Balanced (stacks f ∷ (inner ++ unstacks ∷ later))

  pub run-append : (cs ds : List (Call F)) (b : Behavior F) → run (cs ++ ds) b ≡ run ds (run cs b)
  unfolding run
  run-append [] ds b = refl
  run-append (c ∷ cs) ds b = run-append cs ds (handle c b)

  -- Balanced calls leave the stack as it was.
  pub run-Balanced : (cs : List (Call F)) (b : Behavior F) → Balanced cs → run cs b ≡ b
  unfolding run become_stacked push unbecome_stacked pop
  run-Balanced [] b nothing = refl
  run-Balanced _ b (nested f inner later bi bl) =
      run-append inner (unstacks ∷ later) (some f ∷ b)
      ∙ ap (λ s. run later (unbecome_stacked s)) (run-Balanced inner (some f ∷ b) bi)
      ∙ run-Balanced later b bl

  -- After any calls, Become, and balanced calls, an actor does what Become gave, and one
  -- UnbecomeStacked later it has no behaviour: Receive throws.
  pub become_lem :
      (cs ds : List (Call F)) (f : F) (b : Behavior F)
      → Balanced ds
      → let b' = run (cs ++ becomes f ∷ ds) b in
        (receive_with b' ≡ calls f)
        × (behavior_length b' ≡ 1)
        × (receive_with (unbecome_stacked b') ≡ throws)
  unfolding run become clear push receive_with peek behavior_length unbecome_stacked pop
  become_lem cs ds f b balanced =
      rw (run-append cs (becomes f ∷ ds) b, run-Balanced ds (some f ∷ []) balanced)
        (refl, refl, refl)
