-- ===== src/Context/Stash.antt =====
-- The stash (actor_context.cpp, Stash, UnstashAll and the end of HandleRestart): a stack.
use protoactor_cpp.Base.{
  ℕ, zero, suc, ◌<◌, ◌≡◌, refl, ◌∙◌, false, Option, none, some, List, [], ◌∷◌, ◌++◌, reverse,
  append_assoc, arith, length, ap, sym,
}
use mathlib.Core.List.{reverse-cons}
use protoactor_cpp.Messages.{Msg}
use protoactor_cpp.Context.{Context}
use protoactor_cpp.Context.Invoke.{
  is_stopped, invoke_user_message, stash_of, with_stash, stash, drain_stash, unstash_all,
}

reversed :
    {A : Type 0} (m : A) (ms rest : List A) → reverse (m ∷ ms) ++ rest ≡ reverse ms ++ m ∷ rest
reversed m ms rest =
    ap (λ l. l ++ rest) (reverse-cons m ms) ∙ append_assoc (reverse ms) (m ∷ []) rest

module _ {A P : Type 0} where
  -- The messages stashed one after the other, each while it is the message that is handled.
  abbrev pub stash_each : Context A P → List (Option (Msg P)) → Context A P
  stash_each c [] = c
  stash_each c (m ∷ ms) = stash_each (stash (record c { message_or_envelope = m })) ms

  stash_of-stash_each :
      (c : Context A P) (ms : List (Option (Msg P)))
      → stash_of (stash_each c ms) ≡ reverse ms ++ stash_of c
  unfolding stash
  stash_of-stash_each c [] = refl
  stash_of-stash_each c (m ∷ ms) =
      stash_of-stash_each (stash (record c { message_or_envelope = m })) ms
      ∙ sym (reversed m ms (stash_of c))

module _ {A P : Type 0} (receive : Context A P → Context A P) (fresh : A)
    (chain : Option (Option (Msg P) → Context A P → Context A P)) where
  abbrev invoke : Context A P → Option (Msg P) → Context A P
  invoke = invoke_user_message receive fresh chain

  -- The messages handled one after the other, with the given stash left behind.
  abbrev pub invoke_each : Context A P → List (Option (Msg P)) → Context A P
  invoke_each c [] = c
  invoke_each c (m ∷ ms) = invoke_each (invoke (with_stash c ms) m) ms

  -- An actor that leaves the stash alone while it handles what was stashed.
  abbrev pub LeavesStash : Type 0
  LeavesStash =
      (c : Context A P) (m : Option (Msg P))
      → stash_of (invoke_user_message receive fresh chain c m) ≡ stash_of c

  drain_step :
      (fuel : ℕ) (c : Context A P) (m : Option (Msg P)) (ms : List (Option (Msg P)))
      → stash_of c ≡ m ∷ ms
      → drain_stash receive fresh chain (suc fuel) c
        ≡ drain_stash receive fresh chain fuel (invoke (with_stash c ms) m)
  unfolding drain_stash
  drain_step fuel c m ms e = ground arith

  drain_end :
      (fuel : ℕ) (c : Context A P)
      → stash_of c ≡ []
      → drain_stash receive fresh chain (suc fuel) c ≡ some c
  unfolding drain_stash
  drain_end fuel c e = ground arith

  pub drain_lifo :
      (fuel : ℕ) (c : Context A P) (ms : List (Option (Msg P)))
      → LeavesStash
      → stash_of c ≡ ms
      → length ms < fuel
      → (drain_stash receive fresh chain fuel c ≡ some (invoke_each c ms))
        × (stash_of (invoke_each c ms) ≡ [])
  drain_lifo zero c ms leaves e h = absurd (omega arith)
  drain_lifo (suc fuel) c [] leaves e h = (drain_end fuel c e, e)
  drain_lifo (suc fuel) c (m ∷ ms) leaves e h =
      let (ends, empty) =
        drain_lifo fuel (invoke (with_stash c ms) m) ms leaves (leaves (with_stash c ms) m)
          (omega arith) in
      (drain_step fuel c m ms e ∙ ends, empty)

  -- For an actor that leaves the stash alone while it handles what was stashed: once some messages
  -- have been stashed one after the other, UnstashAll ends, after a round for each stashed message;
  -- it handles these messages in the reverse order, last first, then what was in the stash before
  -- them, and leaves the stash empty.
  pub unstash_all_lifo :
      (fuel : ℕ) (c : Context A P) (ms : List (Option (Msg P)))
      → LeavesStash
      → length (reverse ms ++ stash_of c) < fuel
      → let handled = invoke_each (stash_each c ms) (reverse ms ++ stash_of c) in
        (unstash_all receive fresh chain fuel (stash_each c ms) ≡ some handled)
        × (stash_of handled ≡ [])
  unfolding unstash_all
  unstash_all_lifo fuel c ms leaves h =
      drain_lifo fuel (stash_each c ms) (reverse ms ++ stash_of c) leaves (stash_of-stash_each c ms)
        h

  -- An actor that stashes each message that it is given while it is not stopped: UnstashAll never
  -- ends, whatever fuel it is given, once there is something in the stash.
  pub unstash_all_loops :
      (fuel : ℕ) (c : Context A P) (m : Option (Msg P)) (ms : List (Option (Msg P)))
      → ((c : Context A P) (m : Option (Msg P))
          → is_stopped c.state ≡ false
          → (stash_of (invoke_user_message receive fresh chain c m) ≡ m ∷ stash_of c)
            × (is_stopped (invoke_user_message receive fresh chain c m).state ≡ false))
      → is_stopped c.state ≡ false
      → stash_of c ≡ m ∷ ms
      → unstash_all receive fresh chain fuel c ≡ none
  unfolding unstash_all drain_stash
  unstash_all_loops zero c m ms stashes runs e = refl
  unstash_all_loops (suc fuel) c m ms stashes runs e =
      let (again, runs') = stashes (with_stash c ms) m runs in
      drain_step fuel c m ms e
      ∙ unstash_all_loops fuel (invoke (with_stash c ms) m) m ms stashes runs' again
