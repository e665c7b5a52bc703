-- ===== src/Mailbox/Schedule.antt =====
-- Schedules of the mailbox's threads that can be run: who posts, and which thread makes a step.
use mathlib.Core.List.{append_assoc, append-nil}
use mathlib.Core.Path.{subst}
use protoactor_cpp.Base.{false, ℕ, zero, suc, ◌≡◌, refl, ◌∙◌, List, [], ◌∷◌, ◌++◌}
use protoactor_cpp.Mailbox.{
  Mailbox, Thread, push_user, push_sys, System, run_thread, post_user, post_sys, run, Reach, next,
}

pub data Move (M : Type 0) : Type 0 where
  posts_user : M → Move M
  posts_sys : M → Move M
  -- The thread at this index makes its step; past the end nothing happens.
  steps : ℕ → Move M

module _ {M : Type 0} (throughput : ℕ) where
  unfoldable pub step_at : Mailbox M → List (Thread M) → ℕ → List (Thread M) → System M
  step_at b xs n [] = record { mailbox = b; threads = xs }
  step_at b xs zero (th ∷ ys) = run_thread throughput false b xs th ys
  step_at b xs (suc n) (th ∷ ys) = step_at b (xs ++ th ∷ []) n ys

  unfoldable pub move : System M → Move M → System M
  unfolding step_at
  move s (posts_user m) = record s { threads = push_user m ∷ s.threads }
  move s (posts_sys m) = record s { threads = push_sys m ∷ s.threads }
  move s (steps n) = step_at s.mailbox [] n s.threads

  unfoldable pub play : System M → List (Move M) → System M
  unfolding move
  play s [] = s
  play s (mv ∷ mvs) = play (move s mv) mvs

  step_at-Reach :
      (s t : System M) (xs : List (Thread M)) (n : ℕ) (ys : List (Thread M))
      → t.threads ≡ xs ++ ys
      → Reach throughput s t
      → Reach throughput s (step_at t.mailbox xs n ys)
  unfolding step_at
  step_at-Reach s t xs n [] e r =
      subst (λ ths. Reach throughput s (record { mailbox = t.mailbox; threads = ths }))
        (e ∙ append-nil xs) r
  step_at-Reach s t xs zero (th ∷ ys) e r = next r (run t false xs th ys e)
  step_at-Reach s t xs (suc n) (th ∷ ys) e r =
      step_at-Reach s t (xs ++ th ∷ []) n ys (rw append_assoc e) r

  move-Reach :
      (s t : System M) (mv : Move M) → Reach throughput s t → Reach throughput s (move t mv)
  unfolding move
  move-Reach s t (posts_user m) r = next r (post_user t m)
  move-Reach s t (posts_sys m) r = next r (post_sys t m)
  move-Reach s t (steps n) r = step_at-Reach s t [] n t.threads refl r

  -- Every schedule is a run of the step relation.
  pub play-Reach :
      (s t : System M) (mvs : List (Move M))
      → Reach throughput s t
      → Reach throughput s (play t mvs)
  unfolding play
  play-Reach s t [] r = r
  play-Reach s t (mv ∷ mvs) r = play-Reach s (move t mv) mvs (move-Reach s t mv r)
