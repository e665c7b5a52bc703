-- ===== src/Mailbox/RoundLimit.antt =====
-- The bound of 1000 rounds in ProcessMessages (mailbox.cpp). The test of the bound stands after
-- the CAS that takes the lock again, so the thread that meets it leaves with RUNNING set.

use protoactor_cpp.Base.{
  Bool, ℕ, zero, suc, incr, decr, ◌≤◌, ◌<◌, ◌≡◌, refl, ◌∙◌, List, [], ◌∷◌, ◌++◌, arith, lt→ltb, ltb,
  true, pos,
}
use protoactor_cpp.Mailbox.Threads.{total_split}
use protoactor_cpp.Mailbox.Exclusion.{holds, locked-le, Locks, Step-Locks, Reach-Locks}
use protoactor_cpp.Mailbox.Schedule.{Move, posts_user, steps, play, play-Reach}
use protoactor_cpp.Mailbox.{
  running, Mailbox, Thread, push_user, loop, advance, max_rounds, System, run_thread, Step,
  post_user, post_sys, run, Reach, here, next, start, new_mailbox, register_handlers,
}

module _ {M : Type 0} where
  -- Some thread ended with RUNNING set: nothing is passed on any more.
  pub record Stranded (user sys : List M) (s : System M) : Type 0 where
    pub locks : Locks s
    pub gone : 1 ≤ s.mailbox.lost_locks
    pub user_frozen : s.mailbox.invoked_user ≡ user
    pub sys_frozen : s.mailbox.invoked_sys ≡ sys

  -- A thread outside the lock passes nothing on.
  outside_frozen :
      (throughput : ℕ) (throws : Bool) (b : Mailbox M) (th : Thread M)
      → holds th ≡ 0
      → let (b', ths) = advance throughput throws b th in
        (b'.invoked_user ≡ b.invoked_user)
        × (b'.invoked_sys ≡ b.invoked_sys)
        × (b.lost_locks ≤ b'.lost_locks)
  unfolding advance
  outside_frozen t throws b (push_user m) h = ground arith
  outside_frozen t throws b th h = ground arith

  run_thread-Stranded :
      (throughput : ℕ) (user sys : List M) (throws : Bool) (b : Mailbox M) (xs : List (Thread M))
      (th : Thread M) (ys : List (Thread M))
      → Stranded user sys (record { mailbox = b; threads = xs ++ (th ∷ ys) })
      → Locks (run_thread throughput throws b xs th ys)
      → Stranded user sys (run_thread throughput throws b xs th ys)
  unfolding run_thread
  run_thread-Stranded t user sys throws b xs th ys h l =
      let outside : holds th ≡ 0 =
        omega (arith, h.locks, h.gone, total_split holds xs th ys, locked-le b.scheduler_status) in
      let (u, y, k) = outside_frozen t throws b th outside in
      record {
        locks = l;
        gone = omega (arith, h.gone, k);
        user_frozen = u ∙ h.user_frozen;
        sys_frozen = y ∙ h.sys_frozen;
      }

  Step-Stranded :
      {throughput : ℕ} {user sys : List M} {s u : System M}
      → Step throughput s u
      → Stranded user sys s
      → Stranded user sys u
  Step-Stranded (post_user s m) h = record {
    locks = omega (arith, h.locks);
    gone = h.gone;
    user_frozen = h.user_frozen;
    sys_frozen = h.sys_frozen;
  }
  Step-Stranded (post_sys s m) h = record {
    locks = omega (arith, h.locks);
    gone = h.gone;
    user_frozen = h.user_frozen;
    sys_frozen = h.sys_frozen;
  }
  Step-Stranded {throughput} {user} {sys} (run s throws xs th ys e) h =
      run_thread-Stranded throughput user sys throws s.mailbox xs th ys
        (record {
          locks = rw e at h.locks;
          gone = h.gone;
          user_frozen = h.user_frozen;
          sys_frozen = h.sys_frozen;
        })
        (Step-Locks (run s throws xs th ys e) h.locks)

  Reach-Stranded :
      {throughput : ℕ} {user sys : List M} {s u : System M}
      → Reach throughput s u
      → Stranded user sys s
      → Stranded user sys u
  Reach-Stranded here h = h
  Reach-Stranded (next r st) h = Step-Stranded st (Reach-Stranded r h)

  -- RUNNING, with one message `m` queued, after those of `sent`.
  unfoldable pub busy : M → List M → Mailbox M
  unfolding register_handlers new_mailbox
  busy m sent = record (register_handlers new_mailbox) {
    user_mailbox = m ∷ [];
    scheduler_status = running;
    user_messages = pos 1;
    posted_user = sent ++ m ∷ [];
    invoked_user = sent;
  }

  -- The last thread has ended at the bound.
  abbrev ended : M → List M → System M
  ended m sent = record { mailbox = record (busy m sent) { lost_locks = 1 }; threads = [] }

  abbrev first_post : M → List (Move M)
  first_post m = posts_user m ∷ steps 0 ∷ steps 0 ∷ steps 0 ∷ steps 0 ∷ []

  -- One round: `m` is passed on, the queue is found empty, IDLE is stored, and before the counters
  -- are read again another thread posts `m`. Its own CAS comes too late.
  abbrev busy_round : M → List (Move M)
  busy_round m =
      steps 0
      ∷ steps 0
      ∷ steps 0
      ∷ steps 0
      ∷ steps 0
      ∷ steps 0
      ∷ steps 0
      ∷ steps 0
      ∷ steps 0
      ∷ steps 0
      ∷ steps 0
      ∷ steps 0
      ∷ posts_user m
      ∷ steps 0
      ∷ steps 0
      ∷ steps 1
      ∷ steps 1
      ∷ steps 1
      ∷ steps 0
      ∷ []

  abbrev in_round : M → ℕ → List M → System M
  in_round m round sent = record { mailbox = busy m sent; threads = loop round 0 ∷ [] }

  first_post_lem : (m : M) → play 300 start (first_post m) ≡ in_round m 0 []
  unfolding play advance run_thread start register_handlers new_mailbox busy incr
  first_post_lem m = refl

  busy_round_lem :
      (m : M) (r : ℕ) (sent : List M)
      → ltb (suc r) max_rounds ≡ true
      → play 300 (in_round m r sent) (busy_round m) ≡ in_round m (suc r) (sent ++ m ∷ [])
  unfolding play advance run_thread busy incr decr
  busy_round_lem m r sent h = rw h refl

  last_round_lem :
      (m : M) (sent : List M)
      → play 300 (in_round m 999 sent) (busy_round m) ≡ ended m (sent ++ m ∷ [])
  unfolding play advance run_thread busy incr decr
  last_round_lem m sent = refl

  busy_rounds :
      (m : M) (r : ℕ) → r < max_rounds → (sent : List M) × Reach 300 start (in_round m r sent)
  busy_rounds m zero h =
      ([], rw (first_post_lem m) at (play-Reach 300 start start (first_post m) here))
  busy_rounds m (suc r) h =
      let (sent, before) = busy_rounds m r (omega arith) in
      (
        sent ++ m ∷ [],
        rw (busy_round_lem m r sent (lt→ltb _ _ h)) at
            (play-Reach 300 start _ (busy_round m) before),
      )

  -- With the default throughput of 300, and with no fault anywhere, a state can be reached in which
  -- every thread has ended and `m` waits in the user queue, and in no state that follows is any
  -- message passed to the actor.
  pub message_stranded :
      (m : M)
      → (s : System M) × Reach 300 start s
        × (s.threads ≡ [])
        × (s.mailbox.user_mailbox ≡ m ∷ [])
        × ((u : System M)
            → Reach 300 s u
            → (u.mailbox.invoked_user ≡ s.mailbox.invoked_user)
              × (u.mailbox.invoked_sys ≡ s.mailbox.invoked_sys))
  unfolding busy
  message_stranded m =
      let (sent, before) = busy_rounds m 999 (omega arith) in
      let final = ended m (sent ++ m ∷ []) in
      let reached : Reach 300 start final =
        rw (last_round_lem m sent) at (play-Reach 300 start _ (busy_round m) before) in
      (
        final,
        reached,
        refl,
        refl,
        λ u r.
            let stuck : Stranded final.mailbox.invoked_user final.mailbox.invoked_sys u =
              Reach-Stranded r (record {
                locks = Reach-Locks reached;
                gone = omega arith;
                user_frozen = refl;
                sys_frozen = refl;
              }) in
            (stuck.user_frozen, stuck.sys_frozen),
      )
