-- ===== src/Mailbox/Wakeup.antt =====
-- No lost wake-up (mailbox.cpp, Schedule and the re-check of ProcessMessages): a thread that finds
-- RUNNING leaves its message to the thread inside, which looks again after it stored IDLE.
use protoactor_cpp.Base.{
  ℕ, ◌+◌, ◌≤◌, ◌≡◌, refl, Bool, true, false, List, [], ◌∷◌, ◌++◌, arith, eq_nil_of_length, ℤ,
  pos_part, is_positive, is_positive-decr, not_positive_parts, Bool-cases, inl, inr,
}
use protoactor_cpp.Mailbox.Threads.{total, total_split, total_replaced}
use protoactor_cpp.Mailbox.Counters.{Counts, Reach-Counts}
use protoactor_cpp.Mailbox.{
  idle, Mailbox, Thread, schedule, sub_sys, sub_user, load_sys, load_user, load_suspended, retry,
  advance, System, run_thread, Step, post_user, post_sys, run, Reach, here, next, start,
  new_mailbox, register_handlers,
}

abbrev one_if : Bool → ℕ
one_if true = 1
one_if false = 0

module _ {M : Type 0} where
  -- Will still look at the system queue's counter, or has seen that it is positive.
  abbrev wakes_sys : Thread M → ℕ
  wakes_sys schedule = 1
  wakes_sys (load_sys r) = 1
  wakes_sys (load_user r s) = one_if (is_positive s)
  wakes_sys (load_suspended r s u) = one_if (is_positive s)
  wakes_sys (retry r) = 1
  wakes_sys _ = 0

  abbrev wakes_user : Thread M → ℕ
  wakes_user schedule = 1
  wakes_user (load_sys r) = 1
  wakes_user (load_user r s) = 1
  wakes_user (load_suspended r s u) = one_if (is_positive u)
  wakes_user (retry r) = 1
  wakes_user _ = 0

  record Awake (b : Mailbox M) (ths : List (Thread M)) : Type 0 where
    resumed : b.suspended ≡ 0
    sys : b.scheduler_status ≡ idle → is_positive b.sys_messages ≡ true → 1 ≤ total wakes_sys ths
    user : b.scheduler_status ≡ idle → is_positive b.user_messages ≡ true → 1 ≤ total wakes_user ths

  advance-sys :
      (throughput n : ℕ) (throws : Bool) (b : Mailbox M) (th : Thread M)
      → (b.scheduler_status ≡ idle → is_positive b.sys_messages ≡ true → 1 ≤ n + wakes_sys th)
      → let (b', ths) = advance throughput throws b th in
        b'.scheduler_status ≡ idle
        → is_positive b'.sys_messages ≡ true
        → 1 ≤ n + total wakes_sys ths
  unfolding advance
  advance-sys t n throws b (sub_sys r i m) h = ground (arith, is_positive-decr b.sys_messages)
  advance-sys t n throws b th h = ground arith

  advance-user :
      (throughput n : ℕ) (throws : Bool) (b : Mailbox M) (th : Thread M)
      → b.suspended ≡ 0
      → (b.scheduler_status ≡ idle → is_positive b.user_messages ≡ true → 1 ≤ n + wakes_user th)
      → let (b', ths) = advance throughput throws b th in
        b'.scheduler_status ≡ idle
        → is_positive b'.user_messages ≡ true
        → 1 ≤ n + total wakes_user ths
  unfolding advance
  advance-user t n throws b (sub_user r i m) z h = ground (arith, is_positive-decr b.user_messages)
  advance-user t n throws b th z h = ground arith

  advance-suspended :
      (throughput : ℕ) (throws : Bool) (b : Mailbox M) (th : Thread M)
      → (advance throughput throws b th).0.suspended ≡ b.suspended
  unfolding advance
  advance-suspended t throws b schedule = ground arith
  advance-suspended t throws b th = ground arith

  run_thread-Awake :
      (throughput : ℕ) (throws : Bool) (b : Mailbox M) (xs : List (Thread M)) (th : Thread M)
      (ys : List (Thread M))
      → Awake b (xs ++ (th ∷ ys))
      → let s = run_thread throughput throws b xs th ys in Awake s.mailbox s.threads
  unfolding run_thread
  run_thread-Awake t throws b xs th ys h =
      let n : ℕ = total wakes_sys xs + total wakes_sys ys in
      let k : ℕ = total wakes_user xs + total wakes_user ys in
      record {
        resumed = omega (arith, advance-suspended t throws b th, h.resumed);
        sys = λ st p. omega (
          arith,
          total_replaced wakes_sys xs (advance t throws b th).1 ys,
          advance-sys t n throws b th
              (λ st' p'. omega (arith, total_split wakes_sys xs th ys, h.sys st' p')) st p,
        );
        user = λ st p. omega (
          arith,
          total_replaced wakes_user xs (advance t throws b th).1 ys,
          advance-user t k throws b th h.resumed
              (λ st' p'. omega (arith, total_split wakes_user xs th ys, h.user st' p')) st p,
        );
      }

  Step-Awake :
      {throughput : ℕ} {s u : System M}
      → Step throughput s u
      → Awake s.mailbox s.threads
      → Awake u.mailbox u.threads
  Step-Awake (post_user s m) h = record {
    resumed = h.resumed;
    sys = λ st p. omega (arith, h.sys st p);
    user = λ st p. omega (arith, h.user st p);
  }
  Step-Awake (post_sys s m) h = record {
    resumed = h.resumed;
    sys = λ st p. omega (arith, h.sys st p);
    user = λ st p. omega (arith, h.user st p);
  }
  Step-Awake {throughput} (run s throws xs th ys e) h =
      run_thread-Awake throughput throws s.mailbox xs th ys (rw e at h)

  Reach-Awake :
      {throughput : ℕ} {s : System M} → Reach throughput start s → Awake s.mailbox s.threads
  unfolding start register_handlers new_mailbox
  Reach-Awake here = record { resumed = refl; sys = λ st p. cc; user = λ st p. cc }
  Reach-Awake (next r st) = Step-Awake st (Reach-Awake r)

  -- `≡ idle` and no thread that will look again: the counter is not positive.
  not_positive_of_quiet :
      (b : Mailbox M) (z : ℤ)
      → (b.scheduler_status ≡ idle → is_positive z ≡ true → 1 ≤ 0)
      → b.scheduler_status ≡ idle
      → pos_part z ≡ 0
  not_positive_of_quiet b z h st = elim (Bool-cases (is_positive z)) [
    | inl p ↦ absurd (omega (arith, h st p))
    | inr p ↦ not_positive_parts z p
  ]

  -- Where the status is IDLE and every thread of a reachable state has come to its end, both queues
  -- are empty: no message is left without a thread that will process it. The accesses are taken as
  -- sequentially consistent. (Where the status is RUNNING with no thread, a thread has ended with
  -- RUNNING set.)
  pub quiescent-empty :
      {throughput : ℕ} (s : System M)
      → Reach throughput start s
      → s.threads ≡ []
      → s.mailbox.scheduler_status ≡ idle
      → (s.mailbox.user_mailbox ≡ []) × (s.mailbox.system_mailbox ≡ [])
  quiescent-empty s r e st =
      let counts : Counts s.mailbox [] = rw e at (Reach-Counts r) in
      let awake : Awake s.mailbox [] = rw e at (Reach-Awake r) in
      let u = not_positive_of_quiet s.mailbox s.mailbox.user_messages awake.user st in
      let y = not_positive_of_quiet s.mailbox s.mailbox.sys_messages awake.sys st in
      (
        eq_nil_of_length s.mailbox.user_mailbox (omega (arith, counts.user)),
        eq_nil_of_length s.mailbox.system_mailbox (omega (arith, counts.sys)),
      )
