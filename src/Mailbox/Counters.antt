-- ===== src/Mailbox/Counters.antt =====
-- user_messages_ and sys_messages_ against the queues that they count (mailbox.cpp): the push and
-- the pop are not atomic with the counter's update, and the counter may be negative meanwhile.
use protoactor_cpp.Base.{
  Bool, ℕ, ◌+◌, ◌≡◌, List, [], ◌∷◌, ◌++◌, arith, length, length-append, pos_part, neg_part,
  incr_parts, decr_parts,
}
use protoactor_cpp.Mailbox.Threads.{total, total_split, total_replaced}
use protoactor_cpp.Mailbox.{
  Mailbox, Thread, push_user, push_sys, add_user, add_sys, sub_sys, sub_user, advance, System,
  run_thread, Step, post_user, post_sys, run, Reach, here, next, start, new_mailbox,
  register_handlers,
}

module _ {M : Type 0} where
  -- Pushed and not yet added.
  abbrev pub uncounted_user : Thread M → ℕ
  uncounted_user add_user = 1
  uncounted_user _ = 0

  abbrev pub uncounted_sys : Thread M → ℕ
  uncounted_sys add_sys = 1
  uncounted_sys _ = 0

  -- Popped and not yet subtracted.
  abbrev pub popped_user : Thread M → ℕ
  popped_user (sub_user r i m) = 1
  popped_user _ = 0

  abbrev pub popped_sys : Thread M → ℕ
  popped_sys (sub_sys r i m) = 1
  popped_sys _ = 0

  pub record Counts (b : Mailbox M) (ths : List (Thread M)) : Type 0 where
    pub user :
        total uncounted_user ths + pos_part b.user_messages
        ≡ length b.user_mailbox + total popped_user ths + neg_part b.user_messages
    pub sys :
        total uncounted_sys ths + pos_part b.sys_messages
        ≡ length b.system_mailbox + total popped_sys ths + neg_part b.sys_messages

  -- One step changes both sides of the first equation by the same number.
  advance-user :
      (throughput : ℕ) (throws : Bool) (b : Mailbox M) (th : Thread M)
      → let (b', ths) = advance throughput throws b th in
        total uncounted_user ths
          + pos_part b'.user_messages
          + (length b.user_mailbox + popped_user th + neg_part b.user_messages)
        ≡ length b'.user_mailbox
          + total popped_user ths
          + neg_part b'.user_messages
          + (uncounted_user th + pos_part b.user_messages)
  unfolding advance
  advance-user t throws b (push_user m) = ground (arith, length-append b.user_mailbox (m ∷ []))
  advance-user t throws b add_user = ground (arith, incr_parts b.user_messages)
  advance-user t throws b (sub_user r i m) = ground (arith, decr_parts b.user_messages)
  advance-user t throws b th = ground arith

  advance-sys :
      (throughput : ℕ) (throws : Bool) (b : Mailbox M) (th : Thread M)
      → let (b', ths) = advance throughput throws b th in
        total uncounted_sys ths
          + pos_part b'.sys_messages
          + (length b.system_mailbox + popped_sys th + neg_part b.sys_messages)
        ≡ length b'.system_mailbox
          + total popped_sys ths
          + neg_part b'.sys_messages
          + (uncounted_sys th + pos_part b.sys_messages)
  unfolding advance
  advance-sys t throws b (push_sys m) = ground (arith, length-append b.system_mailbox (m ∷ []))
  advance-sys t throws b add_sys = ground (arith, incr_parts b.sys_messages)
  advance-sys t throws b (sub_sys r i m) = ground (arith, decr_parts b.sys_messages)
  advance-sys t throws b th = ground arith

  run_thread-Counts :
      (throughput : ℕ) (throws : Bool) (b : Mailbox M) (xs : List (Thread M)) (th : Thread M)
      (ys : List (Thread M))
      → Counts b (xs ++ (th ∷ ys))
      → let s = run_thread throughput throws b xs th ys in Counts s.mailbox s.threads
  unfolding run_thread
  run_thread-Counts t throws b xs th ys h = record {
    user = omega (
      arith,
      h.user,
      total_split uncounted_user xs th ys,
      total_replaced uncounted_user xs (advance t throws b th).1 ys,
      total_split popped_user xs th ys,
      total_replaced popped_user xs (advance t throws b th).1 ys,
      advance-user t throws b th,
    );
    sys = omega (
      arith,
      h.sys,
      total_split uncounted_sys xs th ys,
      total_replaced uncounted_sys xs (advance t throws b th).1 ys,
      total_split popped_sys xs th ys,
      total_replaced popped_sys xs (advance t throws b th).1 ys,
      advance-sys t throws b th,
    );
  }

  pub Step-Counts :
      {throughput : ℕ} {s u : System M}
      → Step throughput s u
      → Counts s.mailbox s.threads
      → Counts u.mailbox u.threads
  Step-Counts (post_user s m) h = omega arith
  Step-Counts (post_sys s m) h = omega arith
  Step-Counts {throughput} (run s throws xs th ys e) h =
      run_thread-Counts throughput throws s.mailbox xs th ys (rw e at h)

  -- In every reachable state each counter, with the pushes that it has still to count, is the
  -- length of its queue, with the pops that it has still to subtract.
  pub Reach-Counts :
      {throughput : ℕ} {s : System M} → Reach throughput start s → Counts s.mailbox s.threads
  unfolding start register_handlers new_mailbox
  Reach-Counts here = omega arith
  Reach-Counts (next r st) = Step-Counts st (Reach-Counts r)
