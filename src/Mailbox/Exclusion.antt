-- ===== src/Mailbox/Exclusion.antt =====
-- The scheduler status is a lock: one thread at most is inside ProcessLoop (mailbox.cpp,
-- Schedule and ProcessMessages).
use protoactor_cpp.Base.{Bool, ℕ, ◌+◌, ◌≤◌, ◌≡◌, refl, List, ◌∷◌, ◌++◌, arith}
use protoactor_cpp.Mailbox.Threads.{total, total_split, total_replaced}
use protoactor_cpp.Mailbox.{
  Status, idle, running, Mailbox, Thread, push_user, push_sys, add_user, add_sys, schedule,
  load_sys, load_user, load_suspended, retry, advance, System, run_thread, Step, post_user,
  post_sys, run, Reach, here, next, start, new_mailbox, register_handlers,
}

abbrev pub locked : Status → ℕ
locked idle = 0
locked running = 1

pub locked-le : (st : Status) → locked st ≤ 1
locked-le idle = omega arith
locked-le running = omega arith

module _ {M : Type 0} where
  -- 1 from the CAS that set RUNNING up to the store of IDLE.
  abbrev pub holds : Thread M → ℕ
  holds (push_user m) = 0
  holds (push_sys m) = 0
  holds add_user = 0
  holds add_sys = 0
  holds schedule = 0
  holds (load_sys r) = 0
  holds (load_user r s) = 0
  holds (load_suspended r s u) = 0
  holds (retry r) = 0
  holds _ = 1

  abbrev pub Locks : System M → Type 0
  Locks s = total holds s.threads + s.mailbox.lost_locks ≡ locked s.mailbox.scheduler_status

  -- A step of one thread moves the lock between it and the status.
  pub advance-holds :
      (throughput : ℕ) (throws : Bool) (b : Mailbox M) (th : Thread M)
      → holds th + b.lost_locks ≤ locked b.scheduler_status
      → let (b', ths) = advance throughput throws b th in
        total holds ths + b'.lost_locks + locked b.scheduler_status
        ≡ holds th + b.lost_locks + locked b'.scheduler_status
  unfolding advance
  advance-holds t throws b (push_user m) h = ground arith
  advance-holds t throws b th h = ground arith

  pub run_thread-Locks :
      (throughput : ℕ) (throws : Bool) (b : Mailbox M) (xs : List (Thread M)) (th : Thread M)
      (ys : List (Thread M))
      → Locks (record { mailbox = b; threads = xs ++ (th ∷ ys) })
      → Locks (run_thread throughput throws b xs th ys)
  unfolding run_thread
  run_thread-Locks t throws b xs th ys h = omega (
    arith,
    total_split holds xs th ys,
    total_replaced holds xs (advance t throws b th).1 ys,
    locked-le b.scheduler_status,
    advance-holds t throws b th,
  )

  pub Step-Locks : {throughput : ℕ} {s u : System M} → Step throughput s u → Locks s → Locks u
  Step-Locks (post_user s m) h = omega arith
  Step-Locks (post_sys s m) h = omega arith
  Step-Locks {throughput} (run s throws xs th ys e) h =
      run_thread-Locks throughput throws s.mailbox xs th ys (rw e at h)

  -- In every reachable state one thread at most is inside, and then the status is RUNNING. If the
  -- status is RUNNING and no thread is inside, then exactly one thread has ended with RUNNING set, at
  -- the bound on the rounds or by an exception of the handler.
  pub Reach-Locks : {throughput : ℕ} {s : System M} → Reach throughput start s → Locks s
  unfolding start register_handlers new_mailbox
  Reach-Locks here = refl
  Reach-Locks (next r st) = Step-Locks st (Reach-Locks r)
