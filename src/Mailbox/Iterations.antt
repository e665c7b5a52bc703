-- ===== src/Mailbox/Iterations.antt =====
-- The counter `i` of ProcessLoop (mailbox.cpp), which is set back to 0 when it passes the
-- throughput, against the bound `throughput * 10` on it.
use protoactor_cpp.Base.{
  Bool, ℕ, ◌+◌, ◌*◌, ◌≤◌, ◌≡◌, true, List, [], ◌∷◌, ◌++◌, arith, ltb, All, lt→ltb, if◌then◌else◌,
}
use protoactor_cpp.Mailbox.{
  Mailbox, Thread, push_user, loop, pop_sys, sub_sys, invoke_sys, test_suspended, pop_user,
  sub_user, invoke_user, loop_head, advance, System, run_thread, Step, post_user, post_sys, run,
  Reach, here, next, start,
}

module _ {M : Type 0} (throughput : ℕ) where
  -- `i` is at most one above the throughput.
  abbrev pub Within : Thread M → Type 0
  Within (loop r i) = i ≤ throughput + 1
  Within (pop_sys r i) = i ≤ throughput + 1
  Within (sub_sys r i m) = i ≤ throughput + 1
  Within (invoke_sys r i m) = i ≤ throughput + 1
  Within (test_suspended r i) = i ≤ throughput + 1
  Within (pop_user r i) = i ≤ throughput + 1
  Within (sub_user r i m) = i ≤ throughput + 1
  Within (invoke_user r i m) = i ≤ throughput + 1
  Within _ = Unit {0}

  advance-Within :
      (throws : Bool) (b : Mailbox M) (th : Thread M)
      → 1 ≤ throughput
      → Within th
      → All Within (advance throughput throws b th).1
  unfolding advance
  advance-Within throws b (push_user m) pos h = ground arith
  advance-Within throws b th pos h = ground arith

  All-append : (xs ys : List (Thread M)) → All Within xs → All Within ys → All Within (xs ++ ys)
  All-append [] ys h k = k
  All-append (x ∷ xs) ys h k = (h.0, All-append xs ys h.1 k)

  All-prefix : (xs ys : List (Thread M)) → All Within (xs ++ ys) → All Within xs
  All-prefix [] ys h = tt
  All-prefix (x ∷ xs) ys h = (h.0, All-prefix xs ys h.1)

  All-suffix : (xs ys : List (Thread M)) → All Within (xs ++ ys) → All Within ys
  All-suffix [] ys h = h
  All-suffix (x ∷ xs) ys h = All-suffix xs ys h.1

  Step-Within :
      {s u : System M}
      → 1 ≤ throughput
      → Step throughput s u
      → All Within s.threads
      → All Within u.threads
  unfolding run_thread
  Step-Within pos (post_user s m) h = (tt, h)
  Step-Within pos (post_sys s m) h = (tt, h)
  Step-Within pos (run s throws xs th ys e) h =
      let h' : All Within (xs ++ (th ∷ ys)) = rw e at h in
      let others = All-suffix xs (th ∷ ys) h' in
      All-append xs _ (All-prefix xs (th ∷ ys) h')
        (All-append _ ys (advance-Within throws s.mailbox th pos others.0) others.1)

  Reach-Within : {s : System M} → 1 ≤ throughput → Reach throughput start s → All Within s.threads
  unfolding start
  Reach-Within pos here = tt
  Reach-Within pos (next r st) = Step-Within pos st (Reach-Within pos r)

  -- With a throughput of at least 1, no thread of a reachable state leaves the loop by the bound
  -- `throughput * 10`: it goes on to pop a message, whatever it has done so far.
  pub loop_never_bounded :
      (s : System M) (throws : Bool) (xs ys : List (Thread M)) (r i : ℕ)
      → 1 ≤ throughput
      → Reach throughput start s
      → s.threads ≡ xs ++ (loop r i ∷ ys)
      → (k : ℕ) × ((advance throughput throws s.mailbox (loop r i)).1 ≡ pop_sys r k ∷ [])
  unfolding advance
  loop_never_bounded s throws xs ys r i pos reached e =
      let all : All Within (xs ++ (loop r i ∷ ys)) = rw e at (Reach-Within pos reached) in
      let le = (All-suffix xs (loop r i ∷ ys) all).0 in
      let test : ltb i (throughput * 10) ≡ true = lt→ltb _ _ (omega arith) in
      ((if ltb throughput i then 1 else i + 1), rw (test, loop_head))
