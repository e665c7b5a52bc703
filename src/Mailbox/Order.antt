-- ===== src/Mailbox/Order.antt =====
-- What the actor context is given, and in which order (mailbox.cpp, ProcessLoop): each queue is
-- first in first out over all its producers, and nothing is dropped or invented.
use protoactor_cpp.Base.{
  Bool, append_assoc, append-nil, zero_or_pos, inl, inr, ℕ, ◌+◌, ◌≤◌, ◌≡◌, refl, sym, ap, ◌∙◌, true,
  List, [], ◌∷◌, ◌++◌, arith,
}
use protoactor_cpp.Mailbox.Threads.{total, total_split}
use protoactor_cpp.Mailbox.Exclusion.{holds, locked-le, Locks, Reach-Locks}
use protoactor_cpp.Mailbox.Wakeup.{quiescent-empty}
use protoactor_cpp.Mailbox.{
  Mailbox, Thread, push_user, push_sys, sub_user, sub_sys, invoke_user, invoke_sys, schedule,
  advance, System, run_thread, Step, post_user, post_sys, run, Reach, idle, here, next, start,
  new_mailbox, register_handlers,
}

module _ {M : Type 0} where
  -- The message that a thread has popped and not yet passed on.
  abbrev pub user_in_hand : Thread M → List M
  user_in_hand (sub_user r i m) = m ∷ []
  user_in_hand (invoke_user r i m) = m ∷ []
  user_in_hand _ = []

  abbrev pub sys_in_hand : Thread M → List M
  sys_in_hand (sub_sys r i m) = m ∷ []
  sys_in_hand (invoke_sys r i m) = m ∷ []
  sys_in_hand _ = []

  abbrev pub gather : (Thread M → List M) → List (Thread M) → List M
  gather w [] = []
  gather w (th ∷ ths) = w th ++ gather w ths

  gather-append :
      (w : Thread M → List M) (xs ys : List (Thread M))
      → gather w (xs ++ ys) ≡ gather w xs ++ gather w ys
  gather-append w [] ys = refl
  gather-append w (x ∷ xs) ys = rw (gather-append w xs ys) (sym (append_assoc (w x) _ _))

  -- A message in hand is in the hand of a thread that holds the lock.
  abbrev OnlyHolders : (Thread M → List M) → Type 0
  OnlyHolders w = (th : Thread M) → holds th ≡ 0 → w th ≡ []

  gather_none :
      (w : Thread M → List M)
      → OnlyHolders w
      → (ths : List (Thread M)) → total holds ths ≡ 0
      → gather w ths ≡ []
  gather_none w only [] h = refl
  gather_none w only (th ∷ ths) h = rw (only th (omega arith), gather_none w only ths (omega arith))

  gather_replaced :
      (w : Thread M → List M) (xs zs ys : List (Thread M))
      → gather w (xs ++ (zs ++ ys)) ≡ gather w xs ++ (gather w zs ++ gather w ys)
  gather_replaced w xs zs ys =
      gather-append w xs (zs ++ ys) ∙ ap (λ l. gather w xs ++ l) (gather-append w zs ys)

  user-OnlyHolders : OnlyHolders user_in_hand
  user-OnlyHolders (sub_user r i m) h = absurd (omega arith)
  user-OnlyHolders (invoke_user r i m) h = absurd (omega arith)
  user-OnlyHolders th h = refl

  sys-OnlyHolders : OnlyHolders sys_in_hand
  sys-OnlyHolders (sub_sys r i m) h = absurd (omega arith)
  sys-OnlyHolders (invoke_sys r i m) h = absurd (omega arith)
  sys-OnlyHolders th h = refl

  -- A thread outside the lock may push; it pops nothing and passes nothing on.
  free_user :
      (throughput : ℕ) (throws : Bool) (b : Mailbox M) (th : Thread M) (g : List M)
      → holds th ≡ 0
      → b.posted_user ≡ b.invoked_user ++ (g ++ b.user_mailbox)
      → let (b', ths) = advance throughput throws b th in
        (b'.posted_user ≡ b'.invoked_user ++ (g ++ b'.user_mailbox))
        × (gather user_in_hand ths ≡ [])
  unfolding advance
  free_user t throws b (push_user m) g z h = (simp (h, append_assoc), refl)
  free_user t throws b th g z h = ground arith

  -- The thread inside moves a message from the queue to its hand, and from there to the actor.
  held_user :
      (throughput : ℕ) (throws : Bool) (b : Mailbox M) (th : Thread M)
      → 1 ≤ holds th
      → b.has_invoker ≡ true
      → b.posted_user ≡ b.invoked_user ++ (user_in_hand th ++ b.user_mailbox)
      → let (b', ths) = advance throughput throws b th in
        b'.posted_user ≡ b'.invoked_user ++ (gather user_in_hand ths ++ b'.user_mailbox)
  unfolding advance
  held_user t throws b (invoke_user r i m) z v h =
      ground (arith, v, h, append_assoc b.invoked_user (m ∷ []) b.user_mailbox)
  held_user t throws b th z v h = ground arith

  free_sys :
      (throughput : ℕ) (throws : Bool) (b : Mailbox M) (th : Thread M) (g : List M)
      → holds th ≡ 0
      → b.posted_sys ≡ b.invoked_sys ++ (g ++ b.system_mailbox)
      → let (b', ths) = advance throughput throws b th in
        (b'.posted_sys ≡ b'.invoked_sys ++ (g ++ b'.system_mailbox)) × (gather sys_in_hand ths ≡ [])
  unfolding advance
  free_sys t throws b (push_sys m) g z h = (simp (h, append_assoc), refl)
  free_sys t throws b th g z h = ground arith

  held_sys :
      (throughput : ℕ) (throws : Bool) (b : Mailbox M) (th : Thread M)
      → 1 ≤ holds th
      → b.has_invoker ≡ true
      → b.posted_sys ≡ b.invoked_sys ++ (sys_in_hand th ++ b.system_mailbox)
      → let (b', ths) = advance throughput throws b th in
        b'.posted_sys ≡ b'.invoked_sys ++ (gather sys_in_hand ths ++ b'.system_mailbox)
  unfolding advance
  held_sys t throws b (invoke_sys r i m) z v h =
      ground (arith, v, h, append_assoc b.invoked_sys (m ∷ []) b.system_mailbox)
  held_sys t throws b th z v h = ground arith

  pub record Ordered (b : Mailbox M) (ths : List (Thread M)) : Type 0 where
    pub invoker : b.has_invoker ≡ true
    pub user : b.posted_user ≡ b.invoked_user ++ (gather user_in_hand ths ++ b.user_mailbox)
    pub sys : b.posted_sys ≡ b.invoked_sys ++ (gather sys_in_hand ths ++ b.system_mailbox)

  advance-invoker :
      (throughput : ℕ) (throws : Bool) (b : Mailbox M) (th : Thread M)
      → b.has_invoker ≡ true
      → (advance throughput throws b th).0.has_invoker ≡ true
  unfolding advance
  advance-invoker t throws b schedule v = ground arith
  advance-invoker t throws b th v = ground arith

  -- The other threads' hands are empty, or this one's is.
  hands_free :
      (w : Thread M → List M) (xs : List (Thread M)) (th : Thread M) (ys : List (Thread M))
      → OnlyHolders w
      → holds th ≡ 0
      → gather w (xs ++ (th ∷ ys)) ≡ gather w xs ++ gather w ys
  hands_free w xs th ys only z =
      gather-append w xs (th ∷ ys) ∙ ap (λ l. gather w xs ++ (l ++ gather w ys)) (only th z)

  hands_held :
      (w : Thread M → List M) (xs zs ys : List (Thread M))
      → OnlyHolders w
      → total holds xs ≡ 0
      → total holds ys ≡ 0
      → gather w (xs ++ (zs ++ ys)) ≡ gather w zs
  hands_held w xs zs ys only x y =
      rw (gather_replaced w xs zs ys, gather_none w only xs x, gather_none w only ys y)
        (append-nil (gather w zs))

  run_user :
      (throughput : ℕ) (throws : Bool) (b : Mailbox M) (xs : List (Thread M)) (th : Thread M)
      (ys : List (Thread M))
      → total holds xs + total holds ys + holds th ≤ 1
      → b.has_invoker ≡ true
      → b.posted_user ≡ b.invoked_user ++ (gather user_in_hand (xs ++ (th ∷ ys)) ++ b.user_mailbox)
      → let (b', ths) = advance throughput throws b th in
        b'.posted_user
        ≡ b'.invoked_user ++ (gather user_in_hand (xs ++ (ths ++ ys)) ++ b'.user_mailbox)
  run_user t throws b xs th ys le v h = elim (zero_or_pos (holds th)) [
    | inl z ↦
        let g = gather user_in_hand xs ++ gather user_in_hand ys in
        let before : b.posted_user ≡ b.invoked_user ++ (g ++ b.user_mailbox) =
          rw (hands_free user_in_hand xs th ys user-OnlyHolders z) at h in
        let (after, none_left) = free_user t throws b th g z before in
        rw (gather_replaced user_in_hand xs (advance t throws b th).1 ys, none_left) after
    | inr p ↦
        let x : total holds xs ≡ 0 = omega arith in
        let y : total holds ys ≡ 0 = omega arith in
        let before : b.posted_user ≡ b.invoked_user ++ (user_in_hand th ++ b.user_mailbox) =
          rw (hands_held user_in_hand xs (th ∷ []) ys user-OnlyHolders x y, append-nil) at h in
        rw (hands_held user_in_hand xs (advance t throws b th).1 ys user-OnlyHolders x y)
          (held_user t throws b th p v before)
  ]

  run_sys :
      (throughput : ℕ) (throws : Bool) (b : Mailbox M) (xs : List (Thread M)) (th : Thread M)
      (ys : List (Thread M))
      → total holds xs + total holds ys + holds th ≤ 1
      → b.has_invoker ≡ true
      → b.posted_sys ≡ b.invoked_sys ++ (gather sys_in_hand (xs ++ (th ∷ ys)) ++ b.system_mailbox)
      → let (b', ths) = advance throughput throws b th in
        b'.posted_sys
        ≡ b'.invoked_sys ++ (gather sys_in_hand (xs ++ (ths ++ ys)) ++ b'.system_mailbox)
  run_sys t throws b xs th ys le v h = elim (zero_or_pos (holds th)) [
    | inl z ↦
        let g = gather sys_in_hand xs ++ gather sys_in_hand ys in
        let before : b.posted_sys ≡ b.invoked_sys ++ (g ++ b.system_mailbox) =
          rw (hands_free sys_in_hand xs th ys sys-OnlyHolders z) at h in
        let (after, none_left) = free_sys t throws b th g z before in
        rw (gather_replaced sys_in_hand xs (advance t throws b th).1 ys, none_left) after
    | inr p ↦
        let x : total holds xs ≡ 0 = omega arith in
        let y : total holds ys ≡ 0 = omega arith in
        let before : b.posted_sys ≡ b.invoked_sys ++ (sys_in_hand th ++ b.system_mailbox) =
          rw (hands_held sys_in_hand xs (th ∷ []) ys sys-OnlyHolders x y, append-nil) at h in
        rw (hands_held sys_in_hand xs (advance t throws b th).1 ys sys-OnlyHolders x y)
          (held_sys t throws b th p v before)
  ]

  Step-Ordered :
      {throughput : ℕ} {s u : System M}
      → Step throughput s u
      → Locks s
      → Ordered s.mailbox s.threads
      → Ordered u.mailbox u.threads
  unfolding run_thread
  Step-Ordered (post_user s m) l h = record { invoker = h.invoker; user = h.user; sys = h.sys }
  Step-Ordered (post_sys s m) l h = record { invoker = h.invoker; user = h.user; sys = h.sys }
  Step-Ordered {throughput} (run s throws xs th ys e) l h =
      let le : total holds xs + total holds ys + holds th ≤ 1 = omega (
        arith,
        ap (total holds) e,
        total_split holds xs th ys,
        l,
        locked-le s.mailbox.scheduler_status,
      ) in
      record {
        invoker = advance-invoker throughput throws s.mailbox th h.invoker;
        user = run_user throughput throws s.mailbox xs th ys le h.invoker (rw e at h.user);
        sys = run_sys throughput throws s.mailbox xs th ys le h.invoker (rw e at h.sys);
      }

  -- In every reachable state, of each kind: the messages posted are those passed to the actor, then
  -- the one in hand, then those still queued, in the order in which they were pushed.
  pub Reach-Ordered :
      {throughput : ℕ} {s : System M} → Reach throughput start s → Ordered s.mailbox s.threads
  unfolding start register_handlers new_mailbox
  Reach-Ordered here = record { invoker = refl; user = refl; sys = refl }
  Reach-Ordered (next r st) = Step-Ordered st (Reach-Locks r) (Reach-Ordered r)

  -- Where the status is IDLE and every thread of a reachable state has come to its end, the actor was
  -- given exactly the messages posted, each kind in the order of its pushes. The accesses are taken
  -- as sequentially consistent.
  pub quiescent-delivered :
      {throughput : ℕ} (s : System M)
      → Reach throughput start s
      → s.threads ≡ []
      → s.mailbox.scheduler_status ≡ idle
      → (s.mailbox.invoked_user ≡ s.mailbox.posted_user)
        × (s.mailbox.invoked_sys ≡ s.mailbox.posted_sys)
  quiescent-delivered s r e st =
      let (u, y) = quiescent-empty s r e st in
      let o = Reach-Ordered r in
      (
        sym (o.user ∙ rw (e, u) (append-nil s.mailbox.invoked_user)),
        sym (o.sys ∙ rw (e, y) (append-nil s.mailbox.invoked_sys)),
      )
