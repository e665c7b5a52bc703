-- ===== src/Mailbox.antt =====
-- src/actor/mailbox.cpp: DefaultMailbox, as it runs on any number of threads. A `Thread` is a
-- program point with its local variables, `advance` makes the one step of a thread up to its next
-- access to shared state, and `Step` lets the threads interleave in any order.
mod Threads
mod Exclusion
mod Counters
mod Wakeup
mod Order
mod Schedule
mod RoundLimit
mod Iterations
mod Examples
use protoactor_cpp.Base.{
  ℕ, zero, suc, ◌+◌, ◌*◌, ◌≡◌, Bool, true, false, ◌&&◌, ◌||◌, List, [], ◌∷◌, ◌++◌, ltb, eqb,
  if◌then◌else◌, ℤ, pos, incr, decr, is_positive,
}

-- The unnamed enum of the class.
pub data Status : Type 0 where
  idle running : Status

-- The fields of DefaultMailbox. The last five are history variables: what was pushed to a queue, what
-- was passed to the actor context, oldest first, and how many threads have ended with RUNNING set.
pub record Mailbox (M : Type 0) : Type 0 where
  pub user_mailbox : List M
  pub system_mailbox : List M
  pub scheduler_status : Status
  pub user_messages : ℤ
  pub sys_messages : ℤ
  pub suspended : ℕ
  pub has_invoker : Bool
  pub posted_user : List M
  pub posted_sys : List M
  pub invoked_user : List M
  pub invoked_sys : List M
  pub lost_locks : ℕ

-- Where a thread stands. `round` and `i` are the locals of ProcessMessages and ProcessLoop, and
-- the numbers that a thread has loaded are kept with it.
pub data Thread (M : Type 0) : Type 0 where
  push_user : M → Thread M
  push_sys : M → Thread M
  add_user : Thread M
  add_sys : Thread M
  schedule : Thread M
  task : Thread M
  loop : ℕ → ℕ → Thread M
  pop_sys : ℕ → ℕ → Thread M
  sub_sys : ℕ → ℕ → M → Thread M
  invoke_sys : ℕ → ℕ → M → Thread M
  test_suspended : ℕ → ℕ → Thread M
  pop_user : ℕ → ℕ → Thread M
  sub_user : ℕ → ℕ → M → Thread M
  invoke_user : ℕ → ℕ → M → Thread M
  store_idle : ℕ → Thread M
  load_sys : ℕ → Thread M
  load_user : ℕ → ℤ → Thread M
  load_suspended : ℕ → ℤ → ℤ → Thread M
  retry : ℕ → Thread M

abbrev pub max_rounds : ℕ
max_rounds = 1000

module _ {M : Type 0} where
  unfoldable pub new_mailbox : Mailbox M
  new_mailbox = record {
    user_mailbox = [];
    system_mailbox = [];
    scheduler_status = idle;
    user_messages = pos 0;
    sys_messages = pos 0;
    suspended = 0;
    has_invoker = false;
    posted_user = [];
    posted_sys = [];
    invoked_user = [];
    invoked_sys = [];
    lost_locks = 0;
  }

  -- RegisterHandlers, with a context that is not null.
  unfoldable pub register_handlers : Mailbox M → Mailbox M
  register_handlers b = record b { has_invoker = true }

  -- compare_exchange_strong(IDLE, RUNNING): the status, and the threads on success and on failure.
  unfoldable pub compare_exchange :
      Mailbox M → List (Thread M) → List (Thread M) → Mailbox M × List (Thread M)
  compare_exchange b won lost = elim b.scheduler_status [
    | idle ↦ (record b { scheduler_status = running }, won)
    | running ↦ (b, lost)
  ]

  -- The two pops of ProcessLoop, and what follows on an empty queue.
  unfoldable pub take_sys : Mailbox M → List M → ℕ → ℕ → Mailbox M × List (Thread M)
  take_sys b [] round i = (b, test_suspended round i ∷ [])
  take_sys b (m ∷ ms) round i = (record b { system_mailbox = ms }, sub_sys round i m ∷ [])

  unfoldable pub take_user : Mailbox M → List M → ℕ → ℕ → Mailbox M × List (Thread M)
  take_user b [] round i = (b, store_idle round ∷ [])
  take_user b (m ∷ ms) round i = (record b { user_mailbox = ms }, sub_user round i m ∷ [])

  -- The head of the loop of ProcessLoop: its bound, the reset of `i` (where the thread also
  -- yields), and `i++`.
  unfoldable pub loop_head : ℕ → ℕ → ℕ → Thread M
  loop_head throughput round i =
      if ltb i (throughput * 10)
      then pop_sys round (if ltb throughput i then 1 else i + 1)
      else store_idle round

  -- A thread ends while the status is RUNNING.
  abbrev pub ends_running : Mailbox M → Mailbox M × List (Thread M)
  ends_running b = (record b { lost_locks = suc b.lost_locks }, [])

  -- The head of the loop of ProcessMessages: the thread ends at the bound, with RUNNING set.
  unfoldable pub round_head : Mailbox M → ℕ → Mailbox M × List (Thread M)
  round_head b round = if ltb round max_rounds then (b, loop round 0 ∷ []) else ends_running b

  -- The second compare_exchange_strong, and `round++` and the head of the loop on success.
  unfoldable pub enter_again : Mailbox M → ℕ → Mailbox M × List (Thread M)
  unfolding round_head
  enter_again b round = elim b.scheduler_status [
    | idle ↦ round_head (record b { scheduler_status = running }) (suc round)
    | running ↦ (b, [])
  ]

  -- The handler is called; if it throws, then nothing in ProcessMessages catches it and the task ends.
  abbrev pub after_call : Bool → Mailbox M → Thread M → Mailbox M × List (Thread M)
  after_call throws b th = if throws then ends_running b else (b, th ∷ [])

  -- `throws` says whether the handler that this step calls throws, if it calls one.
  unfoldable pub advance : ℕ → Bool → Mailbox M → Thread M → Mailbox M × List (Thread M)
  unfolding compare_exchange take_sys take_user loop_head round_head enter_again
  advance throughput throws b (push_user m) = (
    record b { user_mailbox = b.user_mailbox ++ m ∷ []; posted_user = b.posted_user ++ m ∷ [] },
    add_user ∷ [],
  )
  advance throughput throws b (push_sys m) = (
    record b { system_mailbox = b.system_mailbox ++ m ∷ []; posted_sys = b.posted_sys ++ m ∷ [] },
    add_sys ∷ [],
  )
  advance throughput throws b add_user =
      (record b { user_messages = incr b.user_messages }, schedule ∷ [])
  advance throughput throws b add_sys =
      (record b { sys_messages = incr b.sys_messages }, schedule ∷ [])
  advance throughput throws b schedule = compare_exchange b (task ∷ []) []
  advance throughput throws b task = round_head b 0
  advance throughput throws b (loop round i) = (b, loop_head throughput round i ∷ [])
  advance throughput throws b (pop_sys round i) = take_sys b b.system_mailbox round i
  advance throughput throws b (sub_sys round i m) =
      (record b { sys_messages = decr b.sys_messages }, invoke_sys round i m ∷ [])
  advance throughput throws b (invoke_sys round i m) =
      if b.has_invoker
      then after_call throws (record b { invoked_sys = b.invoked_sys ++ m ∷ [] }) (loop round i)
      else (b, loop round i ∷ [])
  advance throughput throws b (test_suspended round i) =
      (b, (if eqb b.suspended 1 then store_idle round else pop_user round i) ∷ [])
  advance throughput throws b (pop_user round i) = take_user b b.user_mailbox round i
  advance throughput throws b (sub_user round i m) =
      (record b { user_messages = decr b.user_messages }, invoke_user round i m ∷ [])
  advance throughput throws b (invoke_user round i m) =
      if b.has_invoker
      then after_call throws (record b { invoked_user = b.invoked_user ++ m ∷ [] }) (loop round i)
      else (b, loop round i ∷ [])
  advance throughput throws b (store_idle round) =
      (record b { scheduler_status = idle }, load_sys round ∷ [])
  advance throughput throws b (load_sys round) = (b, load_user round b.sys_messages ∷ [])
  advance throughput throws b (load_user round sys) =
      (b, load_suspended round sys b.user_messages ∷ [])
  advance throughput throws b (load_suspended round sys user) = (
    b,
    if is_positive sys || (eqb b.suspended 0 && is_positive user) then retry round ∷ [] else [],
  )
  advance throughput throws b (retry round) = enter_again b round

pub record System (M : Type 0) : Type 0 where
  pub mailbox : Mailbox M
  pub threads : List (Thread M)

-- Thread `th`, with `xs` before it and `ys` behind it, makes its step.
unfoldable pub run_thread :
    {M : Type 0} → ℕ → Bool → Mailbox M → List (Thread M) → Thread M → List (Thread M) → System M
run_thread throughput throws b xs th ys =
    let (b', ths) = advance throughput throws b th in
    record { mailbox = b'; threads = xs ++ (ths ++ ys) }

-- Any thread may post at any time, a message handler too. The dispatcher runs each task that it is
-- given, on some thread; what a handler throws, the worker catches.
pub data Step {M : Type 0} (throughput : ℕ) : System M → System M → Type 0 where
  post_user :
      (s : System M) (m : M) → Step throughput s (record s { threads = push_user m ∷ s.threads })
  post_sys :
      (s : System M) (m : M) → Step throughput s (record s { threads = push_sys m ∷ s.threads })
  run :
      (s : System M) (throws : Bool) (xs : List (Thread M)) (th : Thread M) (ys : List (Thread M))
      → s.threads ≡ xs ++ (th ∷ ys)
      → Step throughput s (run_thread throughput throws s.mailbox xs th ys)

pub data Reach {M : Type 0} (throughput : ℕ) (s : System M) : System M → Type 0 where
  here : Reach throughput s s
  next : {t u : System M} → Reach throughput s t → Step throughput t u → Reach throughput s u

-- A fresh mailbox whose handlers are registered.
unfoldable pub start : {M : Type 0} → System M
start = record { mailbox = register_handlers new_mailbox; threads = [] }
