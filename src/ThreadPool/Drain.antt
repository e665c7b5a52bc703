-- ===== src/ThreadPool/Drain.antt =====
-- The shutdown of the pool (thread_pool.cpp).
use protoactor_cpp.Base.{
  append_assoc, append-nil, ℕ, zero, suc, ◌≡◌, ◌⊎◌, inl, inr, refl, sym, ap, ◌∙◌, Bool, true, false,
  ◌||◌, Option, none, some, List, [], ◌∷◌, ◌++◌, get_elem?, set, any, if◌then◌else◌, eqb, arith,
  Bool-cases, Option-cases,
}
use protoactor_cpp.ThreadPool.{
  Worker, waiting, working, exited, Pool, Move, submits, shuts_down, shuts_down_now, steps,
  new_workers, new_pool, submit, shutdown, shutdown_now, take_task, worker_step, move, play,
}

module _ {T : Type 0} where
  abbrev pub has_exited : Worker T → Bool
  has_exited exited = true
  has_exited w = false

none_exited : (T : Type 0) (n : ℕ) → any has_exited (new_workers {T = T} n) ≡ false
unfolding new_workers
none_exited T zero = refl
none_exited T (suc n) = none_exited T n

module _ {T : Type 0} where
  any-set :
      (ws : List (Worker T)) (i : ℕ) (v : Worker T)
      → has_exited v ≡ false
      → any has_exited (set ws i v) ≡ true
      → any has_exited ws ≡ true
  any-set [] i v h e = e
  any-set (w ∷ ws) zero v h e = ground arith
  any-set (w ∷ ws) (suc i) v h e = ground (arith, any-set ws i v h)

  -- Tasks are taken in the order in which they were accepted, none is lost but by ShutdownNow, and
  -- a worker returns only once the pool is stopped and the queue is empty.
  pub record Drains (p : Pool T) : Type 0 where
    pub split : p.accepted ≡ p.taken ++ (p.dropped ++ p.queue)
    pub no_drop : p.stop_now ≡ false → p.dropped ≡ []
    pub all_dropped : p.stop_now ≡ true → (p.queue ≡ []) × (p.stop ≡ true)
    pub exits : any has_exited p.workers ≡ true → (p.queue ≡ []) × (p.stop ≡ true)

  submit-Drains : (p : Pool T) (task : Option T) → Drains p → Drains (submit p task)
  unfolding submit
  submit-Drains p none d = d
  submit-Drains p (some task) d = elim (Bool-cases (p.stop || p.stop_now)) [
    | inl stopped ↦ rw stopped d
    | inr running ↦ rw running (record {
      split =
          ap (λ t. t ++ task ∷ []) d.split
          ∙ append_assoc p.taken (p.dropped ++ p.queue) (task ∷ [])
          ∙ ap (λ t. p.taken ++ t) (append_assoc p.dropped p.queue (task ∷ []));
      no_drop = d.no_drop;
      all_dropped = λ e. ground (arith, d.all_dropped, e);
      exits = λ e. ground (arith, d.exits e);
    })
  ]

  shutdown_cases :
      (p : Pool T)
      → ((p.stop ≡ true) × (shutdown p ≡ p) × (shutdown_now p ≡ p))
        ⊎ ((p.stop ≡ false)
            × (shutdown p ≡ record p { stop = true })
            × (shutdown_now p ≡ record p {
              stop_now = true;
              stop = true;
              queue = [];
              dropped = p.dropped ++ p.queue;
            }))
  unfolding shutdown shutdown_now
  shutdown_cases p = elim (Bool-cases p.stop) [
    | inl stopped ↦ inl (stopped, ground arith, ground arith)
    | inr running ↦ inr (running, ground arith, ground arith)
  ]

  shutdown-Drains : (p : Pool T) → Drains p → Drains (shutdown p)
  shutdown-Drains p d = elim (shutdown_cases p) [
    | inl (stopped, same, same_now) ↦ rw same d
    | inr (running, e, e_now) ↦ rw e (record {
      split = d.split;
      no_drop = d.no_drop;
      all_dropped = λ now. ((d.all_dropped now).0, refl);
      exits = λ one. ((d.exits one).0, refl);
    })
  ]

  shutdown_now-Drains : (p : Pool T) → Drains p → Drains (shutdown_now p)
  shutdown_now-Drains p d = elim (shutdown_cases p) [
    | inl (stopped, same, same_now) ↦ rw same_now d
    | inr (running, e, e_now) ↦ rw e_now (record {
      split = d.split ∙ sym (ap (λ t. p.taken ++ t) (append-nil (p.dropped ++ p.queue)));
      no_drop = λ now. ground arith;
      all_dropped = λ now. (refl, refl);
      exits = λ one. (refl, refl);
    })
  ]

  idle_cases :
      (p : Pool T) (i : ℕ)
      → (take_task p i [] ≡ p)
        ⊎ ((p.stop ≡ true) × (take_task p i [] ≡ record p { workers = set p.workers i exited }))
  unfolding take_task
  idle_cases p i = elim (Bool-cases p.stop) [
    | inl stopped ↦ inr (stopped, ground arith)
    | inr running ↦ inl (ground arith)
  ]

  nothing_dropped :
      (p : Pool T) (t : T) (ts : List T) → p.queue ≡ t ∷ ts → Drains p → p.dropped ≡ []
  nothing_dropped p t ts e d = elim (Bool-cases p.stop_now) [
    | inl now ↦ ground (arith, d.all_dropped now)
    | inr open_still ↦ d.no_drop open_still
  ]

  take_task-Drains :
      (p : Pool T) (i : ℕ) (ts : List T) → p.queue ≡ ts → Drains p → Drains (take_task p i ts)
  take_task-Drains p i [] e d = elim (idle_cases p i) [
    | inl same ↦ rw same d
    | inr (stopped, returns) ↦ rw returns (record {
      split = d.split;
      no_drop = d.no_drop;
      all_dropped = d.all_dropped;
      exits = λ one. (e, stopped);
    })
  ]
  take_task-Drains p i (t ∷ ts) e d =
      let none_dropped = nothing_dropped p t ts e d in
      unfold take_task in
      record {
        split =
            d.split
            ∙ ap (λ x. p.taken ++ (x ++ p.queue)) none_dropped
            ∙ ap (λ q. p.taken ++ q) e
            ∙ sym (append_assoc p.taken (t ∷ []) ts)
            ∙ sym (ap (λ x. (p.taken ++ t ∷ []) ++ (x ++ ts)) none_dropped);
        no_drop = d.no_drop;
        all_dropped = λ now. ground (arith, d.all_dropped now);
        exits = λ one. ground (arith, d.exits (any-set p.workers i (working t) refl one));
      }

  worker_step-Drains : (p : Pool T) (i : ℕ) (w : Worker T) → Drains p → Drains (worker_step p i w)
  unfolding worker_step
  worker_step-Drains p i waiting d = take_task-Drains p i p.queue refl d
  worker_step-Drains p i (working t) d = record {
    split = d.split;
    no_drop = d.no_drop;
    all_dropped = d.all_dropped;
    exits = λ one. d.exits (any-set p.workers i waiting refl one);
  }
  worker_step-Drains p i exited d = d

  move-Drains : (p : Pool T) (mv : Move T) → Drains p → Drains (move p mv)
  unfolding move
  move-Drains p (submits task) d = submit-Drains p task d
  move-Drains p shuts_down d = shutdown-Drains p d
  move-Drains p shuts_down_now d = shutdown_now-Drains p d
  move-Drains p (steps i) d = elim (Option-cases (get_elem? p.workers i)) [
    | inl e ↦ rw e d
    | inr (w, e) ↦ rw e (worker_step-Drains p i w d)
  ]

  play-Drains : (p : Pool T) (mvs : List (Move T)) → Drains p → Drains (play p mvs)
  unfolding play
  play-Drains p [] d = d
  play-Drains p (mv ∷ mvs) d = play-Drains (move p mv) mvs (move-Drains p mv d)

  new_pool-Drains : (cpus n : ℕ) → Drains (new_pool {T = T} cpus n)
  unfolding new_pool
  new_pool-Drains cpus n = record {
    split = refl;
    no_drop = λ now. refl;
    all_dropped = λ now. ground arith;
    exits = λ one. ground (arith, none_exited T (if eqb n 0 then cpus else n));
  }

  -- In every run of a new pool in which ShutdownNow took no effect: once a worker has returned, the workers
  -- have taken exactly the tasks that Submit accepted, in that order; none is left behind.
  pub exited_drained :
      (cpus n : ℕ) (mvs : List (Move T))
      → any has_exited (play (new_pool cpus n) mvs).workers ≡ true
      → (play (new_pool cpus n) mvs).stop_now ≡ false
      → (play (new_pool cpus n) mvs).taken ≡ (play (new_pool cpus n) mvs).accepted
  exited_drained cpus n mvs one kept =
      let p = play (new_pool cpus n) mvs in
      let d = play-Drains (new_pool cpus n) mvs (new_pool-Drains cpus n) in
      sym (
        d.split
        ∙ ap (λ x. p.taken ++ (x ++ p.queue)) (d.no_drop kept)
        ∙ ap (λ q. p.taken ++ q) (d.exits one).0
        ∙ append-nil p.taken)
