-- ===== src/ThreadPool/Joins.antt =====
-- The joins of Shutdown and ShutdownNow (thread_pool.cpp): every worker returns.
use protoactor_cpp.Base.{
  ℕ, zero, suc, ◌+◌, ◌*◌, ◌≤◌, ◌≡◌, ◌↔◌, inl, inr, refl, ap, Bool, true, false, Option, none, some,
  List, [], ◌∷◌, get_elem?, set, All, eq_nil_of_length, length, if◌then◌else◌, arith, Bool-cases,
  Option-cases,
}
use protoactor_cpp.ThreadPool.{
  Worker, waiting, working, exited, Pool, Move, submits, shuts_down, shuts_down_now, steps, submit,
  shutdown, shutdown_now, take_task, worker_step, move, play,
}

module _ {T : Type 0} where
  abbrev weight : Worker T → ℕ
  weight waiting = 1
  weight (working t) = 2
  weight exited = 0

  abbrev weights : List (Worker T) → ℕ
  weights [] = 0
  weights (w ∷ ws) = weight w + weights ws

  -- The steps that a stopped pool has still to make: two for each task in the queue, one for each
  -- worker that waits and two for each that works.
  abbrev pub remaining : Pool T → ℕ
  remaining p = 2 * length p.queue + weights p.workers

  weights-set :
      (ws : List (Worker T)) (i : ℕ) (w v : Worker T)
      → get_elem? ws i ≡ some w
      → weights (set ws i v) + weight w ≡ weights ws + weight v
  weights-set [] i w v e = cc
  weights-set (x ∷ ws) zero w v e = ground arith
  weights-set (x ∷ ws) (suc i) w v e = omega (arith, weights-set ws i w v e)

  take_task-remaining :
      (p : Pool T) (i : ℕ) (ts : List T)
      → p.stop ≡ true
      → get_elem? p.workers i ≡ some waiting
      → p.queue ≡ ts
      → (remaining (take_task p i ts) + 1 ≡ remaining p) × ((take_task p i ts).stop ≡ true)
  unfolding take_task
  take_task-remaining p i [] stopped at e =
      ground (arith, weights-set p.workers i waiting exited at, stopped, e)
  take_task-remaining p i (t ∷ ts) stopped at e =
      let size : length p.queue ≡ length ts + 1 = rw e (omega arith) in
      (omega (arith, weights-set p.workers i waiting (working t) at, size), stopped)

  abbrev pub returned : Worker T → Bool
  returned exited = true
  returned w = false

  worker_step-remaining :
      (p : Pool T) (i : ℕ) (w : Worker T)
      → p.stop ≡ true
      → get_elem? p.workers i ≡ some w
      → returned w ≡ false
      → (remaining (worker_step p i w) + 1 ≡ remaining p) × ((worker_step p i w).stop ≡ true)
  unfolding worker_step
  worker_step-remaining p i waiting stopped at h = take_task-remaining p i p.queue stopped at refl
  worker_step-remaining p i (working t) stopped at h =
      (omega (arith, weights-set p.workers i (working t) waiting at), stopped)
  worker_step-remaining p i exited stopped at h = ground arith

  abbrev unfinished : Option (Worker T) → ℕ
  unfinished none = 0
  unfinished (some w) = if returned w then 0 else 1

  -- 1 for the step of a worker that has not returned, and 0 for each other move.
  abbrev pub productive : Pool T → Move T → ℕ
  productive p (steps i) = unfinished (get_elem? p.workers i)
  productive p mv = 0

  exited_step : (p : Pool T) (i : ℕ) (w : Worker T) → returned w ≡ true → worker_step p i w ≡ p
  unfolding worker_step
  exited_step p i exited h = refl
  exited_step p i waiting h = ground arith
  exited_step p i (working t) h = ground arith

  move-remaining :
      (p : Pool T) (mv : Move T)
      → p.stop ≡ true
      → (productive p mv + remaining (move p mv) ≡ remaining p) × ((move p mv).stop ≡ true)
  unfolding move submit shutdown shutdown_now
  move-remaining p (submits none) stopped = (omega arith, stopped)
  move-remaining p (submits (some t)) stopped = ground arith
  move-remaining p shuts_down stopped = ground arith
  move-remaining p shuts_down_now stopped = ground arith
  move-remaining p (steps i) stopped = elim (Option-cases (get_elem? p.workers i)) [
    | inl e ↦ rw e (omega arith, stopped)
    | inr (w, e) ↦ elim (Bool-cases (returned w)) [
      | inl back ↦ rw (e, back, exited_step p i w back) (omega arith, stopped)
      | inr inside ↦
          let (less, still) = worker_step-remaining p i w stopped e inside in
          rw (e, inside) (omega (arith, less), still)
    ]
  ]

  -- The productive moves of a run.
  abbrev pub productive_moves : Pool T → List (Move T) → ℕ
  productive_moves p [] = 0
  productive_moves p (mv ∷ mvs) = productive p mv + productive_moves (move p mv) mvs

  weightless_returned : (ws : List (Worker T)) → weights ws ≡ 0 → All (λ w. returned w ≡ true) ws
  weightless_returned [] h = tt
  weightless_returned (waiting ∷ ws) h = absurd (omega arith)
  weightless_returned (working t ∷ ws) h = absurd (omega arith)
  weightless_returned (exited ∷ ws) h = (refl, weightless_returned ws (omega arith))

  play-remaining :
      (p : Pool T) (mvs : List (Move T))
      → p.stop ≡ true
      → productive_moves p mvs + remaining (play p mvs) ≡ remaining p
  unfolding play
  play-remaining p [] stopped = omega arith
  play-remaining p (mv ∷ mvs) stopped =
      let (less, still) = move-remaining p mv stopped in
      omega (arith, less, play-remaining (move p mv) mvs still)

  no_weight : (ws : List (Worker T)) → All (λ w. returned w ≡ true) ws → weights ws ≡ 0
  no_weight [] h = refl
  no_weight (waiting ∷ ws) h = ground arith
  no_weight (working t ∷ ws) h = ground arith
  no_weight (exited ∷ ws) h = omega (arith, no_weight ws h.1)

  -- Once the pool is stopped, whatever is called: a run has at most `remaining` steps of workers
  -- that have not returned, and it has exactly so many if and only if in the end every worker has
  -- returned and the queue is empty.
  pub joins_end :
      (p : Pool T) (mvs : List (Move T))
      → p.stop ≡ true
      → (productive_moves p mvs ≤ remaining p)
        × ((productive_moves p mvs ≡ remaining p)
            ↔ (All (λ w. returned w ≡ true) (play p mvs).workers × ((play p mvs).queue ≡ [])))
  joins_end p mvs stopped =
      let count = play-remaining p mvs stopped in
      (
        omega (arith, count),
        (
          λ all_done. (
            weightless_returned (play p mvs).workers (omega (arith, count)),
            eq_nil_of_length (play p mvs).queue (omega (arith, count)),
          ),
          λ (back, empty).
              let none_left = no_weight (play p mvs).workers back in
              let no_task : length (play p mvs).queue ≡ 0 = ap length empty in
              omega (arith, count, none_left, no_task),
        ),
      )
