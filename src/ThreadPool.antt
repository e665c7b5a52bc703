-- ===== src/ThreadPool.antt =====
-- src/actor/thread_pool.cpp: ThreadPool::Impl. Its mutex is held for each part that reads or writes
-- the queue, so a run is a sequence of such parts, in any order, of any threads. `T` is a task.
pub mod Drain
pub mod Joins
mod Examples
use protoactor_cpp.Base.{
  ℕ, zero, suc, ◌+◌, Bool, true, false, ◌||◌, Option, none, some, List, [], ◌∷◌, ◌++◌, get_elem?,
  set, if◌then◌else◌, eqb,
}

-- Where a worker stands in WorkerLoop: before the wait, in a task, or returned.
pub data Worker (T : Type 0) : Type 0 where
  waiting : Worker T
  working : T → Worker T
  exited : Worker T

-- The fields of Impl. `accepted`, `taken` and `dropped` are history: the tasks that Submit put into
-- the queue, those that a worker took out, and those that ShutdownNow threw away, oldest first.
pub record Pool (T : Type 0) : Type 0 where
  pub queue : List T
  pub stop : Bool
  pub stop_now : Bool
  pub workers : List (Worker T)
  pub accepted : List T
  pub taken : List T
  pub dropped : List T

-- What the threads of the program do with the pool.
pub data Move (T : Type 0) : Type 0 where
  -- Submit; `none` is an empty function.
  submits : Option T → Move T
  -- Shutdown and ShutdownNow, up to their joins.
  shuts_down : Move T
  shuts_down_now : Move T
  -- The worker with this number makes its step, if it can.
  steps : ℕ → Move T

module _ {T : Type 0} where
  unfoldable pub new_workers : ℕ → List (Worker T)
  new_workers zero = []
  new_workers (suc n) = waiting ∷ new_workers n

  -- `cpus` is what platform::GetCPUCount gives, as std::max(1, cpus).
  unfoldable pub new_pool : ℕ → ℕ → Pool T
  unfolding new_workers
  new_pool cpus num_threads = record {
    queue = [];
    stop = false;
    stop_now = false;
    workers = new_workers (if eqb num_threads 0 then cpus else num_threads);
    accepted = [];
    taken = [];
    dropped = [];
  }

  unfoldable pub submit : Pool T → Option T → Pool T
  submit p none = p
  submit p (some task) =
      if p.stop || p.stop_now
      then p
      else record p { queue = p.queue ++ task ∷ []; accepted = p.accepted ++ task ∷ [] }

  unfoldable pub shutdown : Pool T → Pool T
  shutdown p = if p.stop then p else record p { stop = true }

  unfoldable pub shutdown_now : Pool T → Pool T
  shutdown_now p =
      if p.stop
      then p
      else record p { stop_now = true; stop = true; queue = []; dropped = p.dropped ++ p.queue }

  -- The locked part of WorkerLoop by worker `i`: on an empty queue it waits on, or returns.
  unfoldable pub take_task : Pool T → ℕ → List T → Pool T
  take_task p i [] = if p.stop then record p { workers = set p.workers i exited } else p
  take_task p i (task ∷ rest) = record p {
    queue = rest;
    taken = p.taken ++ task ∷ [];
    workers = set p.workers i (working task);
  }

  -- A task that is done, or that threw, sends its worker back to the wait.
  unfoldable pub worker_step : Pool T → ℕ → Worker T → Pool T
  unfolding take_task
  worker_step p i waiting = take_task p i p.queue
  worker_step p i (working task) = record p { workers = set p.workers i waiting }
  worker_step p i exited = p

  abbrev step_of : Pool T → ℕ → Option (Worker T) → Pool T
  step_of p i none = p
  step_of p i (some w) = worker_step p i w

  unfoldable pub move : Pool T → Move T → Pool T
  unfolding submit shutdown shutdown_now worker_step
  move p (submits task) = submit p task
  move p shuts_down = shutdown p
  move p shuts_down_now = shutdown_now p
  move p (steps i) = step_of p i (get_elem? p.workers i)

  unfoldable pub play : Pool T → List (Move T) → Pool T
  unfolding move
  play p [] = p
  play p (mv ∷ mvs) = play (move p mv) mvs
