-- ===== src/ThreadPool/Examples.antt =====
-- A pool of two workers; tasks are numbers.
use protoactor_cpp.Base.{ℕ, ◌≤◌, ◌≡◌, ◌↔◌, refl, true, false, some, List, [], ◌∷◌, any, All}
use protoactor_cpp.ThreadPool.{
  Pool, Move, submits, shuts_down, steps, new_workers, new_pool, submit, shutdown, worker_step,
  take_task, play,
}
use protoactor_cpp.ThreadPool.Drain.{has_exited, exited_drained}
use protoactor_cpp.ThreadPool.Joins.{productive_moves, remaining, returned, joins_end}

-- Two tasks, a shutdown, a task too late, and the workers up to the return of the first.
abbrev moves : List (Move ℕ)
moves =
    submits (some 5)
    ∷ submits (some 6)
    ∷ steps 0
    ∷ shuts_down
    ∷ submits (some 7)
    ∷ steps 1
    ∷ steps 0
    ∷ steps 0
    ∷ []

ran_taken : (play (new_pool 8 2) moves).taken ≡ 5 ∷ 6 ∷ []
unfolding play new_pool new_workers submit shutdown worker_step take_task
ran_taken = refl

ran_exited : any has_exited (play (new_pool 8 2) moves).workers ≡ true
unfolding play new_pool new_workers submit shutdown worker_step take_task
ran_exited = refl

ran_kept : (play (new_pool 8 2) moves).stop_now ≡ false
unfolding play new_pool new_workers submit shutdown worker_step take_task
ran_kept = refl

exited_drained_example : (play (new_pool 8 2) moves).taken ≡ (play (new_pool 8 2) moves).accepted
exited_drained_example = exited_drained 8 2 moves ran_exited ran_kept

abbrev stopped : Pool ℕ
stopped = shutdown (submit (new_pool 8 2) (some 5))

stopped_stop : stopped.stop ≡ true
unfolding new_pool submit shutdown
stopped_stop = refl

abbrev to_the_end : List (Move ℕ)
to_the_end = steps 0 ∷ steps 1 ∷ steps 0 ∷ steps 0 ∷ []

joins_end_example :
    (productive_moves stopped to_the_end ≤ remaining stopped)
    × ((productive_moves stopped to_the_end ≡ remaining stopped) ↔ (
        All (λ w. returned w ≡ true) (play stopped to_the_end).workers
        × ((play stopped to_the_end).queue ≡ [])))
joins_end_example = joins_end stopped to_the_end stopped_stop
