-- ===== src/Mailbox/Examples.antt =====
-- The mailbox on short schedules.
use protoactor_cpp.Base.{ℕ, ◌≡◌, refl, List, [], ◌∷◌, incr, decr}
use protoactor_cpp.Mailbox.Schedule.{Move, posts_user, posts_sys, steps, play, play-Reach}
use protoactor_cpp.Mailbox.Exclusion.{Locks, Reach-Locks}
use protoactor_cpp.Mailbox.Wakeup.{quiescent-empty}
use protoactor_cpp.Mailbox.Order.{Ordered, Reach-Ordered, quiescent-delivered}
use protoactor_cpp.Mailbox.RoundLimit.{message_stranded}
use protoactor_cpp.Mailbox.{
  System, idle, loop, advance, run_thread, Reach, here, start, new_mailbox, register_handlers,
}

-- One user message, posted and processed by one thread at a time.
abbrev one_message : List (Move ℕ)
one_message =
    posts_user 5
    ∷ steps 0
    ∷ steps 0
    ∷ steps 0
    ∷ steps 0
    ∷ steps 0
    ∷ steps 0
    ∷ steps 0
    ∷ steps 0
    ∷ steps 0
    ∷ steps 0
    ∷ steps 0
    ∷ steps 0
    ∷ steps 0
    ∷ steps 0
    ∷ steps 0
    ∷ steps 0
    ∷ steps 0
    ∷ steps 0
    ∷ []

processed : System ℕ
processed = play 300 start one_message

processed-Reach : Reach 300 start processed
unfolding processed
processed-Reach = play-Reach 300 start start one_message here

processed_threads : processed.threads ≡ []
unfolding processed play advance run_thread start register_handlers new_mailbox incr decr
processed_threads = refl

processed_status : processed.mailbox.scheduler_status ≡ idle
unfolding processed play advance run_thread start register_handlers new_mailbox incr decr
processed_status = refl

processed_user : processed.mailbox.posted_user ≡ 5 ∷ []
unfolding processed play advance run_thread start register_handlers new_mailbox incr decr
processed_user = refl

-- A user message and a system message posted at once, the user message first.
abbrev two_messages : List (Move ℕ)
two_messages =
    posts_user 5 ∷ posts_sys 6 ∷ steps 1 ∷ steps 0 ∷ steps 0 ∷ steps 1 ∷ steps 0 ∷ steps 0 ∷ []

midway : System ℕ
midway = play 300 start two_messages

midway-Reach : Reach 300 start midway
unfolding midway
midway-Reach = play-Reach 300 start start two_messages here

at_loop : System ℕ
at_loop = play 300 start (posts_user 5 ∷ steps 0 ∷ steps 0 ∷ steps 0 ∷ steps 0 ∷ [])

at_loop-Reach : Reach 300 start at_loop
unfolding at_loop
at_loop-Reach = play-Reach 300 start start _ here

at_loop_threads : at_loop.threads ≡ loop 0 0 ∷ []
unfolding at_loop play advance run_thread start register_handlers new_mailbox incr decr
at_loop_threads = refl

quiescent-delivered_example :
    (processed.mailbox.invoked_user ≡ processed.mailbox.posted_user)
    × (processed.mailbox.invoked_sys ≡ processed.mailbox.posted_sys)
quiescent-delivered_example =
    quiescent-delivered processed processed-Reach processed_threads processed_status

quiescent-empty_example :
    (processed.mailbox.user_mailbox ≡ []) × (processed.mailbox.system_mailbox ≡ [])
quiescent-empty_example =
    quiescent-empty processed processed-Reach processed_threads processed_status

message_stranded_example :
    (s : System ℕ) × Reach 300 start s
    × (s.threads ≡ [])
    × (s.mailbox.user_mailbox ≡ 5 ∷ [])
    × ((u : System ℕ)
        → Reach 300 s u
        → (u.mailbox.invoked_user ≡ s.mailbox.invoked_user)
          × (u.mailbox.invoked_sys ≡ s.mailbox.invoked_sys))
message_stranded_example = message_stranded 5

Reach-Ordered_example : Ordered midway.mailbox midway.threads
Reach-Ordered_example = Reach-Ordered midway-Reach

Reach-Locks_example : Locks midway
Reach-Locks_example = Reach-Locks midway-Reach
