-- ===== src/Context/Examples.antt =====
-- The context on concrete actors: an actor that ignores each message, and one that stashes it.
use protoactor_cpp.Base.{nat_eq, ℕ, ◌≡◌, refl, false, Option, none, some, List, [], ◌∷◌, arith}
use protoactor_cpp.Messages.{
  Ref, Msg, payload, stop, restart, watch, unwatch, envelope, unwrap_envelope,
}
use protoactor_cpp.Context.{
  State, Context, alive, dead_letter, message, sender, request, request_with_custom_sender,
  request_future, respond, with_sender, passed_on,
}
use protoactor_cpp.Context.Invoke.{
  is_stopped, invoke_user_message, process_message, default_receive, stash_of, stash, handle_stop,
  handle_watch, handle_unwatch, handle_system, invoke_system_message, unstash_all,
}
use protoactor_cpp.Context.Lifecycle.{
  actual, next_state, next_stash, invoke_system_message-next_state,
}
use protoactor_cpp.Context.Requests.{handling, request_unanswered}
use protoactor_cpp.Context.Stash.{invoke_each, stash_each, unstash_all_lifo}
use protoactor_cpp.Context.Timers.{Timing}

abbrev Actor : Type 0
Actor = Context ℕ ℕ

abbrev ref : ℕ → Ref
ref n = record { ptr = n; pid = record { address = []; id = n ∷ []; request_id = 0 } }

abbrev new_actor : Actor
new_actor = record {
  actor = 1;
  parent = none;
  self = some (ref 1);
  receive_timeout = 0;
  message_or_envelope = none;
  state = alive;
  extras = none;
  timers = 0;
  log = [];
  sender_middleware = none;
}

abbrev watched_actor : Actor
watched_actor = record new_actor {
  extras = some (record {
    children = [];
    watchers = ref 7 ∷ [];
    stash = some (payload 4) ∷ some (payload 3) ∷ [];
    receive_timeout_timer = none;
  });
}

abbrev ignore : Actor → Actor
ignore c = c

stops :
    invoke_system_message ignore 2 none 9 watched_actor (some (envelope none stop none))
    ≡ some (record watched_actor { state = State.stopped })
unfolding invoke_system_message handle_system handle_stop unwrap_envelope
stops = refl

ignore-LeavesStash :
    (c : Actor) (m : Option (Msg ℕ)) → stash_of (invoke_user_message ignore 2 none c m) ≡ stash_of c
unfolding invoke_user_message process_message default_receive
ignore-LeavesStash c m = ground arith

ignore-KeepsState :
    (c : Actor) (m : Option (Msg ℕ)) → (process_message ignore 2 none c m).state ≡ c.state
unfolding process_message default_receive
ignore-KeepsState c m = refl

ignore-KeepsStash :
    (c : Actor) (m : Option (Msg ℕ)) → stash_of (process_message ignore 2 none c m) ≡ stash_of c
unfolding process_message default_receive
ignore-KeepsStash c m = refl

invoke_system_message-next_state_example :
    (d : Actor) × (invoke_system_message ignore 2 none 9 watched_actor
        (some (envelope none restart none))
      ≡ some d)
    × (d.state ≡ next_state ignore 2 none (actual (envelope none restart none)) alive)
    × (stash_of d
        ≡ next_stash ignore 2 none (actual (envelope none restart none)) (stash_of watched_actor))
invoke_system_message-next_state_example =
    invoke_system_message-next_state ignore 2 none 9 watched_actor (envelope none restart none)
      ignore-KeepsState ignore-KeepsStash (omega arith)

abbrev twice_watched : Actor
twice_watched = handle_watch watched_actor (ref 8)

watches :
    invoke_system_message ignore 2 none 9 watched_actor (some (watch (some (ref 8))))
    ≡ some twice_watched
unfolding invoke_system_message handle_system unwrap_envelope
watches = refl

unwatches :
    invoke_system_message ignore 2 none 9 watched_actor (some (unwatch (some (ref 8))))
    ≡ some watched_actor
unfolding invoke_system_message handle_system handle_unwatch unwrap_envelope
unwatches = refl

request_unanswered_example :
    (env : Msg ℕ) × ((request_with_custom_sender new_actor
        (some (ref 2))
        (some (payload 5))
        (some (ref 3))).log
      ≡ passed_on new_actor (ref 2) env)
    × (request new_actor (some (ref 2)) (some (payload 5))
        ≡ request_with_custom_sender new_actor (some (ref 2)) (some (payload 5)) (some (ref 1)))
    × (message (handling watched_actor env) ≡ some (with_sender (some (payload 5)) (some (ref 3))))
    × (sender (handling watched_actor env) ≡ none)
    × ((respond (handling watched_actor env) (some (payload 6))).log
        ≡ dead_letter (some (payload 6)) ∷ [])
    × (request_future new_actor (some (ref 2)) (some (payload 5)) ≡ none)
request_unanswered_example =
    request_unanswered new_actor watched_actor (ref 2) (some (payload 5)) (some (ref 3))
      (some (payload 6))

unstash_all_lifo_example :
    let ms : List (Option (Msg ℕ)) = some (payload 5) ∷ some (payload 6) ∷ [] in
    let order : List (Option (Msg ℕ)) =
      some (payload 6) ∷ some (payload 5) ∷ some (payload 4) ∷ some (payload 3) ∷ [] in
    let handled = invoke_each ignore 2 none (stash_each watched_actor ms) order in
    (unstash_all ignore 2 none 5 (stash_each watched_actor ms) ≡ some handled)
    × (stash_of handled ≡ [])
unstash_all_lifo_example =
    unstash_all_lifo ignore 2 none 5 watched_actor (some (payload 5) ∷ some (payload 6) ∷ [])
      ignore-LeavesStash (omega arith)

-- The actor that stashes whatever it is given.
stashes :
    (c : Actor) (m : Option (Msg ℕ))
    → is_stopped c.state ≡ false
    → (stash_of (invoke_user_message stash 2 none c m) ≡ m ∷ stash_of c)
      × (is_stopped (invoke_user_message stash 2 none c m).state ≡ false)
unfolding invoke_user_message process_message default_receive stash
stashes c m h = rw h (refl, h)

abbrev new_timing : Timing ℕ ℕ
new_timing = record { context = new_actor; expired = [] }
