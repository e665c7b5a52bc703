-- ===== src/Context.antt =====
-- src/actor/actor_context.cpp: the state of an ActorContext, and what it sends. `A` is the actor
-- that the producer makes. What the context does to other processes is appended to `log`.
pub mod Invoke
pub mod Requests
pub mod Lifecycle
pub mod Stash
pub mod Timers
mod Examples
use protoactor_cpp.Base.{
  ℕ, suc, ◌+◌, Bool, true, false, Option, none, some, List, [], ◌∷◌, ◌++◌, Bytes, ltb, eqb,
  if◌then◌else◌, ◌>>=◌,
}
use protoactor_cpp.Pid.{Pid}
use protoactor_cpp.Messages.{
  Ref, Msg, TerminatedReason, watch, unwatch, receive_timeout, poison_pill, failure, continuation,
  continuation_null, envelope, envelope_null, wrap_envelope, unwrap_envelope, Header,
}

pub data State : Type 0 where
  alive restarting stopping stopped : State

pub data Effect (P : Type 0) : Type 0 where
  -- pid->SendUserMessage and pid->SendSystemMessage.
  send_user : Ref → Option (Msg P) → Effect P
  send_system : Ref → Msg P → Effect P
  dead_letter : Option (Msg P) → Effect P
  -- process->Stop(pid) on the process that the PID refers to.
  stop_process : Ref → Effect P
  -- SendOnce of the timer with this number, and the call of its CancelFunc.
  start_timer : ℕ → ℕ → Effect P
  cancel_timer : ℕ → Effect P
  -- The call of a continuation function.
  continue_with : P → Effect P

-- ActorContext::Extras; the top of the stash is its head. restart_stats_ is never used.
pub record Extras (P : Type 0) : Type 0 where
  pub children : List Ref
  pub watchers : List Ref
  pub stash : List (Option (Msg P))
  pub receive_timeout_timer : Option ℕ

pub record Context (A P : Type 0) : Type 0 where
  pub actor : A
  pub parent : Option Ref
  pub self : Option Ref
  pub receive_timeout : ℕ
  pub message_or_envelope : Option (Msg P)
  pub state : State
  pub extras : Option (Extras P)
  -- How many timers were started so far; it numbers them.
  pub timers : ℕ
  pub log : List (Effect P)
  -- The sender middleware of the Props: what it does with a PID and an envelope.
  pub sender_middleware : Option (Ref → Msg P → List (Effect P))

module _ {P : Type 0} where
  abbrev pub new_extras : Extras P
  new_extras = record { children = []; watchers = []; stash = []; receive_timeout_timer = none }

  abbrev pub extras_or_new : Option (Extras P) → Extras P
  extras_or_new none = new_extras
  extras_or_new (some x) = x

  abbrev pub with_sender : Option (Msg P) → Option Ref → Msg P
  with_sender none s = envelope_null none s
  with_sender (some m) s = envelope none m s

-- NewFuture of src/actor/future.cpp: the constructor calls shared_from_this before any shared_ptr
-- owns the future, which throws std::bad_weak_ptr.
abbrev future_or_throw : Option Ref
future_or_throw = none

module _ {A P : Type 0} where
  abbrev pub emit : Context A P → Effect P → Context A P
  emit c e = record c { log = c.log ++ e ∷ [] }

  -- EnsureExtras.
  abbrev pub ensure_extras : Context A P → Extras P
  ensure_extras c = extras_or_new c.extras

  -- The constructor; `fresh` is the actor that the producer makes.
  unfoldable pub new_context : A → Option (Ref → Msg P → List (Effect P)) → Option Ref → Context A P
  new_context fresh middleware parent = record {
    sender_middleware = middleware;
    actor = fresh;
    parent = parent;
    self = none;
    receive_timeout = 0;
    message_or_envelope = none;
    state = alive;
    extras = none;
    timers = 0;
    log = [];
  }

  unfoldable pub set_self : Context A P → Option Ref → Context A P
  set_self c self = record c { self = self }

  unfoldable pub message : Context A P → Option (Msg P)
  message c = (unwrap_envelope c.message_or_envelope).1

  unfoldable pub sender : Context A P → Option Ref
  sender c = (unwrap_envelope c.message_or_envelope).2

  -- What an envelope that is sent leads to.
  abbrev pub passed_on : Context A P → Ref → Msg P → List (Effect P)
  passed_on c pid e = elim c.sender_middleware [
    | none ↦ send_user pid (some e) ∷ []
    | some chain ↦ chain pid e
  ]

  -- The private SendUserMessage, which always makes a new envelope.
  unfoldable pub send_user_message : Context A P → Option Ref → Option (Msg P) → Context A P
  send_user_message c none m = c
  send_user_message c (some pid) m = record c {
    log = c.log ++ passed_on c pid (with_sender m none);
  }

  unfoldable pub send : Context A P → Option Ref → Option (Msg P) → Context A P
  unfolding send_user_message
  send c pid m = send_user_message c pid m

  unfoldable pub request_with_custom_sender :
      Context A P → Option Ref → Option (Msg P) → Option Ref → Context A P
  unfolding send_user_message
  request_with_custom_sender c pid m s = send_user_message c pid (some (with_sender m s))

  unfoldable pub request : Context A P → Option Ref → Option (Msg P) → Context A P
  unfolding send_user_message
  request c pid m = send_user_message c pid (some (with_sender m c.self))

  -- `none` is the exception of NewFuture, before which nothing is sent.
  unfoldable pub request_future : Context A P → Option Ref → Option (Msg P) → Option (Context A P)
  unfolding send_user_message
  request_future c pid m = do
    future ← future_or_throw
    some (send_user_message c pid (some (with_sender m (some future))))

  abbrev respond_to : Context A P → Option (Msg P) → Option Ref → Context A P
  respond_to c response none = emit c (dead_letter response)
  respond_to c response (some s) = send c (some s) response

  unfoldable pub respond : Context A P → Option (Msg P) → Context A P
  unfolding send
  respond c response = respond_to c response (sender c)

  unfoldable pub watch_pid : Context A P → Option Ref → Context A P
  watch_pid c none = c
  watch_pid c (some pid) = emit c (send_system pid (watch c.self))

  unfoldable pub unwatch_pid : Context A P → Option Ref → Context A P
  unwatch_pid c none = c
  unwatch_pid c (some pid) = emit c (send_system pid (unwatch c.self))

  -- Stop(pid); `process` says whether pid->Ref gives a process.
  unfoldable pub stop_pid : Context A P → Bool → Option Ref → Context A P
  stop_pid c process none = c
  stop_pid c process (some pid) = if process then emit c (stop_process pid) else c

  unfoldable pub poison : Context A P → Option Ref → Context A P
  poison c none = c
  poison c (some pid) = emit c (send_user pid (some poison_pill))

  -- StopFuture and PoisonFuture.
  unfoldable pub stop_future : Context A P → Bool → Ref → Option (Context A P)
  unfolding stop_pid
  stop_future c process pid = do
    future ← future_or_throw
    some (stop_pid (emit c (send_system pid (watch (some future)))) process (some pid))

  unfoldable pub poison_future : Context A P → Ref → Option (Context A P)
  unfolding poison
  poison_future c pid = do
    future ← future_or_throw
    some (poison (emit c (send_system pid (watch (some future)))) (some pid))

  -- Forward: the static cast to SystemMessage is null only if the message is.
  unfoldable pub forward : Context A P → Option Ref → Context A P
  unfolding send_user_message
  forward c pid = elim c.message_or_envelope [ none ↦ send_user_message c pid none | some m ↦ c ]

  unfoldable pub children : Context A P → List Ref
  children c = elim c.extras [ none ↦ [] | some x ↦ x.children ]

  unfoldable pub escalate_failure : Context A P → P → P → Context A P
  escalate_failure c reason m = elim c.parent [
    | none ↦ c
    | some pid ↦ emit c (send_system pid (failure c.self reason m))
  ]

  -- ReenterAfter: the continuation that the future is given sends this message to the context.
  unfoldable pub continuation_message : Context A P → Option P → Msg P
  continuation_message c k = elim c.message_or_envelope [
    | none ↦ continuation_null k
    | some m ↦ continuation k m
  ]

  -- Capture, and Apply of a captured envelope.
  unfoldable pub capture : Context A P → Option (Msg P)
  capture c = wrap_envelope c.message_or_envelope

  unfoldable pub apply : Context A P → Option (Msg P) → Context A P
  apply c captured = record c { message_or_envelope = captured }
