-- ===== src/EndpointWatcher/Notices.antt =====
-- Who is told when the endpoint terminates (endpoint_watcher.cpp).
use protoactor_cpp.Base.{
  ◌≡◌, ◌⊎◌, refl, inl, inr, Bool, false, ◌&&◌, ◌||◌, none, some, List, [], ◌∷◌, ◌++◌, map, Bytes,
  bytes_eq, bytes_beq, bytes_beq_iff, lookup, any, arith, Option-cases, Distinct, Distinct-insert,
  Distinct-erase,
}
use protoactor_cpp.Pid.{Pid}
use protoactor_cpp.Messages.{stopped_reason, address_terminated}
use protoactor_cpp.EndpointWatcher.{
  EndpointWatcher, Sent, remote_watch, remote_unwatch, stops_self, terminated_to, has_id,
  without_id, kept, forget, new_watcher, handle_remote_watch, handle_remote_unwatch,
  handle_remote_terminate, notices, handle_endpoint_terminated,
}
use protoactor_cpp.EndpointWatcher.Watching.{
  Call, watch, unwatch, terminate, handle, run, watches, relation_after, watches-run,
}

abbrev is_notice : Bytes → Bytes → Sent → Bool
is_notice watcher id (terminated_to other p address_terminated) =
    bytes_beq other watcher && bytes_beq p.id id
is_notice watcher id _ = false

-- The watcher is told that the watchee with this id is terminated with its address.
abbrev pub told : Bytes → Bytes → List Sent → Bool
told watcher id = any (is_notice watcher id)

told-append :
    (w id : Bytes) (xs ys : List Sent) → told w id (xs ++ ys) ≡ (told w id xs || told w id ys)
told-append w id [] ys = ground arith
told-append w id (x ∷ xs) ys = ground (arith, told-append w id xs ys)

told-map :
    (w id key : Bytes) (ps : List Pid)
    → told w id (map (λ p. terminated_to key p address_terminated) ps)
      ≡ (bytes_beq key w && has_id id ps)
told-map w id key [] = ground arith
told-map w id key (p ∷ ps) = ground (arith, told-map w id key ps)

told-notices :
    (local : Bytes → Bool) (w id : Bytes) (watched : List (Bytes × List Pid))
    → Distinct watched
    → told w id (notices local watched) ≡ (local w && watches watched w id)
unfolding notices lookup
told-notices local w id [] h = ground arith
told-notices local w id (entry ∷ rest) h =
    let later = told-notices local w id rest h.1 in
    let here = told-map w id entry.0 entry.1 in
    let both =
      told-append w id (map (λ p. terminated_to entry.0 p address_terminated) entry.1)
        (notices local rest) in
    ground (arith, later, here, both, bytes_beq_iff entry.0 w, h.0)

-- No key twice, and nobody told yet.
abbrev Quiet : EndpointWatcher → Type 0
Quiet s = Distinct s.watched × ((w id : Bytes) → told w id s.sent ≡ false)

forget_cases :
    (watcher watchee : Bytes) (watched : List (Bytes × List Pid))
    → (forget watcher watchee watched ≡ watched)
      ⊎ ((ps : List Pid) × (forget watcher watchee watched ≡ kept watcher watchee ps watched))
unfolding forget
forget_cases watcher watchee watched = elim (Option-cases (lookup watcher watched)) [
  | inl e ↦ inl (ground (arith, e))
  | inr (ps, e) ↦ inr (without_id watchee ps, ground (arith, e))
]

Distinct-kept :
    (watcher watchee : Bytes) (ps : List Pid) (watched : List (Bytes × List Pid))
    → Distinct watched
    → Distinct (kept watcher watchee ps watched)
Distinct-kept watcher watchee [] watched h = Distinct-erase watcher watched h
Distinct-kept watcher watchee (p ∷ ps) watched h = Distinct-insert watcher (p ∷ ps) watched h

Distinct-forget :
    (watcher watchee : Bytes) (watched : List (Bytes × List Pid))
    → Distinct watched
    → Distinct (forget watcher watchee watched)
Distinct-forget watcher watchee watched h = elim (forget_cases watcher watchee watched) [
  | inl same ↦ rw same h
  | inr (ps, e) ↦ rw e (Distinct-kept watcher watchee ps watched h)
]

told_snoc :
    (w id : Bytes) (xs : List Sent) (x : Sent)
    → told w id xs ≡ false
    → is_notice w id x ≡ false
    → told w id (xs ++ x ∷ []) ≡ false
told_snoc w id xs x h e = ground (arith, told-append w id xs (x ∷ []))

handle-Quiet :
    (local : Bytes → Bool) (s : EndpointWatcher) (c : Call) → Quiet s → Quiet (handle local s c)
unfolding handle handle_remote_watch handle_remote_unwatch handle_remote_terminate
handle-Quiet local s (watch (some a) (some b)) (d, q) = (
  Distinct-insert a.id _ s.watched d,
  λ w id. told_snoc w id s.sent (remote_watch b a) (q w id) refl,
)
handle-Quiet local s (unwatch (some a) (some b)) (d, q) = (
  Distinct-forget a.id b.id s.watched d,
  λ w id. told_snoc w id s.sent (remote_unwatch b a) (q w id) refl,
)
handle-Quiet local s (terminate (some a) (some b)) (d, q) = (
  Distinct-forget a.id b.id s.watched d,
  λ w id.
      ground
        (arith, q w id, told_snoc w id s.sent (terminated_to a.id b stopped_reason) (q w id) refl),
)
handle-Quiet local s (watch none e) h = h
handle-Quiet local s (watch (some w) none) h = h
handle-Quiet local s (unwatch none e) h = h
handle-Quiet local s (unwatch (some w) none) h = h
handle-Quiet local s (terminate none e) h = h
handle-Quiet local s (terminate (some w) none) h = h

run-Quiet :
    (local : Bytes → Bool) (s : EndpointWatcher) (cs : List Call) → Quiet s → Quiet (run local s cs)
unfolding run
run-Quiet local s [] h = h
run-Quiet local s (c ∷ cs) h = run-Quiet local (handle local s c) cs (handle-Quiet local s c h)

-- When the endpoint terminates after any messages: a watcher is told that a watchee is gone with its
-- address if and only if it has a local process and still watches it, by the messages Watch,
-- Unwatch and Terminate up to then; and nobody is watched any more.
pub terminated_told :
    (local : Bytes → Bool) (cs : List Call) (w id : Bytes)
    → let s = handle_endpoint_terminated local (run local new_watcher cs) in
      (told w id s.sent ≡ (local w && relation_after (λ other i. false) cs w id)) × (s.watched ≡ [])
unfolding handle_endpoint_terminated new_watcher
terminated_told local cs w id =
    let s = run local new_watcher cs in
    let (distinct, quiet) = run-Quiet local new_watcher cs (tt, λ w id. refl) in
    let notes = notices local s.watched in
    (
      ground (
        arith,
        told-append w id s.sent (notes ++ stops_self ∷ []),
        told-append w id notes (stops_self ∷ []),
        quiet w id,
        told-notices local w id s.watched distinct,
        watches-run local cs w id,
      ),
      refl,
    )
