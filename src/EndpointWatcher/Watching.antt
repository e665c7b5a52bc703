-- ===== src/EndpointWatcher/Watching.antt =====
-- Who is watched by whom (endpoint_watcher.cpp).
use protoactor_cpp.Base.{
  ◌≡◌, refl, ◌∙◌, inl, inr, Bool, true, false, ◌&&◌, ◌||◌, Option, none, some, List, [], ◌∷◌, ◌++◌,
  Bytes, bytes_eq, bytes_beq, bytes_beq_iff, lookup, insert, lookup-insert, lookup-erase,
  if◌then◌else◌, arith, Option-cases, Bool-cases,
}
use protoactor_cpp.Pid.{Pid}
use protoactor_cpp.EndpointWatcher.{
  EndpointWatcher, watchees_or_nil, has_id, without_id, kept, forget, new_watcher,
  handle_remote_watch, handle_remote_unwatch, handle_remote_terminate,
}

-- The watcher with this name watches the PID with this id.
abbrev pub watches : List (Bytes × List Pid) → Bytes → Bytes → Bool
watches watched watcher id = has_id id (watchees_or_nil (lookup watcher watched))

has_id-snoc :
    (id : Bytes) (ps : List Pid) (p : Pid)
    → has_id id (ps ++ p ∷ []) ≡ (has_id id ps || bytes_beq p.id id)
has_id-snoc id [] p = ground arith
has_id-snoc id (q ∷ ps) p = ground (arith, has_id-snoc id ps p)

has_id-without_id :
    (id other : Bytes) (ps : List Pid)
    → has_id other (without_id id ps) ≡ (if bytes_beq id other then false else has_id other ps)
has_id-without_id id other [] = ground arith
has_id-without_id id other (q ∷ ps) = ground (
  arith,
  has_id-without_id id other ps,
  bytes_beq_iff q.id id,
  bytes_beq_iff id other,
  bytes_beq_iff q.id other,
)

watches-insert :
    (watcher other id : Bytes) (ps : List Pid) (watched : List (Bytes × List Pid))
    → watches (insert watcher ps watched) other id
      ≡ (if bytes_beq watcher other then has_id id ps else watches watched other id)
watches-insert watcher other id ps watched = ground (arith, lookup-insert watcher other ps watched)

watches-kept :
    (watcher watchee other id : Bytes) (ps : List Pid) (watched : List (Bytes × List Pid))
    → watches (kept watcher watchee ps watched) other id
      ≡ (if bytes_beq watcher other then has_id id ps else watches watched other id)
watches-kept watcher watchee other id [] watched =
    ground (arith, lookup-erase watcher other watched)
watches-kept watcher watchee other id (p ∷ ps) watched =
    watches-insert watcher other id (p ∷ ps) watched

watches-forget :
    (watcher watchee other id : Bytes) (watched : List (Bytes × List Pid))
    → watches (forget watcher watchee watched) other id ≡ (
        if bytes_beq watcher other && bytes_beq watchee id then false else watches watched other id)
unfolding forget
watches-forget watcher watchee other id watched = elim (Option-cases (lookup watcher watched)) [
  | inl e ↦ ground (arith, e, bytes_beq_iff watcher other)
  | inr (ps, e) ↦
      let left = watches-kept watcher watchee other id (without_id watchee ps) watched in
      ground (arith, e, left, has_id-without_id watchee id ps, bytes_beq_iff watcher other)
]

has_id-added :
    (e : Pid) (id : Bytes) (ps : List Pid)
    → has_id id (if has_id e.id ps then ps else ps ++ e ∷ [])
      ≡ (if bytes_beq e.id id then true else has_id id ps)
has_id-added e id ps = elim (Bool-cases (has_id e.id ps)) [
  | inl there ↦ ground (arith, there, bytes_beq_iff e.id id)
  | inr new ↦ ground (arith, new, has_id-snoc id ps e)
]

-- The messages that change who is watched.
pub data Call : Type 0 where
  watch unwatch terminate : Option Pid → Option Pid → Call

unfoldable pub handle : (Bytes → Bool) → EndpointWatcher → Call → EndpointWatcher
handle local s (watch watcher watchee) = handle_remote_watch s watcher watchee
handle local s (unwatch watcher watchee) = handle_remote_unwatch s watcher watchee
handle local s (terminate watcher watchee) = handle_remote_terminate local s watcher watchee

unfoldable pub run : (Bytes → Bool) → EndpointWatcher → List Call → EndpointWatcher
run local s [] = s
run local s (c ∷ cs) = run local (handle local s c) cs

-- The relation with one pair put in or taken out.
abbrev pub with_pair : Bool → Bytes → Bytes → (Bytes → Bytes → Bool) → Bytes → Bytes → Bool
with_pair b watcher id rel other i =
    if bytes_beq watcher other && bytes_beq id i then b else rel other i

abbrev pub call_relation : Call → (Bytes → Bytes → Bool) → Bytes → Bytes → Bool
call_relation (watch (some w) (some e)) rel = with_pair true w.id e.id rel
call_relation (unwatch (some w) (some e)) rel = with_pair false w.id e.id rel
call_relation (terminate (some w) (some e)) rel = with_pair false w.id e.id rel
call_relation c rel = rel

-- Who watches whom after the messages: a pair is put in by Watch and taken out by the two others.
abbrev pub relation_after : (Bytes → Bytes → Bool) → List Call → Bytes → Bytes → Bool
relation_after rel [] = rel
relation_after rel (c ∷ cs) = relation_after (call_relation c rel) cs

handle-watches :
    (local : Bytes → Bool) (s : EndpointWatcher) (c : Call) (other id : Bytes)
    → watches (handle local s c).watched other id ≡ call_relation c (watches s.watched) other id
unfolding handle handle_remote_watch handle_remote_unwatch handle_remote_terminate
handle-watches local s (watch (some w) (some e)) other id =
    let ps = watchees_or_nil (lookup w.id s.watched) in
    let now = if has_id e.id ps then ps else ps ++ e ∷ [] in
    ground (
      arith,
      watches-insert w.id other id now s.watched,
      has_id-added e id ps,
      bytes_beq_iff w.id other,
    )
handle-watches local s (unwatch (some w) (some e)) other id =
    watches-forget w.id e.id other id s.watched
handle-watches local s (terminate (some w) (some e)) other id =
    watches-forget w.id e.id other id s.watched
handle-watches local s (watch none e) other id = refl
handle-watches local s (watch (some w) none) other id = refl
handle-watches local s (unwatch none e) other id = refl
handle-watches local s (unwatch (some w) none) other id = refl
handle-watches local s (terminate none e) other id = refl
handle-watches local s (terminate (some w) none) other id = refl

relation_after_ext :
    (rel rel' : Bytes → Bytes → Bool) (cs : List Call) (other id : Bytes)
    → ((w e : Bytes) → rel w e ≡ rel' w e)
    → relation_after rel cs other id ≡ relation_after rel' cs other id
relation_after_ext rel rel' [] other id h = h other id
relation_after_ext rel rel' (c ∷ cs) other id h =
    relation_after_ext (call_relation c rel) (call_relation c rel') cs other id (same c)
  where
    same : (c : Call) (w e : Bytes) → call_relation c rel w e ≡ call_relation c rel' w e
    same (watch (some a) (some b)) w e = ground (arith, h w e)
    same (unwatch (some a) (some b)) w e = ground (arith, h w e)
    same (terminate (some a) (some b)) w e = ground (arith, h w e)
    same c w e = ground (arith, h w e)

run-watches :
    (local : Bytes → Bool) (s : EndpointWatcher) (cs : List Call) (other id : Bytes)
    → watches (run local s cs).watched other id ≡ relation_after (watches s.watched) cs other id
unfolding run
run-watches local s [] other id = refl
run-watches local s (c ∷ cs) other id =
    run-watches local (handle local s c) cs other id
    ∙ relation_after_ext (watches (handle local s c).watched) (call_relation c (watches s.watched))
        cs other id (handle-watches local s c)

pub watches-run :
    (local : Bytes → Bool) (cs : List Call) (other id : Bytes)
    → watches (run local new_watcher cs).watched other id
      ≡ relation_after (λ w e. false) cs other id
unfolding new_watcher lookup
watches-run local cs other id = run-watches local new_watcher cs other id
