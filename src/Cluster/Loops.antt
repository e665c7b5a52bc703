-- ===== src/Cluster/Loops.antt =====
-- When the loops of a gossiper (gossiper.cpp) go on, and when they end.
use protoactor_cpp.Base.{
  ℕ, zero, suc, ◌≡◌, ◌≢◌, ◌<◌, length, refl, ◌∙◌, Bool, true, false, ◌||◌, Option, none, some, List,
  [], ◌∷◌, ◌++◌, get_elem?, arith, if◌then◌else◌, inl, inr, get_elem?-set-some, get_elem?-set_ne,
  eqb, eqb_iff, Bool-cases, set, ap, ◌+◌, is_some,
}
use protoactor_cpp.Gossip.{update_cluster_topology}
use protoactor_cpp.PubSub.{stop}
use protoactor_cpp.Cluster.{
  Loop, at_test, at_send, sleeping, ended, Cluster, Move, starts, shuts_down, topology_arrives,
  loop_moves, Gossiper, shutdown, start_cluster, start_gossiping, stop_gossiping, turn, step, run,
  send_state,
}

abbrev pub is_alive : Option Loop → Bool
is_alive none = false
is_alive (some at_test) = true
is_alive (some at_send) = true
is_alive (some sleeping) = true
is_alive (some ended) = false

abbrev pub alive_at : Cluster → ℕ → Bool
alive_at c i = is_alive (get_elem? c.gossip.loops i)

abbrev pub is_start : Move → Bool
is_start (starts spawned) = true
is_start shuts_down = false
is_start (topology_arrives topology) = false
is_start (loop_moves i now) = false

abbrev pub is_shutdown : Move → Bool
is_shutdown (starts spawned) = false
is_shutdown shuts_down = true
is_shutdown (topology_arrives topology) = false
is_shutdown (loop_moves i now) = false

abbrev pub any_move : (Move → Bool) → List Move → Bool
any_move p [] = false
any_move p (m ∷ ms) = p m || any_move p ms

-- Whether Shutdown throws, in PubSub::Stop.
abbrev pub shutdown_throws : Cluster → Bool
shutdown_throws c = (stop c.pubsub).1

-- How many loops are about to call SendState.
abbrev pub pending : List Loop → ℕ
pending [] = 0
pending (at_send ∷ loops) = suc (pending loops)
pending (_ ∷ loops) = pending loops

-- What a loop's move makes of it.
abbrev moved : Bool → Option Loop → Option Loop
moved running none = none
moved running (some ended) = some ended
moved running (some sleeping) = some at_test
moved running (some at_test) = some (if running then at_send else ended)
moved running (some at_send) = some sleeping

moved_self :
    (c : Cluster) (i now : ℕ) (loop : Option Loop)
    → get_elem? c.gossip.loops i ≡ loop
    → get_elem? (turn now i c.member_list c.gossip loop).loops i ≡ moved c.gossip.running loop
unfolding send_state
moved_self c i now none there = there
moved_self c i now (some ended) there = there
moved_self c i now (some sleeping) there =
    get_elem?-set-some c.gossip.loops i sleeping at_test there
moved_self c i now (some at_test) there =
    get_elem?-set-some c.gossip.loops i at_test (if c.gossip.running then at_send else ended) there
moved_self c i now (some at_send) there = get_elem?-set-some c.gossip.loops i at_send sleeping there

moved_other :
    (c : Cluster) (i j now : ℕ) (loop : Option Loop)
    → i ≢ j
    → get_elem? (turn now i c.member_list c.gossip loop).loops j ≡ get_elem? c.gossip.loops j
unfolding send_state
moved_other c i j now none other = refl
moved_other c i j now (some ended) other = refl
moved_other c i j now (some sleeping) other = get_elem?-set_ne c.gossip.loops i j at_test other
moved_other c i j now (some at_test) other =
    get_elem?-set_ne c.gossip.loops i j (if c.gossip.running then at_send else ended) other
moved_other c i j now (some at_send) other = get_elem?-set_ne c.gossip.loops i j sleeping other

turn-running :
    (c : Cluster) (i now : ℕ) (loop : Option Loop)
    → (turn now i c.member_list c.gossip loop).running ≡ c.gossip.running
unfolding send_state
turn-running c i now loop = ground arith

step_self :
    (c : Cluster) (i now : ℕ)
    → (get_elem? (step c (loop_moves i now)).gossip.loops i
        ≡ moved c.gossip.running (get_elem? c.gossip.loops i))
      × ((step c (loop_moves i now)).gossip.running ≡ c.gossip.running)
unfolding step
step_self c i now = (
  moved_self c i now (get_elem? c.gossip.loops i) refl,
  turn-running c i now (get_elem? c.gossip.loops i),
)

moved_thrice :
    (loop : Option Loop) → is_alive (moved false (moved false (moved false loop))) ≡ false
moved_thrice loop = ground arith

moved_alive : (loop : Option Loop) → is_alive loop ≡ true → is_alive (moved true loop) ≡ true
moved_alive loop alive = ground (arith, alive)

-- A cluster after three moves of a loop.
abbrev pub three_moves : Cluster → ℕ → ℕ → Cluster
three_moves c i now = step (step (step c (loop_moves i now)) (loop_moves i now)) (loop_moves i now)

-- Three moves end a loop when the gossiper is stopped.
ends_soon :
    (c : Cluster) (i now : ℕ) → c.gossip.running ≡ false → alive_at (three_moves c i now) i ≡ false
ends_soon c i now stopped =
    let d = step c (loop_moves i now) in
    let (first, still) = step_self c i now in
    let (second, still') = step_self d i now in
    let (third, _) = step_self (step d (loop_moves i now)) i now in
    rw (third, still', second, still, first, stopped) (moved_thrice (get_elem? c.gossip.loops i))

pending-set :
    (loops : List Loop) (i : ℕ) (before after : Loop)
    → get_elem? loops i ≡ some before
    → pending (set loops i after) + pending (before ∷ []) ≡ pending loops + pending (after ∷ [])
pending-set [] i before after there = absurd (ground (arith, there))
pending-set (loop ∷ loops) zero before after there = ground (arith, there)
pending-set (loop ∷ loops) (suc i) before after there =
    ground (arith, pending-set loops i before after there)

-- What the gossip has sent so far, with what it is about to send.
abbrev due : Gossiper → ℕ
due g = g.informer.local_seq_number + pending g.loops

turn-due :
    (c : Cluster) (i now : ℕ) (loop : Option Loop)
    → c.gossip.running ≡ false
    → get_elem? c.gossip.loops i ≡ loop
    → due (turn now i c.member_list c.gossip loop) ≡ due c.gossip
unfolding send_state update_cluster_topology
turn-due c i now none stopped there = refl
turn-due c i now (some ended) stopped there = refl
turn-due c i now (some sleeping) stopped there =
    ground (arith, pending-set c.gossip.loops i sleeping at_test there)
turn-due c i now (some at_test) stopped there =
    ground (arith, stopped, pending-set c.gossip.loops i at_test ended there)
turn-due c i now (some at_send) stopped there =
    ground (arith, pending-set c.gossip.loops i at_send sleeping there)

step-due :
    (c : Cluster) (m : Move)
    → c.gossip.running ≡ false
    → is_start m ≡ false
    → ((step c m).gossip.running ≡ false) × (due (step c m).gossip ≡ due c.gossip)
unfolding step shutdown stop_gossiping
step-due c (starts spawned) stopped quiet = absurd (ground (arith, quiet))
step-due c shuts_down stopped quiet = (ground (arith, stopped), ground arith)
step-due c (topology_arrives topology) stopped quiet = (stopped, refl)
step-due c (loop_moves i now) stopped quiet = (
  turn-running c i now (get_elem? c.gossip.loops i) ∙ stopped,
  turn-due c i now (get_elem? c.gossip.loops i) stopped refl,
)

run-due :
    (c : Cluster) (ms : List Move)
    → c.gossip.running ≡ false
    → any_move is_start ms ≡ false
    → ((run c ms).gossip.running ≡ false) × (due (run c ms).gossip ≡ due c.gossip)
unfolding run
run-due c [] stopped quiet = (stopped, refl)
run-due c (m ∷ ms) stopped quiet =
    let (still, same) = step-due c m stopped (ground (arith, quiet)) in
    let (last, kept) = run-due (step c m) ms still (ground (arith, quiet)) in (last, kept ∙ same)

move-alive :
    (c : Cluster) (i j now : ℕ)
    → c.gossip.running ≡ true
    → alive_at c j ≡ true
    → alive_at (step c (loop_moves i now)) j ≡ true
unfolding step
move-alive c i j now going alive = elim (Bool-cases (eqb i j)) [
  | inl same ↦ rw⁻¹ ((eqb_iff i j).0 same) (
      rw ((step_self c i now).0, going)
        (moved_alive (get_elem? c.gossip.loops i) (rw ((eqb_iff i j).0 same) alive)))
  | inr other ↦
      rw (moved_other c i j now (get_elem? c.gossip.loops i) (ground (arith, other))) alive
]

step-running :
    (c : Cluster) (m : Move) (j : ℕ)
    → c.gossip.running ≡ true
    → is_shutdown m ≡ false
    → alive_at c j ≡ true
    → ((step c m).gossip.running ≡ true) × (alive_at (step c m) j ≡ true)
unfolding step start_cluster start_gossiping
step-running c (starts spawned) j going quiet alive = rw going (refl, alive)
step-running c shuts_down j going quiet alive = absurd (ground (arith, quiet))
step-running c (topology_arrives topology) j going quiet alive = (going, alive)
step-running c (loop_moves i now) j going quiet alive =
    (turn-running c i now (get_elem? c.gossip.loops i) ∙ going, move-alive c i j now going alive)

run-alive :
    (c : Cluster) (ms : List Move) (j : ℕ)
    → c.gossip.running ≡ true
    → any_move is_shutdown ms ≡ false
    → alive_at c j ≡ true
    → alive_at (run c ms) j ≡ true
unfolding run
run-alive c [] j going quiet alive = alive
run-alive c (m ∷ ms) j going quiet alive =
    let (still, here) = step-running c m j going (ground (arith, quiet)) alive in
    run-alive (step c m) ms j still (ground (arith, quiet)) here

last_alive :
    (loops : List Loop) → is_alive (get_elem? (loops ++ at_test ∷ []) (length loops)) ≡ true
last_alive [] = refl
last_alive (loop ∷ loops) = last_alive loops

others_alive :
    (loops : List Loop) (i : ℕ)
    → is_alive (get_elem? loops i) ≡ true
    → (i < length loops) × (is_alive (get_elem? (loops ++ at_test ∷ []) i) ≡ true)
others_alive [] i alive = absurd (ground (arith, alive))
others_alive (loop ∷ loops) zero alive = (omega arith, alive)
others_alive (loop ∷ loops) (suc i) alive =
    let (lt, still) = others_alive loops i alive in (omega (arith, lt), still)

-- A Shutdown that returns.
shutdown_lem :
    (c : Cluster)
    → shutdown_throws c ≡ false
    → (shutdown c).gossip ≡ record c.gossip { running = false }
unfolding shutdown stop_gossiping
shutdown_lem c returns = ground (arith, returns)

started_again :
    (c : Cluster) (spawned : Option ℕ)
    → shutdown_throws c ≡ false
    → ((start_cluster spawned (shutdown c)).gossip.running ≡ true)
      × ((start_cluster spawned (shutdown c)).gossip.loops ≡ c.gossip.loops ++ at_test ∷ [])
unfolding start_cluster start_gossiping
started_again c spawned returns =
    let gossip = shutdown_lem c returns in (rw gossip refl, rw gossip refl)

-- After a Shutdown that returns, as long as there is no Start: the gossip sends its state at most once
-- more for each loop that had just found it running, which its sequence number and the loops that
-- are still to send show; and every loop ends with its third move from any point on.
pub shutdown_ends :
    (c : Cluster) (ms : List Move) (i now : ℕ)
    → shutdown_throws c ≡ false
    → any_move is_start ms ≡ false
    → let s = run (shutdown c) ms in
      (s.gossip.informer.local_seq_number + pending s.gossip.loops
        ≡ c.gossip.informer.local_seq_number + pending c.gossip.loops)
      × (alive_at (three_moves s i now) i ≡ false)
shutdown_ends c ms i now returns quiet =
    let gossip = shutdown_lem c returns in
    let (stopped, same) = run-due (shutdown c) ms (ap (λ g. g.running) gossip) quiet in
    (same ∙ ap due gossip, ends_soon (run (shutdown c) ms) i now stopped)

-- If a Shutdown returns and a loop has not ended when the cluster is started again, then it goes on,
-- beside the new one, until the next Shutdown.
pub restart_doubles :
    (c : Cluster) (spawned : Option ℕ) (ms : List Move) (i : ℕ)
    → shutdown_throws c ≡ false
    → alive_at c i ≡ true
    → any_move is_shutdown ms ≡ false
    → let s = run (start_cluster spawned (shutdown c)) ms in
      let new = length c.gossip.loops in (i < new) × (alive_at s i ≡ true) × (alive_at s new ≡ true)
restart_doubles c spawned ms i returns alive quiet =
    let again = start_cluster spawned (shutdown c) in
    let (lt, still) = others_alive c.gossip.loops i alive in
    let (running, loops) = started_again c spawned returns in
    (
      lt,
      run-alive again ms i running quiet (rw loops still),
      run-alive again ms (length c.gossip.loops) running quiet
          (rw loops (last_alive c.gossip.loops)),
    )

lost_lem :
    (c : Cluster)
    → c.pubsub.running ≡ true
    → is_some c.pubsub.delivery_actor ≡ true
    → (shutdown_throws c ≡ true)
      × ((shutdown c).gossip ≡ c.gossip)
      × (shutdown_throws (shutdown c) ≡ false)
unfolding shutdown stop_gossiping stop
lost_lem c going actor =
    (ground (arith, going, actor), ground (arith, going, actor), ground (arith, going, actor))

-- Shutdown of a cluster whose PubSub runs with a delivery actor throws and leaves the gossip as it is:
-- each loop that has not ended goes on until the next Shutdown, which returns if it follows at once.
pub shutdown_lost :
    (c : Cluster) (ms : List Move) (i : ℕ)
    → c.pubsub.running ≡ true
    → is_some c.pubsub.delivery_actor ≡ true
    → c.gossip.running ≡ true
    → alive_at c i ≡ true
    → any_move is_shutdown ms ≡ false
    → (shutdown_throws c ≡ true)
      × (alive_at (run (shutdown c) ms) i ≡ true)
      × (shutdown_throws (shutdown c) ≡ false)
shutdown_lost c ms i going actor gossiping alive quiet =
    let (throws, same, returns) = lost_lem c going actor in
    (throws, run-alive (shutdown c) ms i (rw same gossiping) quiet (rw same alive), returns)
