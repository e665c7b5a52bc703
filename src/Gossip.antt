-- ===== src/Gossip.antt =====
-- src/cluster/gossip.cpp: Informer, the state that a member keeps of all members. A sequence number
-- is an `int64_t` that counts up from 0 and does not reach 2 ^ 63; `now` is what the clock gives. The
-- values under keys and the consensus checks, which the code stores and never reads, are left out,
-- and so is SendGossip, which selects members and sends them nothing.
pub mod Merging
pub mod Selection
pub mod Local
mod Examples
use protoactor_cpp.Base.{
  ℕ, zero, suc, ◌+◌, Bool, true, false, not, ◌&&◌, Option, none, some, List, [], ◌∷◌, ◌++◌, map,
  Bytes, bytes_eq, bytes_beq, lookup, insert, has, ltb, length, get_elem?, if◌then◌else◌,
}
use protoactor_cpp.MemberList.{Member, ClusterTopology}

pub record GossipMemberState : Type 0 where
  pub sequence_number : ℕ
  pub heartbeat : ℕ
  pub blocked : List Bytes
  pub topology : Option ClusterTopology

abbrev pub GossipState : Type 0
GossipState = List (Bytes × GossipMemberState)

-- As far as MergeState reads it.
pub record GossipUpdate : Type 0 where
  pub sequence_number : ℕ
  pub member_id : Bytes

pub record Informer : Type 0 where
  pub my_id : Bytes
  pub local_seq_number : ℕ
  pub state : GossipState
  pub active_member_ids : List Bytes
  pub other_members : List Member

unfoldable pub new_informer : Bytes → Informer
new_informer my_id = record {
  my_id = my_id;
  local_seq_number = 0;
  state = [];
  active_member_ids = [];
  other_members = [];
}

abbrev pub ids : List Member → List Bytes
ids members = map (λ m. m.id) members

-- The members that are neither this one nor active are erased.
abbrev pub keep_active : Bytes → List Bytes → GossipState → GossipState
keep_active my_id active [] = []
keep_active my_id active (entry ∷ rest) =
    let others = keep_active my_id active rest in
    if not (bytes_beq entry.0 my_id) && not (has entry.0 active) then others else entry ∷ others

-- `blocked` is what get_blocked_members_ gives.
unfoldable pub update_cluster_topology :
    ℕ → List Bytes → Informer → Option ClusterTopology → Informer
update_cluster_topology now blocked s none = s
update_cluster_topology now blocked s (some topology) =
    let seq = s.local_seq_number + 1 in
    let active = ids topology.members in
    let mine : GossipMemberState = record {
      sequence_number = seq;
      heartbeat = now;
      blocked = blocked;
      topology = some topology;
    } in
    record {
      my_id = s.my_id;
      local_seq_number = seq;
      state = insert s.my_id mine (keep_active s.my_id active s.state);
      active_member_ids = active;
      other_members = topology.members;
    }

abbrev pub state_or_new : Option GossipMemberState → GossipMemberState
state_or_new none = record { sequence_number = 0; heartbeat = 0; blocked = []; topology = none }
state_or_new (some state) = state

unfoldable pub set_state : ℕ → Informer → Informer
set_state now s =
    let seq = s.local_seq_number + 1 in
    let mine = record (state_or_new (lookup s.my_id s.state)) {
      sequence_number = seq;
      heartbeat = now;
    } in
    record s { local_seq_number = seq; state = insert s.my_id mine s.state }

-- The member is unknown or has an older number.
abbrev pub is_newer : Option GossipMemberState → ℕ → Bool
is_newer none seq = true
is_newer (some state) seq = ltb state.sequence_number seq

-- `none` is a message that is no GossipUpdate.
unfoldable pub merge_state : ℕ → Informer → Option GossipUpdate → Informer
merge_state now s none = s
merge_state now s (some update) =
    if is_newer (lookup update.member_id s.state) update.sequence_number
    then record s {
      state =
          insert update.member_id
            (record {
              sequence_number = update.sequence_number;
              heartbeat = now;
              blocked = [];
              topology = none;
            })
            s.state;
    }
    else s

unfoldable pub receive_gossip : ℕ → Informer → Option GossipUpdate → Informer
unfolding merge_state
receive_gossip now s update = merge_state now s update

module _ {A : Type 0} where
  abbrev pub remove_at : List A → ℕ → List A
  remove_at [] i = []
  remove_at (x ∷ xs) zero = xs
  remove_at (x ∷ xs) (suc i) = x ∷ remove_at xs i

  abbrev pub in_list : Option A → List A
  in_list none = []
  in_list (some x) = x ∷ []

  -- `count` more turns of the loop; `dis` is what the distribution on 0 .. size - 1 draws.
  unfoldable pub select : (ℕ → ℕ) → ℕ → List A → List A
  select dis zero available = []
  select dis (suc count) [] = []
  select dis (suc count) (x ∷ xs) =
      let available = x ∷ xs in
      let index = dis (length available) in
      in_list (get_elem? available index) ++ select dis count (remove_at available index)

-- A negative `count` selects nobody, as 0 does.
unfoldable pub select_random_members : (ℕ → ℕ) → Informer → ℕ → List Member
unfolding select
select_random_members dis s count =
    select dis (if ltb count (length s.other_members) then count else length s.other_members)
      s.other_members
