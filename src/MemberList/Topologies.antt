-- ===== src/MemberList/Topologies.antt =====
-- The members after any updates (member_list.cpp).
use protoactor_cpp.Base.{
  ◌≡◌, refl, ◌∙◌, ap, sym, Bool, true, false, Option, none, some, List, [], ◌∷◌, ◌++◌, append_assoc,
  append-nil, Bytes, bytes_beq, find, if◌then◌else◌,
}
use protoactor_cpp.MemberList.{
  Member, ClusterTopology, MemberList, GossipUpdate, new_member_list, get_members, get_member,
  update_topology, handle_gossip_update,
}

pub data Call : Type 0 where
  updates : Option ClusterTopology → Call
  gossip_arrives : Option GossipUpdate → Call

unfoldable pub handle : MemberList → Call → MemberList
handle s (updates topology) = update_topology s topology
handle s (gossip_arrives update) = handle_gossip_update s update

unfoldable pub run : MemberList → List Call → MemberList
run s [] = s
run s (c ∷ cs) = run (handle s c) cs

abbrev in_list : Option ClusterTopology → List ClusterTopology
in_list none = []
in_list (some topology) = topology ∷ []

-- The topology that a call brings.
abbrev pub brought : Call → List ClusterTopology
brought (updates topology) = in_list topology
brought (gossip_arrives none) = []
brought (gossip_arrives (some update)) = if update.key_is_topology then in_list update.value else []

abbrev pub all_brought : List Call → List ClusterTopology
all_brought [] = []
all_brought (c ∷ cs) = brought c ++ all_brought cs

-- The members of the last topology, or else these.
abbrev pub last_members : List Member → List ClusterTopology → List Member
last_members members [] = members
last_members members (t ∷ ts) = last_members t.members ts

-- One step with a topology that may be missing.
abbrev Takes : MemberList → List ClusterTopology → MemberList → Type 0
Takes s ts s' = (s'.members ≡ last_members s.members ts) × (s'.published ≡ s.published ++ ts)

update-Takes :
    (s : MemberList) (t : Option ClusterTopology) → Takes s (in_list t) (update_topology s t)
unfolding update_topology
update-Takes s none = (refl, sym (append-nil s.published))
update-Takes s (some t) = (refl, refl)

Takes-if :
    (b : Bool) (s : MemberList) (ts : List ClusterTopology) (s' : MemberList)
    → Takes s ts s'
    → Takes s (if b then ts else []) (if b then s' else s)
Takes-if true s ts s' h = h
Takes-if false s ts s' h = (refl, sym (append-nil s.published))

handle-Takes : (s : MemberList) (c : Call) → Takes s (brought c) (handle s c)
unfolding handle
handle-Takes s (updates t) = update-Takes s t
handle-Takes s (gossip_arrives none) =
    unfold handle_gossip_update in (refl, sym (append-nil s.published))
handle-Takes s (gossip_arrives (some update)) =
    unfold handle_gossip_update in
    Takes-if update.key_is_topology s (in_list update.value) (update_topology s update.value)
      (update-Takes s update.value)

last_members-append :
    (members : List Member) (ts us : List ClusterTopology)
    → last_members members (ts ++ us) ≡ last_members (last_members members ts) us
last_members-append members [] us = refl
last_members-append members (t ∷ ts) us = last_members-append t.members ts us

run-Takes : (s : MemberList) (cs : List Call) → Takes s (all_brought cs) (run s cs)
unfolding run
run-Takes s [] = (refl, sym (append-nil s.published))
run-Takes s (c ∷ cs) =
    let (members, published) = handle-Takes s c in
    let (members', published') = run-Takes (handle s c) cs in
    (
      members'
          ∙ ap (λ ms. last_members ms (all_brought cs)) members
          ∙ sym (last_members-append s.members (brought c) (all_brought cs)),
      published'
          ∙ ap (λ ts. ts ++ all_brought cs) published
          ∙ append_assoc s.published (brought c) (all_brought cs),
    )

-- After any updates, the members are those of the last topology that was given, by UpdateTopology or
-- by gossip under the key "topology"; every such topology was published once, in order; and GetMember
-- gives the first of the members with an id.
pub members-run :
    (cs : List Call) (id : Bytes)
    → let s = run new_member_list cs in
      (get_members s ≡ last_members [] (all_brought cs))
      × (s.published ≡ all_brought cs)
      × (get_member s id ≡ find (λ m. bytes_beq m.id id) (last_members [] (all_brought cs)))
unfolding new_member_list
members-run cs id =
    let (members, published) = run-Takes new_member_list cs in
    (
      unfold get_members in members,
      published,
      unfold get_member in ap (find (λ m. bytes_beq m.id id)) members,
    )
