-- ===== src/BlockList/Blocking.antt =====
-- Who is blocked (blocklist.cpp).
use protoactor_cpp.Base.{
  ◌≡◌, refl, Bool, false, ◌||◌, List, [], ◌∷◌, Bytes, bytes_eq, bytes_beq, length, has, put,
  has-put, NoneTwice, NoneTwice-put, arith,
}
use protoactor_cpp.BlockList.{
  BlockList, new_block_list, block, block_all, is_blocked, blocked_members_of, block_list_len,
}

-- The two overloads of Block.
pub data Call : Type 0 where
  blocks : Bytes → Call
  blocks_all : List Bytes → Call

abbrev handle : Call → BlockList → BlockList
handle (blocks id) b = block id b
handle (blocks_all ids) b = block_all ids b

unfoldable pub run : List Call → BlockList → BlockList
run [] b = b
run (c ∷ cs) b = run cs (handle c b)

-- The member is among those that a call blocks.
abbrev pub mentioned : Bytes → List Call → Bool
mentioned id [] = false
mentioned id (blocks other ∷ cs) = bytes_beq other id || mentioned id cs
mentioned id (blocks_all ids ∷ cs) = has id ids || mentioned id cs

-- What blocking does to one member, and to the list.
abbrev Blocks : BlockList → Bytes → Bool → BlockList → Type 0
Blocks b id named b' =
    (is_blocked b' id ≡ (is_blocked b id || named)) × (NoneTwice b → NoneTwice b')

block_all-Blocks :
    (ids : List Bytes) (b : BlockList) (id : Bytes) → Blocks b id (has id ids) (block_all ids b)
unfolding block_all is_blocked has
block_all-Blocks [] b id = (ground arith, λ h. h)
block_all-Blocks (other ∷ ids) b id =
    let (blocked, none) = block_all-Blocks ids (put other b) id in
    (ground (arith, blocked, has-put other id b), λ h. none (NoneTwice-put other b h))

handle-Blocks :
    (c : Call) (b : BlockList) (id : Bytes) → Blocks b id (mentioned id (c ∷ [])) (handle c b)
unfolding block is_blocked
handle-Blocks (blocks other) b id =
    (ground (arith, has-put other id b), λ h. NoneTwice-put other b h)
handle-Blocks (blocks_all ids) b id =
    let (blocked, none) = block_all-Blocks ids b id in (ground (arith, blocked), none)

run-Blocks :
    (cs : List Call) (b : BlockList) (id : Bytes) → Blocks b id (mentioned id cs) (run cs b)
unfolding run
run-Blocks [] b id = (ground arith, λ h. h)
run-Blocks (c ∷ cs) b id =
    let (one, none) = handle-Blocks c b id in
    let (blocked, none') = run-Blocks cs (handle c b) id in
    (together c one blocked, λ h. none' (none h))
  where
    together :
        (c : Call)
        → is_blocked (handle c b) id ≡ (is_blocked b id || mentioned id (c ∷ []))
        → is_blocked (run cs (handle c b)) id ≡ (is_blocked (handle c b) id || mentioned id cs)
        → is_blocked (run cs (handle c b)) id ≡ (is_blocked b id || mentioned id (c ∷ cs))
    together (blocks other) h h' = ground (arith, h, h')
    together (blocks_all ids) h h' = ground (arith, h, h')

-- After any calls of Block, a member is blocked exactly if one of them named it; BlockedMembers then
-- has every blocked member once, and Len counts them.
pub is_blocked-run :
    (cs : List Call) (id : Bytes)
    → let b = run cs new_block_list in
      (is_blocked b id ≡ mentioned id cs)
      × (has id (blocked_members_of b) ≡ mentioned id cs)
      × NoneTwice (blocked_members_of b)
      × (block_list_len b ≡ length (blocked_members_of b))
unfolding is_blocked blocked_members_of block_list_len has
is_blocked-run cs id =
    let (blocked, none) = run-Blocks cs new_block_list id in
    (ground (arith, blocked), ground (arith, blocked), none tt, refl)
