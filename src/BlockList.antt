-- ===== src/BlockList.antt =====
-- src/remote/blocklist.cpp: BlockList, the set of the members that are blocked. Every operation runs
-- under its shared mutex.
pub mod Blocking
mod Examples
use protoactor_cpp.Base.{ℕ, Bool, List, [], ◌∷◌, Bytes, bytes_eq, length, has, put}

abbrev pub BlockList : Type 0
BlockList = List Bytes

abbrev pub new_block_list : BlockList
new_block_list = []

unfoldable pub block : Bytes → BlockList → BlockList
block member_id blocked_members = put member_id blocked_members

unfoldable pub block_all : List Bytes → BlockList → BlockList
block_all [] blocked_members = blocked_members
block_all (id ∷ ids) blocked_members = block_all ids (put id blocked_members)

unfoldable pub is_blocked : BlockList → Bytes → Bool
is_blocked blocked_members member_id = has member_id blocked_members

-- The vector of BlockedMembers, and Len.
unfoldable pub blocked_members_of : BlockList → List Bytes
blocked_members_of blocked_members = blocked_members

unfoldable pub block_list_len : BlockList → ℕ
block_list_len blocked_members = length blocked_members
