-- ===== src/IdentityLookup.antt =====
-- src/cluster/pid_cache.cpp: PidCache, and src/cluster/identity_lookup.cpp: Get and RemoveCache of
-- DefaultIdentityLookup, for a cluster that has a cache, a member list and a remote. SpawnNamed of
-- the remote is a parameter `spawn`, and `remote_spawn_named` is the code's; `hash` is std::hash.
pub mod Cached
mod Examples
use protoactor_cpp.Base.{
  ℕ, zero, suc, ◌%◌, Bool, true, false, Option, none, some, List, [], ◌∷◌, ◌++◌, Bytes, bytes_eq,
  bytes_beq, lookup, insert, erase, length, get_elem?, if◌then◌else◌,
}
use protoactor_cpp.Pid.{Pid}
use protoactor_cpp.MemberList.{Member, member_address}

-- The PIDs of a cache may be null.
abbrev pub PidCache : Type 0
PidCache = List (Bytes × Option Pid)

abbrev pub new_cache : PidCache
new_cache = []

abbrev or_null : Option (Option Pid) → Option Pid
or_null none = none
or_null (some pid) = pid

unfoldable pub cache_get : PidCache → Bytes → Option Pid
cache_get cache identity = or_null (lookup identity cache)

unfoldable pub cache_add : PidCache → Bytes → Option Pid → PidCache
cache_add cache identity pid = insert identity pid cache

unfoldable pub cache_remove : PidCache → Bytes → PidCache
cache_remove cache identity = erase identity cache

abbrev pub stands_at : Bytes → Option Pid → Bool
stands_at address none = false
stands_at address (some pid) = bytes_beq pid.address address

abbrev pub drop_address : Bytes → PidCache → PidCache
drop_address address [] = []
drop_address address (entry ∷ rest) =
    let later = drop_address address rest in
    if stands_at address entry.1 then later else entry ∷ later

unfoldable pub remove_by_member : (ℕ → Bytes) → PidCache → Option Member → PidCache
unfolding member_address
remove_by_member decimal cache none = cache
remove_by_member decimal cache (some member) = drop_address (member_address decimal member) cache

unfoldable pub clear_cache : PidCache → PidCache
clear_cache cache = []

pub data ErrorCode : Type 0 where
  success invalid_argument no_such_device network_unreachable not_supported other_error : ErrorCode

-- A PID and an error code.
abbrev pub Answer : Type 0
Answer = Option Pid × ErrorCode

-- SpawnNamed of src/remote/remote.cpp, with an address, a kind and a name.
unfoldable pub remote_spawn_named : Bytes → Bytes → Bytes → Answer
remote_spawn_named address kind name = (none, not_supported)

abbrev pub spawned : PidCache → Bytes → Answer → PidCache × Answer
spawned cache identity (some pid, success) =
    (cache_add cache identity (some pid), (some pid, success))
spawned cache identity (pid, err) = (cache, (none, err))

module _ (spawn : Bytes → Bytes → Bytes → Answer) (hash : Bytes → ℕ) (decimal : ℕ → Bytes)
    (members : List Member) where
  abbrev spawn_on : PidCache → Bytes → Bytes → Option Member → PidCache × Answer
  spawn_on cache identity kind none = (cache, (none, no_such_device))
  spawn_on cache identity kind (some member) =
      spawned cache identity (spawn (member_address decimal member) kind identity)

  abbrev owner : Bytes → Bytes → Option Member
  owner identity kind = get_elem? members (hash (identity ++ kind) % length members)

  abbrev find_or_spawn : PidCache → Bytes → Bytes → List Member → PidCache × Answer
  find_or_spawn cache identity kind [] = (cache, (none, network_unreachable))
  find_or_spawn cache identity kind (m ∷ ms) = spawn_on cache identity kind (owner identity kind)

  unfoldable pub get : PidCache → Bytes → Bytes → PidCache × Answer
  unfolding cache_get cache_add member_address
  get cache identity kind = elim (cache_get cache identity) [
    | some pid ↦ (cache, (some pid, success))
    | none ↦ find_or_spawn cache identity kind members
  ]

unfoldable pub remove_cache : PidCache → Bytes → Bytes → PidCache
unfolding cache_remove
remove_cache cache identity kind = cache_remove cache identity
