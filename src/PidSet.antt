-- ===== src/PidSet.antt =====
-- src/actor/pidset.cpp and include/internal/pidset.h: PIDSet. Its PIDHash and PIDEqual look at the
-- address and the id, so the set is an association list from those to the pointer that was added;
-- `insert` of an std::unordered_set keeps the element that is there.
pub mod Members
mod Examples
use protoactor_cpp.Base.{
  ℕ, Bool, true, false, Option, none, some, List, [], ◌∷◌, map, Bytes, bytes_pair_eq, length,
  is_some, lookup, insert, erase, if◌then◌else◌,
}
use protoactor_cpp.Messages.{Ref}

abbrev pub PidSet : Type 0
PidSet = List ((Bytes × Bytes) × Ref)

-- What PIDEqual compares.
abbrev pub key_of : Ref → Bytes × Bytes
key_of p = (p.pid.address, p.pid.id)

abbrev pub new_pid_set : PidSet
new_pid_set = []

unfoldable pub contains : PidSet → Option Ref → Bool
contains pids none = false
contains pids (some p) = is_some (lookup (key_of p) pids)

unfoldable pub add_pid : PidSet → Option Ref → PidSet
add_pid pids none = pids
add_pid pids (some p) = if is_some (lookup (key_of p) pids) then pids else insert (key_of p) p pids

unfoldable pub remove_pid : PidSet → Option Ref → PidSet
remove_pid pids none = pids
remove_pid pids (some p) = erase (key_of p) pids

unfoldable pub get_all : PidSet → List Ref
get_all pids = map (λ entry. entry.1) pids

unfoldable pub pid_set_len : PidSet → ℕ
pid_set_len pids = length pids

unfoldable pub clear : PidSet → PidSet
clear pids = []

unfoldable pub empty : PidSet → Bool
empty [] = true
empty (entry ∷ rest) = false
