-- ===== src/Registry.antt =====
-- src/actor/process_registry.cpp: ProcessRegistry, over the type `P` of references to processes.
-- The shards are a function from their index; each operation runs under its shard's mutex.
pub mod Ids
pub mod Refinement
pub mod Names
mod Examples
use protoactor_cpp.Base.{
  ℕ, ◌+◌, ◌*◌, ◌-◌, ◌%◌, ◌^◌, Bool, true, false, not, ◌&&◌, Option, none, some, List, [], ◌∷◌, ◌++◌,
  Bytes, bytes_beq, ltb, eqb, if◌then◌else◌, lookup, insert, erase, bytes_eq,
}
use protoactor_cpp.Pid.{Pid, new_pid}
use Ids.{uint64_to_id, codes}

abbrev pub num_shards : ℕ
num_shards = 1024

abbrev pub local_address : Bytes
local_address = codes "nonhost"

pub record Registry (P : Type 0) : Type 0 where
  pub sequence_id : ℕ
  pub address : Bytes
  pub local_pids : ℕ → List (Bytes × P)
  pub remote_handlers : List (Pid → P × Bool)

-- `char` is signed: a byte from 128 on is a negative number, and wraps around in `size_t`.
abbrev pub char_to_size : ℕ → ℕ
char_to_size c = if ltb c 128 then c else 2 ^ 64 + c - 256

unfoldable pub hash_from : ℕ → Bytes → ℕ
hash_from hash [] = hash
hash_from hash (c ∷ key) = hash_from ((hash * 31 + char_to_size c) % 2 ^ 64) key

unfoldable pub get_bucket : Bytes → ℕ
unfolding hash_from
get_bucket key = hash_from 0 key % num_shards

module _ {P : Type 0} where
  unfoldable pub new_registry : Registry P
  new_registry = record {
    sequence_id = 0;
    address = local_address;
    local_pids = λ _. [];
    remote_handlers = [];
  }

  unfoldable pub next_id : Registry P → Registry P × Option Bytes
  next_id r =
      let counter = (r.sequence_id + 1) % 2 ^ 64 in
      (record r { sequence_id = counter }, uint64_to_id counter)

  -- The registry with one shard replaced.
  abbrev pub with_shard : Registry P → ℕ → List (Bytes × P) → Registry P
  with_shard r bucket shard = record r {
    local_pids = λ i. if eqb i bucket then shard else r.local_pids i;
  }

  unfoldable pub add_to : Registry P → ℕ → P → Bytes → Option P → Registry P × (Pid × Bool)
  add_to r bucket process id (some other) = (r, (new_pid r.address id, false))
  add_to r bucket process id none =
      (with_shard r bucket (insert id process (r.local_pids bucket)), (new_pid r.address id, true))

  unfoldable pub add : Registry P → P → Bytes → Registry P × (Pid × Bool)
  unfolding add_to
  add r process id =
      let bucket = get_bucket id in add_to r bucket process id (lookup id (r.local_pids bucket))

  unfoldable pub remove : Registry P → Option Pid → Registry P
  remove r none = r
  remove r (some pid) =
      let bucket = get_bucket pid.id in with_shard r bucket (erase pid.id (r.local_pids bucket))

  abbrev pub found_or : P → Option P → P × Bool
  found_or dead_letter none = (dead_letter, false)
  found_or dead_letter (some process) = (process, true)

  -- `dead_letter` is what `actor_system_->GetDeadLetter()` gives.
  unfoldable pub get_local : P → Registry P → Bytes → P × Bool
  get_local dead_letter r id = found_or dead_letter (lookup id (r.local_pids (get_bucket id)))

  unfoldable pub ask_handlers : P → List (Pid → P × Bool) → Pid → P × Bool
  ask_handlers dead_letter [] pid = (dead_letter, false)
  ask_handlers dead_letter (handler ∷ handlers) pid =
      let rest = ask_handlers dead_letter handlers pid in
      let answer = handler pid in if answer.1 then (answer.0, true) else rest

  abbrev pub is_remote : Registry P → Pid → Bool
  is_remote r pid =
      not (bytes_beq pid.address local_address) && not (bytes_beq pid.address r.address)

  unfoldable pub get : P → Registry P → Option Pid → P × Bool
  unfolding ask_handlers get_local
  get dead_letter r none = (dead_letter, false)
  get dead_letter r (some pid) =
      if is_remote r pid
      then ask_handlers dead_letter r.remote_handlers pid
      else get_local dead_letter r pid.id

  unfoldable pub clear : Registry P → Registry P
  clear r = record r { local_pids = λ i. if ltb i num_shards then [] else r.local_pids i }

  unfoldable pub register_address_resolver : Registry P → (Pid → P × Bool) → Registry P
  register_address_resolver r resolver = record r {
    remote_handlers = r.remote_handlers ++ resolver ∷ [];
  }
