-- ===== src/Registry/Names.antt =====
-- Names drawn one after the other from a registry (process_registry.cpp, NextID).
use protoactor_cpp.Base.{ℕ, zero, suc, ◌+◌, ◌%◌, ◌^◌, ◌<◌, ◌≡◌, sym, ap, ◌∙◌, ◌≢◌, arith}
use protoactor_cpp.Registry.Ids.{uint64_to_id, uint64_to_id-read, read_id}
use protoactor_cpp.Registry.{Registry, next_id}

-- Different numbers have different names.
uint64_to_id_ne : (u v : ℕ) → u < 2 ^ 64 → v < 2 ^ 64 → u ≢ v → uint64_to_id u ≢ uint64_to_id v
uint64_to_id_ne u v hu hv ne e =
    let (s, s_made, s_read) = uint64_to_id-read u hu in
    let (t, t_made, t_read) = uint64_to_id-read v hv in
    let same : s ≡ t = cc in ne (sym s_read ∙ ap (read_id 0) same ∙ t_read)

module _ {P : Type 0} where
  -- The registry after `n` names were drawn.
  unfoldable pub drawn : ℕ → Registry P → Registry P
  drawn zero r = r
  drawn (suc n) r = drawn n (next_id r).0

  drawn-sequence_id :
      (n : ℕ) (r : Registry P)
      → r.sequence_id < 2 ^ 64
      → (drawn n r).sequence_id ≡ (r.sequence_id + n) % 2 ^ 64
  unfolding drawn
  drawn-sequence_id zero r h = omega arith
  drawn-sequence_id (suc n) r h =
      drawn-sequence_id n (next_id r).0 (unfold next_id in omega arith)
      ∙ (unfold next_id in omega arith)

  -- Of fewer than 2^64 names in a row, no two are the same, also when the counter wraps around.
  pub next_id_distinct :
      (r : Registry P) (m n : ℕ)
      → r.sequence_id < 2 ^ 64
      → m < n
      → n < m + 2 ^ 64
      → (next_id (drawn m r)).1 ≢ (next_id (drawn n r)).1
  unfolding next_id
  next_id_distinct r m n h lt near =
      uint64_to_id_ne _ _ (omega arith) (omega arith)
        (omega (arith, drawn-sequence_id m r h, drawn-sequence_id n r h))
