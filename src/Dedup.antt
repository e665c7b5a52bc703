-- ===== src/Dedup.antt =====
-- src/actor/deduplication_context.cpp: DedupState. `dedup` is the Deduplicator, `ticks` the clock
-- ticks in a millisecond; the clock is steady, so that no reading is below an earlier one.
pub mod Window
mod Examples
use protoactor_cpp.Base.{
  ℕ, ◌-◌, ◌/◌, Bool, true, false, not, Option, none, some, List, [], ◌∷◌, Bytes, bytes_eq, lookup,
  insert, keep, ltb, if◌then◌else◌,
}

-- seen_: when each key was met last.
abbrev pub Seen : Type 0
Seen = List (Bytes × ℕ)

-- elapsed < ttl_, in whole milliseconds.
abbrev pub fresh : ℕ → ℕ → ℕ → ℕ → Bool
fresh ticks ttl now t = ltb ((now - t) / ticks) ttl

-- Cleanup.
unfoldable pub cleanup : ℕ → ℕ → ℕ → Seen → Seen
cleanup ticks ttl now seen = keep (λ entry. fresh ticks ttl now entry.1) seen

abbrev pub is_empty : Bytes → Bool
is_empty [] = true
is_empty (c ∷ cs) = false

-- The part of ShouldProcess under the lock, with what was found for the key.
unfoldable pub decide : ℕ → ℕ → ℕ → Bytes → Seen → Option ℕ → Seen × Bool
decide ticks ttl now key seen none = (insert key now seen, true)
decide ticks ttl now key seen (some t) =
    (insert key now seen, if fresh ticks ttl now t then false else true)

-- ShouldProcess, of an envelope with a message or of one without.
unfoldable pub should_process :
    {M : Type 0} → ℕ → (M → Bytes) → ℕ → ℕ → Option M → Seen → Seen × Bool
unfolding cleanup decide
should_process ticks dedup ttl now none seen = (seen, true)
should_process ticks dedup ttl now (some m) seen =
    let kept = cleanup ticks ttl now seen in
    let key = dedup m in
    if is_empty key then (kept, true) else decide ticks ttl now key kept (lookup key kept)

-- The middleware around `next`, for messages with the times at which they come: those that get
-- through.
unfoldable pub passed_on : {M : Type 0} → ℕ → (M → Bytes) → ℕ → Seen → List (ℕ × M) → List (ℕ × M)
unfolding should_process
passed_on ticks dedup ttl seen [] = []
passed_on ticks dedup ttl seen ((now, m) ∷ ms) =
    let (seen', process) = should_process ticks dedup ttl now (some m) seen in
    let rest = passed_on ticks dedup ttl seen' ms in if process then (now, m) ∷ rest else rest
