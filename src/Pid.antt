-- ===== src/Pid.antt =====
-- src/actor/pid.cpp and src/actor/new_pid.cpp: process identifiers. The cached process pointer is
-- left out: PID::Ref stores it and nothing reads it.
use protoactor_cpp.Base.{
  ℕ, ◌≡◌, ◌↔◌, Bool, true, false, ◌&&◌, Option, none, some, Bytes, bytes_beq, bytes_beq_iff, eqb,
  arith,
}

pub record Pid : Type 0 where
  pub address : Bytes
  pub id : Bytes
  pub request_id : ℕ

unfoldable pub new_pid : Bytes → Bytes → Pid
new_pid address id = record { address = address; id = id; request_id = 0 }

-- PID::Equal; `none` is a null pointer.
unfoldable pub equal : Pid → Option Pid → Bool
equal p none = false
equal p (some q) =
    bytes_beq p.id q.id && (bytes_beq p.address q.address && eqb p.request_id q.request_id)

-- Two PIDs are Equal exactly if all three of their fields agree; no PID is Equal to null.
pub equal_iff : (p q : Pid) → ((equal p (some q) ≡ true) ↔ (p ≡ q)) × (equal p none ≡ false)
unfolding equal
equal_iff p q = (
  (
    λ h. ground (arith, bytes_beq_iff p.id q.id, bytes_beq_iff p.address q.address),
    λ h. ground (arith, bytes_beq_iff p.id q.id, bytes_beq_iff p.address q.address),
  ),
  ground arith,
)
