-- ===== src/Messages.antt =====
-- include/external/messages.h and src/actor/messages.cpp: messages behind `std::shared_ptr<void>`,
-- envelopes and headers. `P` stands for what users send, and for pointers that are only passed on.
-- A null pointer is `none`. A message that is no envelope does not begin with the magic number.
pub mod Envelopes
mod Examples
use protoactor_cpp.Base.{
  ℕ, Bool, true, false, Option, none, some, List, [], ◌∷◌, map, Bytes, bytes_eq, lookup, insert,
  is_some, length,
}
use protoactor_cpp.Pid.{Pid}

-- A `std::shared_ptr<PID>`: where it points to, and what stands there.
pub record Ref : Type 0 where
  pub ptr : ℕ
  pub pid : Pid

pub data TerminatedReason : Type 0 where
  stopped_reason address_terminated disassociated : TerminatedReason

abbrev pub Header : Type 0
Header = List (Bytes × Bytes)

-- The classes of messages.h. An envelope and a continuation hold a message that may be null, so
-- each has a second constructor for that.
pub data Msg (P : Type 0) : Type 0 where
  payload : P → Msg P
  started stopping stopped restarting receive_timeout stop poison_pill restart : Msg P
  watch : Option Ref → Msg P
  unwatch : Option Ref → Msg P
  terminated : Option Ref → TerminatedReason → Msg P
  failure : Option Ref → P → P → Msg P
  continuation : Option P → Msg P → Msg P
  continuation_null : Option P → Msg P
  envelope : Option Header → Msg P → Option Ref → Msg P
  envelope_null : Option Header → Option Ref → Msg P

module _ {P : Type 0} where
  unfoldable pub wrap_envelope : Option (Msg P) → Option (Msg P)
  wrap_envelope none = none
  wrap_envelope (some (envelope h m s)) = some (envelope h m s)
  wrap_envelope (some (envelope_null h s)) = some (envelope_null h s)
  wrap_envelope (some m) = some (envelope none m none)

  unfoldable pub unwrap_envelope : Option (Msg P) → Option Header × Option (Msg P) × Option Ref
  unwrap_envelope none = (none, none, none)
  unwrap_envelope (some (envelope h m s)) = (h, some m, s)
  unwrap_envelope (some (envelope_null h s)) = (h, none, s)
  unwrap_envelope (some m) = (none, some m, none)

-- MessageEnvelope::GetHeader and SetHeader, on the header of an envelope; the empty string stands
-- for a key that is not there.
unfoldable pub get_header : Option Header → Bytes → Bytes
get_header none key = []
get_header (some h) key = elim (lookup key h) [ none ↦ [] | some v ↦ v ]

unfoldable pub set_header : Option Header → Bytes → Bytes → Option Header
set_header none key value = some (insert key value [])
set_header (some h) key value = some (insert key value h)
