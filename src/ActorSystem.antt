-- ===== src/ActorSystem.antt =====
-- src/actor/actor_system.cpp: the id and the shutdown of ActorSystem, and src/actor/extensions.cpp:
-- Extensions, with its static counter. `R` is a process and `A` an extension.
pub mod Registered
mod Examples
use protoactor_cpp.Base.{
  ℕ, zero, suc, ◌+◌, ◌%◌, ◌^◌, Bool, true, false, Option, none, some, List, [], ◌∷◌, Bytes, nat_eq,
  lookup, insert, ltb, if◌then◌else◌,
}
use protoactor_cpp.Registry.{Registry, clear}

pub record Extensions (A : Type 0) : Type 0 where
  pub id_counter : ℕ
  pub extensions : List (ℕ × A)

module _ {A : Type 0} where
  unfoldable pub new_extensions : Extensions A
  new_extensions = record { id_counter = 1; extensions = [] }

  -- NextExtensionID, on 32 bits.
  unfoldable pub next_extension_id : Extensions A → Extensions A × ℕ
  next_extension_id e = (record e { id_counter = (e.id_counter + 1) % 2 ^ 32 }, e.id_counter)

  unfoldable pub register_extension : ℕ → A → Extensions A → Extensions A
  register_extension id extension e = record e { extensions = insert id extension e.extensions }

  unfoldable pub get_extension : Extensions A → ℕ → Option A
  get_extension e id = lookup id e.extensions

-- A digit as the stream prints it in hexadecimal; the distribution draws below 16.
abbrev pub hex_digit : ℕ → ℕ
hex_digit d = if ltb d 10 then 48 + d else 87 + d

-- The id: `count` draws, the first of them draw `i`.
unfoldable pub new_id : (ℕ → ℕ) → ℕ → ℕ → Bytes
new_id draw i zero = []
new_id draw i (suc count) = hex_digit (draw i) ∷ new_id draw (suc i) count

-- The parts that Shutdown touches. A null dead-letter process is `none`.
pub record ActorSystem (R A : Type 0) : Type 0 where
  pub stopped : Bool
  pub process_registry : Registry (Option R)
  pub dead_letter : Option R
  pub extensions_ptr : Option (Extensions A)

unfoldable pub shutdown_system : {R A : Type 0} → ActorSystem R A → ActorSystem R A
unfolding clear
shutdown_system s = record {
  stopped = true;
  process_registry = clear s.process_registry;
  dead_letter = none;
  extensions_ptr = none;
}
