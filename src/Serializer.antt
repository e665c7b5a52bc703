-- ===== src/Serializer.antt =====
-- src/remote/serializer.cpp: SerializerRegistry. A serializer is what it does: the three virtual
-- methods, where `none` is an exception. A message is a pointer of type `M`.
use protoactor_cpp.Base.{
  ℕ, ◌>>=◌, Option, none, some, List, [], ◌∷◌, ◌++◌, Bytes, length, get_elem?, ℤ, pos, negsuc,
  if◌then◌else◌, eqb,
}

pub record Serializer (M : Type 0) : Type 0 where
  pub to_bytes : M → Option Bytes
  pub from_bytes : Bytes → Bytes → Option M
  pub type_name : M → Option Bytes

-- The static members.
pub record SerializerRegistry (M : Type 0) : Type 0 where
  pub serializers : List (Serializer M)
  pub default_serializer_id : ℤ

module _ {M : Type 0} where
  unfoldable pub new_registry : SerializerRegistry M
  new_registry = record { serializers = []; default_serializer_id = pos 0 }

  unfoldable pub register_serializer :
      SerializerRegistry M → Serializer M → SerializerRegistry M × ℕ
  register_serializer r serializer =
      let id = length r.serializers in
      (
        record {
          serializers = r.serializers ++ serializer ∷ [];
          default_serializer_id = if eqb id 0 then pos 0 else r.default_serializer_id;
        },
        id,
      )

  unfoldable pub get_serializer : SerializerRegistry M → ℤ → Option (Serializer M)
  get_serializer r (pos id) = get_elem? r.serializers id
  get_serializer r (negsuc id) = none

  -- The default instead of a negative id.
  abbrev pub id_or_default : SerializerRegistry M → ℤ → ℤ
  id_or_default r (pos id) = pos id
  id_or_default r (negsuc id) = r.default_serializer_id

  -- The bytes and the type name.
  unfoldable pub serialize : SerializerRegistry M → M → ℤ → Option (Bytes × Bytes)
  unfolding get_serializer
  serialize r message id = do
    serializer ← get_serializer r (id_or_default r id)
    bytes ← serializer.to_bytes message
    name ← serializer.type_name message
    some (bytes, name)

  unfoldable pub deserialize : SerializerRegistry M → Bytes → Bytes → ℤ → Option M
  unfolding get_serializer
  deserialize r bytes name id = do
    serializer ← get_serializer r id
    serializer.from_bytes name bytes
