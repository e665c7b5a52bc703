-- ===== src/Messages/Envelopes.antt =====
-- The headers of envelopes (messages.cpp).
use protoactor_cpp.Base.{
  ◌≡◌, Option, none, some, [], Bytes, bytes_beq, bytes_eq, lookup, insert, lookup-insert,
  if◌then◌else◌, arith,
}
use protoactor_cpp.Messages.{Header, get_header, set_header}

header_new :
    (key j value : Bytes)
    → get_header (set_header none key value) j ≡ (if bytes_beq key j then value else [])
unfolding get_header set_header lookup insert
header_new key j value = ground arith

-- A header reads back the value that was set last for the key, and the other keys as before, also
-- where the envelope had no header.
pub get-set_header :
    (h : Option Header) (key j value : Bytes)
    → get_header (set_header h key value) j ≡ (if bytes_beq key j then value else get_header h j)
unfolding get_header set_header
get-set_header none key j value = header_new key j value
get-set_header (some h) key j value = ground (arith, lookup-insert key j value h)
