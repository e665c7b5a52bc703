-- ===== src/BlockList/Examples.antt =====
-- Three members, one of them blocked twice.
use protoactor_cpp.Base.{List, [], ◌∷◌, bytes_eq}
use protoactor_cpp.BlockList.Blocking.{Call, blocks, blocks_all}

abbrev calls : List Call
calls = blocks (1 ∷ []) ∷ blocks_all ((2 ∷ []) ∷ (1 ∷ []) ∷ []) ∷ blocks (3 ∷ []) ∷ []
