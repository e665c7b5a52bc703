-- ===== src/Router/Examples.antt =====
-- Routers with two routees.
use protoactor_cpp.Base.{ℕ, ◌≡◌, refl, true, List, [], ◌∷◌, map, arith}
use protoactor_cpp.Router.{Router}
use protoactor_cpp.Router.Turns.{route_all, route_all_delivers}

abbrev messages : List ℕ
messages = 1 ∷ 2 ∷ 3 ∷ []

abbrev two_routees : ℕ → Router ℕ
two_routees counter = record { routees = 7 ∷ 8 ∷ []; has_sender = true; current_index = counter }

route_all_delivers_example :
    map (λ sent. sent.1) (route_all (two_routees 2147483647) messages) ≡ messages
route_all_delivers_example = route_all_delivers (two_routees 2147483647) messages refl (omega arith)
