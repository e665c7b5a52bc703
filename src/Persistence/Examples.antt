-- ===== src/Persistence/Examples.antt =====
-- The events of one actor; events are numbers.
use protoactor_cpp.Base.{
  ℕ, ◌≡◌, refl, Option, some, List, [], ◌∷◌, Bytes, bytes_beq, lookup, insert, pos,
}
use protoactor_cpp.Persistence.{Provider, new_provider, persist_event, get_events, delete_events}
use protoactor_cpp.Persistence.Journal.{
  journal, written, recorded, persist_all, get_events-persist_all,
}

abbrev name : Bytes
name = 65 ∷ []

abbrev calls : List (Bytes × ℕ × Option ℕ)
calls = (name, 0, some 10) ∷ (name, 3, some 13) ∷ (name, 1, some 11) ∷ (name, 0, some 20) ∷ []

abbrev provider : Provider ℕ ℕ
provider = persist_all new_provider calls

read_back : get_events provider name (pos 0) (pos 9) ≡ 20 ∷ 11 ∷ 13 ∷ []
unfolding persist_all persist_event new_provider get_events lookup insert bytes_beq
read_back = refl

-- Once the events up to index 0 are deleted, index 3 has nothing and index 2 the event of index 3.
shifted : get_events (delete_events provider name 0) name (pos 2) (pos 9) ≡ 13 ∷ []
unfolding persist_all persist_event new_provider get_events delete_events lookup insert bytes_beq
shifted = refl

get_events-persist_all_example :
    get_events provider name (pos 0) (pos 4)
    ≡ recorded (written (journal (new_provider {E = ℕ} {S = ℕ})) calls name) 4 0
get_events-persist_all_example = get_events-persist_all new_provider calls name 0 4
