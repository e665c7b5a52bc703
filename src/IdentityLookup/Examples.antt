-- ===== src/IdentityLookup/Examples.antt =====
-- Lookups of identity 1 as two kinds, on one member.
use protoactor_cpp.Base.{
  ℕ, ◌≡◌, refl, none, some, List, [], ◌∷◌, ◌++◌, Bytes, bytes_eq, lookup, insert,
}
use protoactor_cpp.Pid.{Pid}
use protoactor_cpp.MemberList.{Member, new_member, update_heartbeat, member_address}
use protoactor_cpp.IdentityLookup.{new_cache, cache_get, cache_add, Answer, success, get}
use protoactor_cpp.IdentityLookup.Cached.{
  Call, adds, removes_member, run, cached_after, cache_get-run,
}

-- A spawn that gives a PID named after the kind.
abbrev spawns : Bytes → Bytes → Bytes → Answer
spawns address kind name =
    (some (record { address = address; id = kind ++ name; request_id = 0 }), success)

abbrev zero_hash : Bytes → ℕ
zero_hash key = 0

abbrev digits : ℕ → Bytes
digits n = n ∷ []

abbrev members : List Member
members = new_member 0 (1 ∷ []) (9 ∷ []) 80 ∷ []

abbrev pid : Pid
pid = record { address = 9 ∷ b':' ∷ 80 ∷ []; id = 3 ∷ 1 ∷ []; request_id = 0 }

first_get :
    get spawns zero_hash digits members new_cache (1 ∷ []) (3 ∷ [])
    ≡ (cache_add new_cache (1 ∷ []) (some pid), (some pid, success))
unfolding get cache_get cache_add lookup insert new_member update_heartbeat member_address
first_get = refl

uncached : cache_get new_cache (1 ∷ []) ≡ none
unfolding cache_get lookup
uncached = refl

abbrev calls : List Call
calls =
    adds (1 ∷ []) (some pid)
    ∷ adds (2 ∷ []) (some pid)
    ∷ removes_member (some (new_member 0 (1 ∷ []) (9 ∷ []) 80))
    ∷ adds (2 ∷ []) (some pid)
    ∷ []

cache_get-run_example :
    cache_get (run digits new_cache calls) (2 ∷ []) ≡ cached_after digits calls (2 ∷ []) none
cache_get-run_example = cache_get-run digits calls (2 ∷ [])
