-- ===== src/IdentityLookup/Cached.antt =====
-- What the cache answers, and what a lookup gives (pid_cache.cpp, identity_lookup.cpp).
use protoactor_cpp.Base.{
  ℕ, zero, suc, ◌%◌, ◌<◌, ◌≡◌, refl, ap, ◌∙◌, inl, inr, Option, none, some, List, [], ◌∷◌, ◌++◌,
  Bytes, bytes_eq, bytes_beq, bytes_beq_iff, lookup, lookup-insert, lookup-erase, Distinct,
  Distinct-insert, Distinct-erase, length, get_elem?, if◌then◌else◌, arith, Option-cases,
}
use protoactor_cpp.Pid.{Pid}
use protoactor_cpp.MemberList.{Member, member_address}
use protoactor_cpp.IdentityLookup.{
  PidCache, new_cache, cache_get, cache_add, cache_remove, stands_at, drop_address,
  remove_by_member, clear_cache, Answer, success, network_unreachable, not_supported,
  remote_spawn_named, spawned, ErrorCode, get,
}

pub data Call : Type 0 where
  adds : Bytes → Option Pid → Call
  removes : Bytes → Call
  removes_member : Option Member → Call
  clears : Call

abbrev handle : (ℕ → Bytes) → PidCache → Call → PidCache
handle decimal cache (adds identity pid) = cache_add cache identity pid
handle decimal cache (removes identity) = cache_remove cache identity
handle decimal cache (removes_member member) = remove_by_member decimal cache member
handle decimal cache clears = clear_cache cache

unfoldable pub run : (ℕ → Bytes) → PidCache → List Call → PidCache
run decimal cache [] = cache
run decimal cache (c ∷ cs) = run decimal (handle decimal cache c) cs

abbrev call_cached : (ℕ → Bytes) → Call → Bytes → Option Pid → Option Pid
call_cached decimal (adds other pid) identity was = if bytes_beq other identity then pid else was
call_cached decimal (removes other) identity was = if bytes_beq other identity then none else was
call_cached decimal (removes_member (some member)) identity was =
    if stands_at (member_address decimal member) was then none else was
call_cached decimal (removes_member none) identity was = was
call_cached decimal clears identity was = none

-- The PID of an identity after the calls, from the one before.
abbrev pub cached_after : (ℕ → Bytes) → List Call → Bytes → Option Pid → Option Pid
cached_after decimal [] identity was = was
cached_after decimal (c ∷ cs) identity was =
    cached_after decimal cs identity (call_cached decimal c identity was)

lookup-drop_address :
    (address identity : Bytes) (cache : PidCache)
    → lookup identity cache ≡ none
    → lookup identity (drop_address address cache) ≡ none
unfolding lookup
lookup-drop_address address identity [] h = refl
lookup-drop_address address identity (entry ∷ rest) h =
    ground (arith, h, lookup-drop_address address identity rest)

Distinct-drop_address :
    (address : Bytes) (cache : PidCache) → Distinct cache → Distinct (drop_address address cache)
Distinct-drop_address address [] h = tt
Distinct-drop_address address (entry ∷ rest) (first, others) = ground (
  arith,
  Distinct-drop_address address rest others,
  lookup-drop_address address entry.0 rest first,
)

cache_get-drop_address :
    (address identity : Bytes) (cache : PidCache)
    → Distinct cache
    → cache_get (drop_address address cache) identity
      ≡ (if stands_at address (cache_get cache identity) then none else cache_get cache identity)
unfolding cache_get lookup
cache_get-drop_address address identity [] h = ground arith
cache_get-drop_address address identity (entry ∷ rest) (first, others) = ground (
  arith,
  cache_get-drop_address address identity rest others,
  bytes_beq_iff entry.0 identity,
  first,
  lookup-drop_address address entry.0 rest first,
)

handle-cached :
    (decimal : ℕ → Bytes) (cache : PidCache) (c : Call) (identity : Bytes)
    → Distinct cache
    → cache_get (handle decimal cache c) identity
      ≡ call_cached decimal c identity (cache_get cache identity)
unfolding cache_get cache_add cache_remove clear_cache
handle-cached decimal cache (adds other pid) identity h =
    ground (arith, lookup-insert other identity pid cache)
handle-cached decimal cache (removes other) identity h =
    ground (arith, lookup-erase other identity cache)
handle-cached decimal cache (removes_member none) identity h =
    unfold remove_by_member in ground arith
handle-cached decimal cache (removes_member (some member)) identity h =
    unfold remove_by_member in
    cache_get-drop_address (member_address decimal member) identity cache h
handle-cached decimal cache clears identity h = unfold lookup in ground arith

handle-Distinct :
    (decimal : ℕ → Bytes) (cache : PidCache) (c : Call)
    → Distinct cache
    → Distinct (handle decimal cache c)
unfolding cache_add cache_remove clear_cache remove_by_member
handle-Distinct decimal cache (adds other pid) h = Distinct-insert other pid cache h
handle-Distinct decimal cache (removes other) h = Distinct-erase other cache h
handle-Distinct decimal cache (removes_member none) h = h
handle-Distinct decimal cache (removes_member (some member)) h =
    Distinct-drop_address (member_address decimal member) cache h
handle-Distinct decimal cache clears h = tt

run-cached :
    (decimal : ℕ → Bytes) (cache : PidCache) (cs : List Call) (identity : Bytes)
    → Distinct cache
    → cache_get (run decimal cache cs) identity
      ≡ cached_after decimal cs identity (cache_get cache identity)
unfolding run
run-cached decimal cache [] identity h = refl
run-cached decimal cache (c ∷ cs) identity h =
    run-cached decimal (handle decimal cache c) cs identity (handle-Distinct decimal cache c h)
    ∙ ap (cached_after decimal cs identity) (handle-cached decimal cache c identity h)

-- After any calls, the cache gives for an identity the PID that was added last, unless since then the
-- identity was removed, the cache cleared or a member at that PID's address removed.
pub cache_get-run :
    (decimal : ℕ → Bytes) (cs : List Call) (identity : Bytes)
    → cache_get (run decimal new_cache cs) identity ≡ cached_after decimal cs identity none
unfolding lookup
cache_get-run decimal cs identity =
    run-cached decimal new_cache cs identity tt
    ∙ ap (cached_after decimal cs identity) (unfold cache_get in refl)

get_there :
    (spawn : Bytes → Bytes → Bytes → Answer) (hash : Bytes → ℕ) (decimal : ℕ → Bytes)
    (members : List Member) (cache : PidCache) (identity kind : Bytes) (pid : Pid)
    → cache_get cache identity ≡ some pid
    → get spawn hash decimal members cache identity kind ≡ (cache, (some pid, success))
unfolding get
get_there spawn hash decimal members cache identity kind pid h = ground (arith, h)

get_elem?-is_some :
    {A : Type 0} (xs : List A) (i : ℕ) → i < length xs → (x : A) × (get_elem? xs i ≡ some x)
get_elem?-is_some [] i h = absurd (omega arith)
get_elem?-is_some (x ∷ xs) zero h = (x, refl)
get_elem?-is_some (x ∷ xs) (suc i) h = get_elem?-is_some xs i (omega arith)

abbrev pub unfound : List Member → ErrorCode
unfound [] = network_unreachable
unfound (m ∷ ms) = not_supported

-- With the remote's SpawnNamed, an identity that is not cached is never found, and nothing is cached
-- for it: the error is that the network is unreachable if there are no members, and else that the
-- call is not supported.
pub get_uncached :
    (hash : Bytes → ℕ) (decimal : ℕ → Bytes) (members : List Member) (cache : PidCache)
    (identity kind : Bytes)
    → cache_get cache identity ≡ none
    → get remote_spawn_named hash decimal members cache identity kind
      ≡ (cache, (none, unfound members))
unfolding get remote_spawn_named
get_uncached hash decimal [] cache identity kind h = ground (arith, h)
get_uncached hash decimal (m ∷ ms) cache identity kind h =
    let (owner, found) =
      get_elem?-is_some (m ∷ ms) (hash (identity ++ kind) % length (m ∷ ms)) (omega arith) in
    ground (arith, h, found)

spawned_found :
    (cache after : PidCache) (identity : Bytes) (a : Answer) (pid : Pid)
    → spawned cache identity a ≡ (after, (some pid, success))
    → cache_get after identity ≡ some pid
spawned_found cache after identity (some q, success) pid h =
    unfold cache_get cache_add in
    ground
      (arith, h, lookup-insert identity identity (some q) cache, bytes_beq_iff identity identity)
spawned_found cache after identity (some q, e) pid h = ground (arith, h)
spawned_found cache after identity (none, e) pid h = ground (arith, h)

found :
    (spawn : Bytes → Bytes → Bytes → Answer) (hash : Bytes → ℕ) (decimal : ℕ → Bytes)
    (members : List Member) (cache after : PidCache) (identity kind : Bytes) (pid : Pid)
    → get spawn hash decimal members cache identity kind ≡ (after, (some pid, success))
    → cache_get after identity ≡ some pid
unfolding get
found spawn hash decimal [] cache after identity kind pid h =
    elim (Option-cases (cache_get cache identity)) [
      | inl new ↦ ground (arith, h, new)
      | inr (q, there) ↦ ground (arith, h, there)
    ]
found spawn hash decimal (m ∷ ms) cache after identity kind pid h =
    let place = get_elem? (m ∷ ms) (hash (identity ++ kind) % length (m ∷ ms)) in
    elim (Option-cases (cache_get cache identity)) [
      | inr (q, there) ↦ ground (arith, h, there)
      | inl new ↦ elim (Option-cases place) [
        | inl nobody ↦ ground (arith, h, new, nobody)
        | inr (owner, e) ↦
            spawned_found cache after identity (spawn (member_address decimal owner) kind identity)
              pid (ground (arith, h, new, e))
      ]
    ]

-- A lookup that finds a PID makes the next lookup of the same identity give that PID, whatever kind
-- it asks for, members there are and a spawn would give: the cache knows no kinds.
pub get_again :
    (spawn spawn' : Bytes → Bytes → Bytes → Answer) (hash : Bytes → ℕ) (decimal : ℕ → Bytes)
    (members members' : List Member) (cache after : PidCache) (identity kind kind' : Bytes)
    (pid : Pid)
    → get spawn hash decimal members cache identity kind ≡ (after, (some pid, success))
    → get spawn' hash decimal members' after identity kind' ≡ (after, (some pid, success))
get_again spawn spawn' hash decimal members members' cache after identity kind kind' pid h =
    get_there spawn' hash decimal members' after identity kind' pid
      (found spawn hash decimal members cache after identity kind pid h)
