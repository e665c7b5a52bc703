-- ===== src/RouterGroup/Routees.antt =====
-- Which routees a group has (router_group.cpp).
use mathlib.Core.Path.{subst}
use protoactor_cpp.Base.{
  ℕ, zero, suc, ◌≡◌, refl, sym, ap, ◌∙◌, Bool, false, not, ◌||◌, Option, none, some, List, [], ◌∷◌,
  ◌++◌, keep, length, append_assoc, append-nil, bytes_beq, arith, Bytes, if◌then◌else◌,
}
use protoactor_cpp.Pid.{Pid}
use protoactor_cpp.Spawn.{World, spawn, spawn_prefix, spawn_named}
use protoactor_cpp.RouterGroup.{
  RouterActorGroup, new_group, spawn_routees, add_routee, remove_routee, stop_group,
}

module _ {P : Type 0} where
  -- A spawn that throws leaves the children alone, any other adds the one it gives.
  abbrev Child : World P → World P × Option Pid → Type 0
  Child w (w', none) = w'.children ≡ w.children
  Child w (w', some pid) = w'.children ≡ w.children ++ pid ∷ []

  spawn-Child : (self : Pid) (w : World P) (process : P) → Child w (spawn self w process)
  unfolding spawn spawn_prefix spawn_named
  spawn-Child self w process = ground arith

  -- The new children are the routees that a loop adds, and there are `count` of them.
  abbrev Adds : World P → RouterActorGroup → ℕ → World P × Option RouterActorGroup → Type 0
  Adds w routees count (w', none) = Unit
  Adds w routees count (w', some group) =
      (new : List Pid) × (group ≡ routees ++ new)
      × (length new ≡ count)
      × (w'.children ≡ w.children ++ new)

  Adds-suc :
      (w w' : World P) (routees : RouterActorGroup) (pid : Pid) (count : ℕ)
      (result : World P × Option RouterActorGroup)
      → w'.children ≡ w.children ++ pid ∷ []
      → Adds w' (routees ++ pid ∷ []) count result
      → Adds w routees (suc count) result
  Adds-suc w w' routees pid count (last, none) child adds = tt
  Adds-suc w w' routees pid count (last, some group) child (new, all, size, children) = (
    pid ∷ new,
    all ∙ append_assoc routees (pid ∷ []) new,
    ap suc size,
    children ∙ ap (λ pids. pids ++ new) child ∙ append_assoc w.children (pid ∷ []) new,
  )

  loop-Adds :
      (self : Pid) (make : ℕ → P) (i count : ℕ) (w : World P) (routees : RouterActorGroup)
      → Adds w routees count (spawn_routees self make i count w routees)
  unfolding spawn_routees
  loop-Adds self make i zero w routees =
      ([], sym (append-nil routees), refl, sym (append-nil w.children))
  loop-Adds self make i (suc count) w routees =
      go (λ w' group. loop-Adds self make (suc i) count w' group) (spawn self w (make i))
        (spawn-Child self w (make i))
    where
      go :
          ((w' : World P) (group : RouterActorGroup)
            → Adds w' group count (spawn_routees self make (suc i) count w' group))
          → (result : World P × Option Pid) → Child w result
          → Adds w routees (suc count) (
              let (w', spawned) = result in
              elim spawned [
                | none ↦ (w', none)
                | some pid ↦ spawn_routees self make (suc i) count w' (routees ++ pid ∷ [])
              ])
      go later (w', none) child = tt
      go later (w', some pid) child =
          Adds-suc w w' routees pid count
            (spawn_routees self make (suc i) count w' (routees ++ pid ∷ [])) child
            (later w' (routees ++ pid ∷ []))

-- What is done to a group once it is made.
pub data Call : Type 0 where
  add : Option Pid → Call
  remove : Option Pid → Call

unfoldable pub handle : RouterActorGroup → Call → RouterActorGroup
unfolding add_routee remove_routee
handle routees (add pid) = add_routee routees pid
handle routees (remove pid) = remove_routee routees pid

unfoldable pub run : RouterActorGroup → List Call → RouterActorGroup
unfolding handle
run routees [] = routees
run routees (c ∷ cs) = run (handle routees c) cs

abbrev pub removes : Bytes → Call → Bool
removes id (remove (some pid)) = bytes_beq id pid.id
removes id (remove none) = false
removes id (add pid) = false

abbrev pub removed_by : List Call → Pid → Bool
removed_by [] p = false
removed_by (c ∷ cs) p = removes p.id c || removed_by cs p

-- Those of `routees` that no call removes.
abbrev pub left_of : RouterActorGroup → List Call → RouterActorGroup
left_of routees cs = keep (λ p. not (removed_by cs p)) routees

abbrev pub if_left : Pid → Bool → List Pid
if_left p removed = if removed then [] else p ∷ []

-- The routees that calls add and that no later call removes.
abbrev pub added_by : List Call → RouterActorGroup
added_by [] = []
added_by (add none ∷ cs) = added_by cs
added_by (add (some p) ∷ cs) = if_left p (removed_by cs p) ++ added_by cs
added_by (remove pid ∷ cs) = added_by cs

keep-append : (p : Pid → Bool) (xs ys : List Pid) → keep p (xs ++ ys) ≡ keep p xs ++ keep p ys
keep-append p [] ys = refl
keep-append p (x ∷ xs) ys = ground (arith, keep-append p xs ys)

left_of-nil : (routees : RouterActorGroup) → left_of routees [] ≡ routees
left_of-nil [] = refl
left_of-nil (p ∷ ps) = ap (λ rest. p ∷ rest) (left_of-nil ps)

left_of-same :
    (routees : RouterActorGroup) (c : Call) (cs : List Call)
    → ((id : Bytes) → removes id c ≡ false)
    → left_of routees (c ∷ cs) ≡ left_of routees cs
left_of-same [] c cs same = refl
left_of-same (p ∷ ps) c cs same = ground (arith, same p.id, left_of-same ps c cs same)

left_of-remove :
    (routees : RouterActorGroup) (q : Pid) (cs : List Call)
    → left_of (keep (λ p. not (bytes_beq p.id q.id)) routees) cs
      ≡ left_of routees (remove (some q) ∷ cs)
left_of-remove [] q cs = refl
left_of-remove (p ∷ ps) q cs = ground (arith, left_of-remove ps q cs)

one_left : (p : Pid) (cs : List Call) → left_of (p ∷ []) cs ≡ if_left p (removed_by cs p)
one_left p cs = ground arith

run_lem :
    (routees : RouterActorGroup) (cs : List Call)
    → run routees cs ≡ left_of routees cs ++ added_by cs
unfolding run
run_lem routees [] = sym (append-nil (left_of routees []) ∙ left_of-nil routees)
run_lem routees (add none ∷ cs) =
    run_lem routees cs
    ∙ ap (λ ps. ps ++ added_by cs) (sym (left_of-same routees (add none) cs (λ id. refl)))
run_lem routees (add (some p) ∷ cs) =
    run_lem (routees ++ p ∷ []) cs
    ∙ ap (λ ps. ps ++ added_by cs)
        (keep-append (λ q. not (removed_by cs q)) routees (p ∷ [])
          ∙ ap (λ ps. left_of routees cs ++ ps) (one_left p cs))
    ∙ append_assoc (left_of routees cs) (if_left p (removed_by cs p)) (added_by cs)
run_lem routees (remove none ∷ cs) =
    run_lem routees cs
    ∙ ap (λ ps. ps ++ added_by cs) (sym (left_of-same routees (remove none) cs (λ id. refl)))
run_lem routees (remove (some q) ∷ cs) =
    run_lem (keep (λ p. not (bytes_beq p.id q.id)) routees) cs
    ∙ ap (λ ps. ps ++ added_by cs) (left_of-remove routees q cs)

module _ {P : Type 0} where
  -- A group that New gives has as many routees as it was asked for, and they are the new children of
  -- the context. After any calls it has, in order, its routees that no call removes, and those that a
  -- call adds and no later one removes; a call removes all with the id of its PID, at any address.
  -- Stop stops each of them once and leaves none.
  pub stop-run-new :
      (self : Pid) (make : ℕ → P) (count : ℕ) (w w' : World P) (group : RouterActorGroup)
      (cs : List Call)
      → new_group self make count w ≡ (w', some group)
      → (length group ≡ count)
        × (w'.children ≡ w.children ++ group)
        × (stop_group (run group cs) ≡ ([], left_of group cs ++ added_by cs))
  unfolding new_group stop_group
  stop-run-new self make count w w' group cs h =
      let (new, all, size, children) : Adds w [] count (w', some group) =
        subst (Adds w [] count) h (loop-Adds self make 0 count w []) in
      (
        ap length all ∙ size,
        children ∙ ap (λ pids. w.children ++ pids) (sym all),
        ap (λ pids. ([], pids)) (run_lem group cs),
      )
