-- ===== src/PidSet/Members.antt =====
-- Who is in the set after any calls (pidset.cpp).
use protoactor_cpp.Base.{
  suc, ◌≡◌, refl, sym, ap, ◌∙◌, Option, none, some, List, [], ◌∷◌, map, Bytes, bytes_eq, keep,
  bytes_pair_eq, pair_beq, pair_beq_iff, ◌==◌, length, is_some, lookup, insert, erase,
  lookup-insert, lookup-erase, if◌then◌else◌, arith, Option-cases, Bool-cases, inl, inr,
}
use protoactor_cpp.Messages.{Ref}
use protoactor_cpp.PidSet.{
  PidSet, key_of, new_pid_set, contains, add_pid, remove_pid, get_all, pid_set_len, clear,
}

pub data Call : Type 0 where
  adds removes : Option Ref → Call
  clears : Call

abbrev handle : Call → PidSet → PidSet
handle (adds p) pids = add_pid pids p
handle (removes p) pids = remove_pid pids p
handle clears pids = clear pids

unfoldable pub run : List Call → PidSet → PidSet
run [] pids = pids
run (c ∷ cs) pids = run cs (handle c pids)

-- The pointer that stands for a PID after a call: the first added since it was last removed.
abbrev pub call_member : Call → Bytes × Bytes → Option Ref → Option Ref
call_member (adds (some p)) key none = if key_of p == key then some p else none
call_member (removes (some p)) key member = if key_of p == key then none else member
call_member clears key member = none
call_member c key member = member

abbrev pub member_after : List Call → Bytes × Bytes → Option Ref → Option Ref
member_after [] key member = member
member_after (c ∷ cs) key member = member_after cs key (call_member c key member)

-- Every entry is filed under the key of its PID, once.
abbrev Filed : PidSet → Type 0
Filed [] = Unit
Filed (entry ∷ rest) = (key_of entry.1 ≡ entry.0) × (lookup entry.0 rest ≡ none) × Filed rest

handle-member :
    (c : Call) (pids : PidSet) (key : Bytes × Bytes)
    → lookup key (handle c pids) ≡ call_member c key (lookup key pids)
unfolding add_pid remove_pid clear
handle-member (adds none) pids key = ground arith
handle-member (adds (some p)) pids key = elim (Option-cases (lookup (key_of p) pids)) [
  | inl new ↦ ground (arith, new, lookup-insert (key_of p) key p pids, pair_beq_iff (key_of p) key)
  | inr (q, there) ↦ ground (arith, there, pair_beq_iff (key_of p) key)
]
handle-member (removes none) pids key = ground arith
handle-member (removes (some p)) pids key = ground (arith, lookup-erase (key_of p) key pids)
handle-member clears pids key = unfold lookup in refl

run-member :
    (cs : List Call) (pids : PidSet) (key : Bytes × Bytes)
    → lookup key (run cs pids) ≡ member_after cs key (lookup key pids)
unfolding run
run-member [] pids key = refl
run-member (c ∷ cs) pids key =
    run-member cs (handle c pids) key ∙ ap (member_after cs key) (handle-member c pids key)

Filed-insert : (p : Ref) (pids : PidSet) → Filed pids → Filed (insert (key_of p) p pids)
unfolding insert lookup
Filed-insert p [] h = (refl, refl, tt)
Filed-insert p (entry ∷ rest) (key, new, filed) =
    let same = pair_beq_iff entry.0 (key_of p) in
    let later = lookup-insert (key_of p) entry.0 p rest in
    let back = pair_beq_iff (key_of p) entry.0 in
    elim (Bool-cases (pair_beq entry.0 (key_of p))) [
      | inl equal ↦ rw equal (refl, ap (λ k. lookup k rest) (sym (same.0 equal)) ∙ new, filed)
      | inr other ↦
          rw other (key, ground (arith, later, new, same, back, other), Filed-insert p rest filed)
    ]

Filed-erase : (key : Bytes × Bytes) (pids : PidSet) → Filed pids → Filed (erase key pids)
unfolding erase
Filed-erase key [] h = tt
Filed-erase key (entry ∷ rest) (k, new, filed) =
    ground (arith, k, Filed-erase key rest filed, lookup-erase key entry.0 rest, new)

handle-Filed : (c : Call) (pids : PidSet) → Filed pids → Filed (handle c pids)
unfolding add_pid remove_pid clear
handle-Filed (adds none) pids h = h
handle-Filed (adds (some p)) pids h = elim (Bool-cases (is_some (lookup (key_of p) pids))) [
  | inl there ↦ rw there h
  | inr new ↦ rw new (Filed-insert p pids h)
]
handle-Filed (removes none) pids h = h
handle-Filed (removes (some p)) pids h = Filed-erase (key_of p) pids h
handle-Filed clears pids h = tt

run-Filed : (cs : List Call) (pids : PidSet) → Filed pids → Filed (run cs pids)
unfolding run
run-Filed [] pids h = h
run-Filed (c ∷ cs) pids h = run-Filed cs (handle c pids) (handle-Filed c pids h)

-- The pointers with this key.
abbrev pub with_key : Bytes × Bytes → List Ref → List Ref
with_key key = keep (λ q. key_of q == key)

abbrev pub at_most_one : Option Ref → List Ref
at_most_one none = []
at_most_one (some p) = p ∷ []

with_key-get_all :
    (key : Bytes × Bytes) (pids : PidSet)
    → Filed pids
    → with_key key (get_all pids) ≡ at_most_one (lookup key pids)
unfolding get_all lookup
with_key-get_all key [] h = refl
with_key-get_all key (entry ∷ rest) (own, new, filed) =
    let others = with_key-get_all key rest filed in
    elim (Bool-cases (pair_beq entry.0 key)) [
      | inl equal ↦
          let none_left : lookup key rest ≡ none =
            ap (λ k. lookup k rest) (sym ((pair_beq_iff entry.0 key).0 equal)) ∙ new in
          ground (arith, own, equal, others, none_left)
      | inr other ↦ ground (arith, own, other, others)
    ]

length-map : {A B : Type 0} (f : A → B) (xs : List A) → length (map f xs) ≡ length xs
length-map f [] = refl
length-map f (x ∷ xs) = ap suc (length-map f xs)

-- After any calls: a PID is in the set exactly if one of its address and id was added since the last
-- Clear or Remove of such a PID, whatever their request ids; in that case GetAll gives one pointer
-- of this address and id, the one that was added first since then, and otherwise it gives none; and
-- Len counts what GetAll gives.
pub contains-run :
    (cs : List Call) (p : Ref)
    → let pids = run cs new_pid_set in
      (contains pids (some p) ≡ is_some (member_after cs (key_of p) none))
      × (with_key (key_of p) (get_all pids) ≡ at_most_one (member_after cs (key_of p) none))
      × (pid_set_len pids ≡ length (get_all pids))
contains-run cs p =
    let pids = run cs new_pid_set in
    let member : lookup (key_of p) pids ≡ member_after cs (key_of p) none =
      run-member cs new_pid_set (key_of p) ∙ (unfold lookup in refl) in
    (
      unfold contains in ap is_some member,
      with_key-get_all (key_of p) pids (run-Filed cs new_pid_set tt) ∙ ap at_most_one member,
      unfold pid_set_len get_all in sym (length-map (λ entry. entry.1) pids),
    )
