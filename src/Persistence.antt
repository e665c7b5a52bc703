-- ===== src/Persistence.antt =====
-- src/persistence/persistence.cpp: InMemoryProviderStateImpl. `E` stands for what an event pointer
-- points to and `S` for a snapshot; a null event is `none`. The indices given to PersistEvent and
-- DeleteEvents are not negative: the code writes and erases out of bounds on others.
pub mod Journal
pub mod Deletion
mod Examples
use protoactor_cpp.Base.{
  ℕ, zero, suc, ◌+◌, ◌-◌, Bool, true, false, Option, none, some, List, [], ◌∷◌, ◌++◌, Bytes,
  bytes_eq, lookup, insert, erase, length, get_elem?, set, drop, ltb, leb, if◌then◌else◌, ℤ, pos,
  negsuc,
}

pub record SnapshotData (S : Type 0) : Type 0 where
  pub snapshot : S
  pub index : ℤ

pub record Provider (E S : Type 0) : Type 0 where
  pub snapshots : List (Bytes × SnapshotData S)
  pub events : List (Bytes × List (Option E))
  pub snapshot_interval : ℕ

-- a <= b on `int`.
abbrev pub int_leb : ℤ → ℤ → Bool
int_leb (pos m) (pos n) = leb m n
int_leb (pos m) (negsuc n) = false
int_leb (negsuc m) (pos n) = true
int_leb (negsuc m) (negsuc n) = leb n m

abbrev list_or_nil : {A : Type 0} → Option (List A) → List A
list_or_nil none = []
list_or_nil (some xs) = xs

abbrev pub first_index : ℤ → ℕ
first_index (pos n) = n
first_index (negsuc n) = 0

-- `end` of GetEvents.
abbrev pub end_index : ℤ → ℕ → ℕ
end_index (negsuc n) size = size
end_index (pos n) size = if ltb size n then size else n

module _ {E : Type 0} where
  -- The loop of GetEvents from index `i` on, for so many rounds; the rounds with a negative index
  -- do nothing and are left out.
  unfoldable pub events_from : List (Option E) → ℕ → ℕ → List E
  events_from list zero i = []
  events_from list (suc rounds) i =
      let rest = events_from list rounds (i + 1) in
      elim (get_elem? list i) [
        | none ↦ rest
        | some event ↦ elim event [ none ↦ rest | some e ↦ e ∷ rest ]
      ]

  -- push_back(nullptr) until the list is longer than the index, so many times.
  unfoldable pub padded : ℕ → List (Option E) → List (Option E)
  padded zero list = list
  padded (suc more) list = padded more (list ++ none ∷ [])

module _ {S : Type 0} where
  abbrev pub snapshot_answer : Option (SnapshotData S) → Option S × ℤ × Bool
  snapshot_answer none = (none, pos 0, false)
  snapshot_answer (some saved) = (some saved.snapshot, saved.index, true)

module _ {E S : Type 0} where
  unfoldable pub new_provider : Provider E S
  new_provider = record { snapshots = []; events = []; snapshot_interval = 100 }

  unfoldable pub get_snapshot : Provider E S → Bytes → Option S × ℤ × Bool
  get_snapshot s name = snapshot_answer (lookup name s.snapshots)

  unfoldable pub persist_snapshot : Provider E S → Bytes → ℤ → S → Provider E S
  persist_snapshot s name index snapshot = record s {
    snapshots = insert name (record { snapshot = snapshot; index = index }) s.snapshots;
  }

  unfoldable pub delete_snapshots : Provider E S → Bytes → ℤ → Provider E S
  delete_snapshots s name inclusive_to_index = elim (lookup name s.snapshots) [
    | none ↦ s
    | some saved ↦
        if int_leb saved.index inclusive_to_index
        then record s { snapshots = erase name s.snapshots }
        else s
  ]

  -- events_[actor_name] where it is only read; a missing list is as good as an empty one.
  abbrev pub event_list : Provider E S → Bytes → List (Option E)
  event_list s name = list_or_nil (lookup name s.events)

  -- The events that the callback of GetEvents gets, in order.
  unfoldable pub get_events : Provider E S → Bytes → ℤ → ℤ → List E
  unfolding events_from
  get_events s name start end =
      let list = event_list s name in
      events_from list (end_index end (length list) - first_index start) (first_index start)

  unfoldable pub persist_event : Provider E S → Bytes → ℕ → Option E → Provider E S
  unfolding padded
  persist_event s name index event =
      let list = event_list s name in
      record s {
        events = insert name (set (padded (index + 1 - length list) list) index event) s.events;
      }

  -- erase(begin, begin + count), for a count that is not past the end.
  abbrev pub with_events : Provider E S → Bytes → List (Option E) → Provider E S
  with_events s name list = record s { events = insert name list s.events }

  unfoldable pub delete_events : Provider E S → Bytes → ℕ → Provider E S
  delete_events s name inclusive_to_index = elim (lookup name s.events) [
    | none ↦ s
    | some list ↦
        if ltb inclusive_to_index (length list)
        then with_events s name (drop (inclusive_to_index + 1) list)
        else s
  ]
