-- ===== src/Persistence/Journal.antt =====
-- What GetEvents reads after PersistEvent (persistence.cpp).
use protoactor_cpp.Base.{
  ℕ, zero, suc, ◌+◌, ◌-◌, ◌<◌, ◌≤◌, ◌≡◌, refl, sym, ap, ◌∙◌, ◌&&◌, Option, none, some, List, [],
  ◌∷◌, ◌++◌, Bytes, bytes_eq, bytes_beq, bytes_beq_iff, lookup-insert, length, length-append,
  get_elem?, set, drop, ltb, eqb, if◌then◌else◌, pos, arith, inl, inr, Bool-cases, ltb→lt,
}
use protoactor_cpp.Persistence.{
  Provider, event_list, events_from, end_index, get_events, padded, persist_event,
}

module _ {E : Type 0} where
  abbrev pub entry_or_null : Option (Option E) → Option E
  entry_or_null none = none
  entry_or_null (some e) = e

  -- The event of a list at an index; there is none past the end or behind a null pointer.
  abbrev pub entry : List (Option E) → ℕ → Option E
  entry list i = entry_or_null (get_elem? list i)

  abbrev prepend : Option E → List E → List E
  prepend none rest = rest
  prepend (some e) rest = e ∷ rest

  -- The events that stand at the indices from `i` on, so many of them.
  unfoldable pub recorded : (ℕ → Option E) → ℕ → ℕ → List E
  recorded at zero i = []
  recorded at (suc n) i = prepend (at i) (recorded at n (i + 1))

  entry_past_end : (list : List (Option E)) (i : ℕ) → length list ≤ i → entry list i ≡ none
  entry_past_end [] i h = refl
  entry_past_end (x ∷ xs) zero h = absurd (omega arith)
  entry_past_end (x ∷ xs) (suc i) h = entry_past_end xs i (omega arith)

  entry-snoc_null : (list : List (Option E)) (i : ℕ) → entry (list ++ none ∷ []) i ≡ entry list i
  entry-snoc_null [] zero = refl
  entry-snoc_null [] (suc i) = refl
  entry-snoc_null (x ∷ xs) zero = refl
  entry-snoc_null (x ∷ xs) (suc i) = entry-snoc_null xs i

  entry-padded : (n : ℕ) (list : List (Option E)) (i : ℕ) → entry (padded n list) i ≡ entry list i
  unfolding padded
  entry-padded zero list i = refl
  entry-padded (suc n) list i = entry-padded n (list ++ none ∷ []) i ∙ entry-snoc_null list i

  length-padded : (n : ℕ) (list : List (Option E)) → length (padded n list) ≡ length list + n
  unfolding padded
  length-padded zero list = omega arith
  length-padded (suc n) list =
      omega (arith, length-padded n (list ++ none ∷ []), length-append list (none ∷ []))

  entry-set :
      (list : List (Option E)) (i j : ℕ) (e : Option E)
      → i < length list
      → entry (set list i e) j ≡ (if eqb i j then e else entry list j)
  entry-set [] i j e h = elim h [ ]
  entry-set (x ∷ xs) zero zero e h = refl
  entry-set (x ∷ xs) zero (suc j) e h = ground arith
  entry-set (x ∷ xs) (suc i) zero e h = ground arith
  entry-set (x ∷ xs) (suc i) (suc j) e h = ground (arith, entry-set xs i j e (omega arith))

  pub entry-drop :
      (n : ℕ) (list : List (Option E)) (i : ℕ) → entry (drop n list) i ≡ entry list (n + i)
  entry-drop zero list i = let e : 0 + i ≡ i = omega arith in rw e refl
  entry-drop (suc n) [] i = refl
  entry-drop (suc n) (x ∷ xs) i =
      let e : suc n + i ≡ suc (n + i) = omega arith in rw e (entry-drop n xs i)

  events_from-recorded :
      (list : List (Option E)) (n i : ℕ) → events_from list n i ≡ recorded (entry list) n i
  unfolding events_from recorded
  events_from-recorded list zero i = refl
  events_from-recorded list (suc n) i = ground (arith, events_from-recorded list n (i + 1))

  recorded_none :
      (list : List (Option E)) (n i : ℕ) → length list ≤ i → recorded (entry list) n i ≡ []
  unfolding recorded
  recorded_none list zero i h = refl
  recorded_none list (suc n) i h =
      ap (λ e. prepend e (recorded (entry list) n (i + 1))) (entry_past_end list i h)
      ∙ recorded_none list n (i + 1) (omega arith)

  recorded_extra :
      (list : List (Option E)) (m n i : ℕ)
      → n ≤ m
      → length list ≤ i + n
      → recorded (entry list) m i ≡ recorded (entry list) n i
  unfolding recorded
  recorded_extra list m zero i le h = recorded_none list m i (omega arith)
  recorded_extra list zero (suc n) i le h = absurd (omega arith)
  recorded_extra list (suc m) (suc n) i le h =
      ap (prepend (entry list i)) (recorded_extra list m n (i + 1) (omega arith) (omega arith))

  pub recorded_ext :
      (at other : ℕ → Option E) (n i : ℕ)
      → ((j : ℕ) → at j ≡ other j)
      → recorded at n i ≡ recorded other n i
  unfolding recorded
  recorded_ext at other zero i h = refl
  recorded_ext at other (suc n) i h =
      ap (λ e. prepend e (recorded at n (i + 1))) (h i)
      ∙ ap (prepend (other i)) (recorded_ext at other n (i + 1) h)

  pub recorded_shift :
      (at : ℕ → Option E) (n i k : ℕ) → recorded (λ j. at (k + j)) n i ≡ recorded at n (k + i)
  unfolding recorded
  recorded_shift at zero i k = refl
  recorded_shift at (suc n) i k =
      let e : k + (i + 1) ≡ k + i + 1 = omega arith in
      ap (prepend (at (k + i))) (recorded_shift at n (i + 1) k ∙ ap (recorded at n) e)

  recorded-end_index :
      (list : List (Option E)) (a b : ℕ)
      → recorded (entry list) (end_index (pos b) (length list) - a) a
        ≡ recorded (entry list) (b - a) a
  recorded-end_index list a b = elim (Bool-cases (ltb (length list) b)) [
    | inl clipped ↦
        let lt = ltb→lt (length list) b clipped in
        rw clipped
          (sym (recorded_extra list (b - a) (length list - a) a (omega arith) (omega arith)))
    | inr inside ↦ rw inside refl
  ]

module _ {E S : Type 0} where
  -- The journal of an actor: the event at each index, if there is one.
  abbrev pub journal : Provider E S → Bytes → ℕ → Option E
  journal s name = entry (event_list s name)

  pub get_events-recorded :
      (s : Provider E S) (name : Bytes) (a b : ℕ)
      → get_events s name (pos a) (pos b) ≡ recorded (journal s name) (b - a) a
  unfolding get_events
  get_events-recorded s name a b =
      events_from-recorded (event_list s name) _ a ∙ recorded-end_index (event_list s name) a b

  journal-persist_event :
      (s : Provider E S) (name : Bytes) (i : ℕ) (event : Option E) (other : Bytes) (j : ℕ)
      → journal (persist_event s name i event) other j
        ≡ (if bytes_beq name other && eqb i j then event else journal s other j)
  unfolding persist_event
  journal-persist_event s name i event other j =
      let list = event_list s name in
      let more = i + 1 - length list in
      let long : i < length (padded more list) = omega (arith, length-padded more list) in
      let looked = lookup-insert name other (set (padded more list) i event) s.events in
      let written = entry-set (padded more list) i j event long in
      let same = entry-padded more list j in
      ground (arith, looked, written, same, bytes_beq_iff name other)

  -- Calls of PersistEvent, one after the other: the actor, the index and the event.
  unfoldable pub persist_all : Provider E S → List (Bytes × ℕ × Option E) → Provider E S
  persist_all s [] = s
  persist_all s ((name, i, event) ∷ calls) = persist_all (persist_event s name i event) calls

module _ {E : Type 0} where
  abbrev pub overwrite : (Bytes → ℕ → Option E) → Bytes → ℕ → Option E → Bytes → ℕ → Option E
  overwrite at name i event other j = if bytes_beq name other && eqb i j then event else at other j

  -- What stands at each index of each actor after the calls: what was written last.
  abbrev pub written : (Bytes → ℕ → Option E) → List (Bytes × ℕ × Option E) → Bytes → ℕ → Option E
  written at [] other j = at other j
  written at ((name, i, event) ∷ calls) other j = written (overwrite at name i event) calls other j

  written_ext :
      (at at' : Bytes → ℕ → Option E) (calls : List (Bytes × ℕ × Option E)) (other : Bytes) (j : ℕ)
      → ((n : Bytes) (k : ℕ) → at n k ≡ at' n k)
      → written at calls other j ≡ written at' calls other j
  written_ext at at' [] other j h = h other j
  written_ext at at' ((name, i, event) ∷ calls) other j h =
      written_ext (overwrite at name i event) (overwrite at' name i event) calls other j
        (λ n k. ap (λ e. if bytes_beq name n && eqb i k then event else e) (h n k))

module _ {E S : Type 0} where
  journal-persist_all :
      (s : Provider E S) (calls : List (Bytes × ℕ × Option E)) (other : Bytes) (j : ℕ)
      → journal (persist_all s calls) other j ≡ written (journal s) calls other j
  unfolding persist_all
  journal-persist_all s [] other j = refl
  journal-persist_all s ((name, i, event) ∷ calls) other j =
      journal-persist_all (persist_event s name i event) calls other j
      ∙ written_ext _ _ calls other j (λ n k. journal-persist_event s name i event n k)

  -- After any calls of PersistEvent, whatever the actors, the indices and their order, GetEvents
  -- gives for the indices from `a` to `b - 1` the event that was written last to each, in order;
  -- indices that were never written are passed over.
  pub get_events-persist_all :
      (s : Provider E S) (calls : List (Bytes × ℕ × Option E)) (name : Bytes) (a b : ℕ)
      → get_events (persist_all s calls) name (pos a) (pos b)
        ≡ recorded (written (journal s) calls name) (b - a) a
  get_events-persist_all s calls name a b =
      get_events-recorded (persist_all s calls) name a b
      ∙ recorded_ext _ _ (b - a) a (journal-persist_all s calls name)
