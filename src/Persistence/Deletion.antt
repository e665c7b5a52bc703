-- ===== src/Persistence/Deletion.antt =====
-- What GetEvents reads after DeleteEvents (persistence.cpp).
use protoactor_cpp.Base.{
  ℕ, ◌+◌, ◌-◌, ◌≡◌, refl, sym, ap, ◌∙◌, Bytes, bytes_eq, bytes_beq_iff, lookup, lookup-insert,
  length, drop, ltb, if◌then◌else◌, pos, arith, inl, inr, Bool-cases, Option-cases,
}
use protoactor_cpp.Persistence.{Provider, event_list, get_events, delete_events}
use protoactor_cpp.Persistence.Journal.{
  journal, entry-drop, recorded, recorded_ext, recorded_shift, get_events-recorded,
}

module _ {E S : Type 0} where
  journal-delete_events :
      (s : Provider E S) (name : Bytes) (k j : ℕ)
      → journal (delete_events s name k) name j ≡ (
          if ltb k (length (event_list s name))
          then journal s name (k + 1 + j)
          else journal s name j)
  unfolding delete_events
  journal-delete_events s name k j = elim (Option-cases (lookup name s.events)) [
    | inl e ↦ ground arith
    | inr (list, e) ↦
        let looked = lookup-insert name name (drop (k + 1) list) s.events in
        ground (arith, looked, entry-drop (k + 1) list j, bytes_beq_iff name name)
  ]

  -- DeleteEvents up to an index `k` within the list moves every later event down by k + 1, so that
  -- the same indices give other events than before; up to an index past the end it deletes nothing.
  pub get_events-delete_events :
      (s : Provider E S) (name : Bytes) (k a b : ℕ)
      → get_events (delete_events s name k) name (pos a) (pos b) ≡ (
          if ltb k (length (event_list s name))
          then get_events s name (pos (k + 1 + a)) (pos (k + 1 + b))
          else get_events s name (pos a) (pos b))
  get_events-delete_events s name k a b = elim (Bool-cases (ltb k (length (event_list s name)))) [
    | inl within ↦
        let e : k + 1 + b - (k + 1 + a) ≡ b - a = omega arith in
        rw within (
          get_events-recorded (delete_events s name k) name a b
          ∙ recorded_ext _ (λ j. journal s name (k + 1 + j)) (b - a) a
              (λ j. journal-delete_events s name k j ∙ rw within refl)
          ∙ recorded_shift (journal s name) (b - a) a (k + 1)
          ∙ sym (
              get_events-recorded s name (k + 1 + a) (k + 1 + b)
              ∙ ap (λ n. recorded (journal s name) n (k + 1 + a)) e))
    | inr past ↦ rw past (
        get_events-recorded (delete_events s name k) name a b
        ∙ recorded_ext _ (journal s name) (b - a) a
            (λ j. journal-delete_events s name k j ∙ rw past refl)
        ∙ sym (get_events-recorded s name a b))
  ]
