-- ===== src/EventStream.antt =====
-- src/actor/eventstream.cpp: Subscription and EventStream. A subscription is shared by the stream
-- and the subscriber, so it lives in a heap and both hold its index; `H` stands for the handlers
-- and `E` for the events. Each operation runs to its end
-- before the next one starts.
pub mod Delivery
pub mod Removal
pub mod Counting
mod Examples
use protoactor_cpp.Base.{
  ℕ, zero, suc, ◌+◌, ◌-◌, ◌%◌, ◌^◌, Bool, true, false, not, Option, none, some, List, [], ◌∷◌, ◌++◌,
  length, get_elem?, set, eqb, if◌then◌else◌, map,
}

pub record Subscription (H E : Type 0) : Type 0 where
  pub id : ℕ
  pub handler : H
  pub predicate : Option (E → Bool)
  -- active_, which is 0 or 1.
  pub active : Bool

pub record EventStream (H E : Type 0) : Type 0 where
  pub heap : List (Subscription H E)
  pub subscriptions : List ℕ
  -- The bit pattern of the int32_t counter_.
  pub counter : ℕ

abbrev pub accepts : {E : Type 0} → E → Option (E → Bool) → Bool
accepts evt none = true
accepts evt (some predicate) = predicate evt

module _ {H E : Type 0} where
  unfoldable pub new_stream : EventStream H E
  new_stream = record { heap = []; subscriptions = []; counter = 0 }

  -- The read of a field through a pointer; no pointer of the program dangles.
  abbrev pub deref_or : {A : Type 0} → A → (Subscription H E → A) → Option (Subscription H E) → A
  deref_or d f none = d
  deref_or d f (some sub) = f sub

  abbrev pub is_active : EventStream H E → ℕ → Bool
  is_active s p = deref_or false (λ sub. sub.active) (get_elem? s.heap p)

  abbrev pub id_of : EventStream H E → ℕ → ℕ
  id_of s p = deref_or 0 (λ sub. sub.id) (get_elem? s.heap p)

  set_active : EventStream H E → ℕ → Bool → Option (Subscription H E) → EventStream H E
  set_active s p b none = s
  set_active s p b (some sub) = record s { heap = set s.heap p (record sub { active = b }) }

  -- Subscription::Activate and Subscription::Deactivate: compare and exchange of active_.
  unfoldable pub activate : EventStream H E → ℕ → EventStream H E × Bool
  unfolding set_active
  activate s p =
      if is_active s p then (s, false) else (set_active s p true (get_elem? s.heap p), true)

  unfoldable pub deactivate : EventStream H E → ℕ → EventStream H E × Bool
  unfolding set_active
  deactivate s p =
      if is_active s p then (set_active s p false (get_elem? s.heap p), true) else (s, false)

  unfoldable pub subscribe_predicate : EventStream H E → H → Option (E → Bool) → EventStream H E × ℕ
  subscribe_predicate s handler predicate =
      let p = length s.heap in
      let sub : Subscription H E = record {
        id = s.counter;
        handler = handler;
        predicate = predicate;
        active = true;
      } in
      (
        record {
          heap = s.heap ++ sub ∷ [];
          subscriptions = s.subscriptions ++ p ∷ [];
          counter = (s.counter + 1) % 2 ^ 32;
        },
        p,
      )

  unfoldable pub subscribe : EventStream H E → H → EventStream H E × ℕ
  unfolding subscribe_predicate
  subscribe s handler = subscribe_predicate s handler none

  unfoldable pub subscribe_with_predicate : EventStream H E → H → (E → Bool) → EventStream H E × ℕ
  unfolding subscribe_predicate
  subscribe_with_predicate s handler predicate = subscribe_predicate s handler (some predicate)

  -- The list without the first pointer to a subscription with this id, if there is one.
  unfoldable pub erase_id : EventStream H E → ℕ → List ℕ → Option (List ℕ)
  erase_id s id [] = none
  erase_id s id (q ∷ qs) =
      let rest = erase_id s id qs in
      if eqb (id_of s q) id then some qs else elim rest [ none ↦ none | some qs' ↦ some (q ∷ qs') ]

  unfoldable pub drop_erased : EventStream H E → Option (List ℕ) → EventStream H E
  drop_erased s none = s
  drop_erased s (some subs) = record s {
    subscriptions = subs;
    counter = (s.counter + 2 ^ 32 - 1) % 2 ^ 32;
  }

  unfoldable pub unsubscribe : EventStream H E → Option ℕ → EventStream H E
  unfolding erase_id drop_erased
  unsubscribe s none = s
  unsubscribe s (some p) =
      if is_active s p
      then (let (s', changed) = deactivate s p in
          if changed then drop_erased s' (erase_id s' (id_of s' p) s'.subscriptions) else s')
      else s

  -- The subscriptions that Publish copies under the lock.
  unfoldable pub snapshot : EventStream H E → List ℕ → List ℕ
  snapshot s [] = []
  snapshot s (p ∷ ps) = let rest = snapshot s ps in if is_active s p then p ∷ rest else rest

  unfoldable pub deliver : EventStream H E → E → List ℕ → List H
  deliver s evt [] = []
  deliver s evt (p ∷ ps) =
      let rest = deliver s evt ps in
      elim (get_elem? s.heap p) [
        | none ↦ rest
        | some sub ↦ if accepts evt sub.predicate then sub.handler ∷ rest else rest
      ]

  -- Publish: the handlers that are called with the event, in order.
  unfoldable pub publish : EventStream H E → E → List H
  unfolding snapshot deliver
  publish s evt = deliver s evt (snapshot s s.subscriptions)

  unfoldable pub stream_length : EventStream H E → ℕ
  stream_length s = s.counter
