-- ===== src/EventStream/Removal.antt =====
-- What Unsubscribe takes out of the stream (eventstream.cpp). It looks for the id and not for the
-- subscription, and ids are given from a counter that goes down again.
use protoactor_cpp.Base.{
  ℕ, zero, suc, ◌≡◌, ◌≢◌, refl, sym, true, false, Option, none, some, List, [], ◌∷◌, ◌++◌,
  get_elem?, set, arith, All, Option-cases, inl, inr, get_elem?-set-some, get_elem?-set_ne,
  Bool-cases, ◌∙◌,
}
use protoactor_cpp.EventStream.Delivery.{deactivate_keeps}
use protoactor_cpp.EventStream.{
  Subscription, EventStream, is_active, id_of, deref_or, deactivate, erase_id, drop_erased,
  unsubscribe,
}

module _ {H E : Type 0} where
  set-id :
      (heap : List (Subscription H E)) (p q : ℕ) (sub sub' : Subscription H E)
      → get_elem? heap p ≡ some sub
      → sub'.id ≡ sub.id
      → deref_or 0 (λ x. x.id) (get_elem? (set heap p sub') q)
        ≡ deref_or 0 (λ x. x.id) (get_elem? heap q)
  set-id [] p q sub sub' e same = refl
  set-id (x ∷ heap) zero zero sub sub' e same = ground arith
  set-id (x ∷ heap) zero (suc q) sub sub' e same = refl
  set-id (x ∷ heap) (suc p) zero sub sub' e same = refl
  set-id (x ∷ heap) (suc p) (suc q) sub sub' e same = set-id heap p q sub sub' e same

  deactivate-id_of : (s : EventStream H E) (p q : ℕ) → id_of (deactivate s p).0 q ≡ id_of s q
  unfolding deactivate
  deactivate-id_of s p q = elim (Option-cases (get_elem? s.heap p)) [
    | inl e ↦ rw e refl
    | inr (sub, e) ↦ ground (arith, set-id s.heap p q sub (record sub { active = false }) e refl)
  ]

  erase_id_first :
      (s : EventStream H E) (id p : ℕ) (xs ys : List ℕ)
      → All (λ x. id_of s x ≢ id) xs
      → id_of s p ≡ id
      → erase_id s id (xs ++ (p ∷ ys)) ≡ some (xs ++ ys)
  unfolding erase_id
  erase_id_first s id p [] ys h e = ground arith
  erase_id_first s id p (x ∷ xs) ys h e = ground (arith, h.0, erase_id_first s id p xs ys h.1 e)

  deactivated :
      (s : EventStream H E) (p : ℕ)
      → is_active s p ≡ true
      → ((deactivate s p).1 ≡ true) × (is_active (deactivate s p).0 p ≡ false)
  unfolding deactivate
  deactivated s p active = elim (Option-cases (get_elem? s.heap p)) [
    | inl e ↦ ground arith
    | inr (sub, e) ↦
        ground (arith, get_elem?-set-some s.heap p sub (record sub { active = false }) e)
  ]

  firsts_kept :
      (s : EventStream H E) (p : ℕ) (xs : List ℕ)
      → All (λ x. id_of s x ≢ id_of s p) xs
      → All (λ x. id_of (deactivate s p).0 x ≢ id_of (deactivate s p).0 p) xs
  firsts_kept s p [] h = tt
  firsts_kept s p (x ∷ xs) h =
      (λ e. h.0 (sym (deactivate-id_of s p x) ∙ e ∙ deactivate-id_of s p p), firsts_kept s p xs h.1)

  drop_erased-some :
      (s : EventStream H E) (o : Option (List ℕ)) (qs : List ℕ)
      → o ≡ some qs
      → (drop_erased s o).subscriptions ≡ qs
  unfolding drop_erased
  drop_erased-some s o qs e = rw e refl

  drop_erased-heap : (s : EventStream H E) (o : Option (List ℕ)) → (drop_erased s o).heap ≡ s.heap
  unfolding drop_erased
  drop_erased-heap s none = refl
  drop_erased-heap s (some qs) = refl

  unsubscribe_active :
      (s : EventStream H E) (p : ℕ)
      → is_active s p ≡ true
      → let s' = (deactivate s p).0 in
        unsubscribe s (some p) ≡ drop_erased s' (erase_id s' (id_of s' p) s'.subscriptions)
  unfolding unsubscribe
  unsubscribe_active s p active = rw (active, (deactivated s p active).0) refl

  -- Unsubscribe of an active subscription `p` takes out the first subscription with the id of `p`,
  -- and makes `p` inactive.
  unsubscribe_first :
      (s : EventStream H E) (p q : ℕ) (xs ys : List ℕ)
      → is_active s p ≡ true
      → s.subscriptions ≡ xs ++ (q ∷ ys)
      → All (λ x. id_of s x ≢ id_of s p) xs
      → id_of s q ≡ id_of s p
      → ((unsubscribe s (some p)).subscriptions ≡ xs ++ ys)
        × (is_active (unsubscribe s (some p)) p ≡ false)
  unsubscribe_first s p q xs ys active e firsts same =
      let s' = (deactivate s p).0 in
      let subs : s'.subscriptions ≡ xs ++ (q ∷ ys) = (deactivate_keeps s p).1 ∙ e in
      let same' : id_of s' q ≡ id_of s' p =
        deactivate-id_of s p q ∙ same ∙ sym (deactivate-id_of s p p) in
      let found = erase_id_first s' (id_of s' p) q xs ys (firsts_kept s p xs firsts) same' in
      rw (unsubscribe_active s p active) (
        drop_erased-some s' _ (xs ++ ys) (rw subs found),
        rw (drop_erased-heap s' (erase_id s' (id_of s' p) s'.subscriptions))
            (deactivated s p active).1,
      )

  -- If no subscription before it has its id, exactly the given one is taken out, and it is inactive
  -- from then on.
  pub unsubscribe_exact :
      (s : EventStream H E) (p : ℕ) (xs ys : List ℕ)
      → is_active s p ≡ true
      → s.subscriptions ≡ xs ++ (p ∷ ys)
      → All (λ x. id_of s x ≢ id_of s p) xs
      → ((unsubscribe s (some p)).subscriptions ≡ xs ++ ys)
        × (is_active (unsubscribe s (some p)) p ≡ false)
  unsubscribe_exact s p xs ys active e firsts = unsubscribe_first s p p xs ys active e firsts refl

  deactivate-others :
      (s : EventStream H E) (p q : ℕ) → p ≢ q → is_active (deactivate s p).0 q ≡ is_active s q
  unfolding deactivate
  deactivate-others s p q ne = elim (Option-cases (get_elem? s.heap p)) [
    | inl e ↦ rw e refl
    | inr (sub, e) ↦ ground (arith, get_elem?-set_ne s.heap p q (record sub { active = false }) ne)
  ]

  others_active :
      (s : EventStream H E) (p q : ℕ) → p ≢ q → is_active (unsubscribe s (some p)) q ≡ is_active s q
  others_active s p q ne = elim (Bool-cases (is_active s p)) [
    | inl active ↦
        let s' = (deactivate s p).0 in
        rw
          (
            unsubscribe_active s p active,
            drop_erased-heap s' (erase_id s' (id_of s' p) s'.subscriptions),
          )
          (deactivate-others s p q ne)
    | inr inactive ↦ unfold unsubscribe in rw inactive refl
  ]

  -- Two subscriptions `q` and `p` with one id, `q` first: to unsubscribe `p` takes `q` out of the
  -- stream, which stays active and is called no more, and leaves `p` in it.
  pub unsubscribe_takes_other :
      (s : EventStream H E) (p q : ℕ) (xs ys : List ℕ)
      → is_active s p ≡ true
      → is_active s q ≡ true
      → s.subscriptions ≡ xs ++ (q ∷ ys)
      → All (λ x. id_of s x ≢ id_of s p) xs
      → id_of s q ≡ id_of s p
      → p ≢ q
      → ((unsubscribe s (some p)).subscriptions ≡ xs ++ ys)
        × (is_active (unsubscribe s (some p)) q ≡ true)
  unsubscribe_takes_other s p q xs ys active_p active_q e firsts same ne =
      ((unsubscribe_first s p q xs ys active_p e firsts same).0, others_active s p q ne ∙ active_q)
