-- ===== src/EndpointWriter/Queues.antt =====
-- Parts of a queue, and what the written batches read back as (endpoint_writer.cpp).
use protoactor_cpp.Base.{
  ℕ, zero, suc, ◌<◌, ◌≤◌, ◌≡◌, ◌⊎◌, refl, sym, ap, ◌∙◌, true, false, List, [], ◌∷◌, ◌++◌,
  append-nil, append_assoc, arith, Bytes, length, take, drop,
}
use protoactor_cpp.Wire.{MessageBatch, Received, handle_message_batch}
use protoactor_cpp.EndpointWriter.{is_nil}

pub lt_or_eq : (a b : ℕ) → a ≤ b → (a < b) ⊎ (a ≡ b)
lt_or_eq a b h = grind arith

module _ {A : Type 0} where
  pub take-all : (n : ℕ) (xs : List A) → length xs ≤ n → take n xs ≡ xs
  take-all zero [] h = refl
  take-all zero (x ∷ xs) h = absurd (omega arith)
  take-all (suc n) [] h = refl
  take-all (suc n) (x ∷ xs) h = ap (λ ys. x ∷ ys) (take-all n xs (omega arith))

  pub drop-all : (n : ℕ) (xs : List A) → length xs ≤ n → drop n xs ≡ []
  drop-all zero [] h = refl
  drop-all zero (x ∷ xs) h = absurd (omega arith)
  drop-all (suc n) [] h = refl
  drop-all (suc n) (x ∷ xs) h = drop-all n xs (omega arith)

  pub is_nil-eq : (xs : List A) → is_nil xs ≡ true → xs ≡ []
  is_nil-eq [] h = refl
  is_nil-eq (x ∷ xs) h = ground arith

  pub is_nil-snoc : (xs : List A) (x : A) → is_nil (xs ++ x ∷ []) ≡ false
  is_nil-snoc [] x = refl
  is_nil-snoc (y ∷ ys) x = refl

abbrev pub read_all : Bytes → List MessageBatch → List Received
read_all address [] = []
read_all address (b ∷ bs) = handle_message_batch address b ++ read_all address bs

pub read_all-snoc :
    (address : Bytes) (bs : List MessageBatch) (b : MessageBatch)
    → read_all address (bs ++ b ∷ []) ≡ read_all address bs ++ handle_message_batch address b
read_all-snoc address [] b = append-nil (handle_message_batch address b)
read_all-snoc address (c ∷ bs) b =
    ap (λ rs. handle_message_batch address c ++ rs) (read_all-snoc address bs b)
    ∙ sym (
        append_assoc (handle_message_batch address c) (read_all address bs)
          (handle_message_batch address b))
