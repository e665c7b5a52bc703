-- ===== src/Context/Requests.antt =====
-- Requests and their answers (actor_context.cpp).
use protoactor_cpp.Base.{◌≡◌, refl, Option, none, some, [], ◌∷◌, ◌++◌}
use protoactor_cpp.Messages.{Ref, Msg, envelope, unwrap_envelope}
use protoactor_cpp.Context.{
  dead_letter, Context, message, sender, request, request_with_custom_sender, request_future,
  respond, with_sender, passed_on,
}

module _ {A P : Type 0} where
  -- The context `r` while it handles the message `m`.
  abbrev pub handling : Context A P → Msg P → Context A P
  handling r m = record r { message_or_envelope = some m }

  -- Request and RequestWithCustomSender send one envelope, or hand it to the sender middleware, if
  -- there is one. Whoever handles it sees no sender, and the envelope with the request in place of
  -- the request; each answer is a dead letter. RequestFuture throws and sends nothing.
  pub request_unanswered :
      (c r : Context A P) (pid : Ref) (m : Option (Msg P)) (from : Option Ref)
      (response : Option (Msg P))
      → (env : Msg P) × ((request_with_custom_sender c (some pid) m from).log
          ≡ c.log ++ passed_on c pid env)
        × (request c (some pid) m ≡ request_with_custom_sender c (some pid) m c.self)
        × (message (handling r env) ≡ some (with_sender m from))
        × (sender (handling r env) ≡ none)
        × ((respond (handling r env) response).log ≡ r.log ++ dead_letter response ∷ [])
        × (request_future c (some pid) m ≡ none)
  unfolding request request_with_custom_sender request_future respond sender message unwrap_envelope
  request_unanswered c r pid m from response =
      (envelope none (with_sender m from) none, refl, refl, refl, refl, refl, refl)
