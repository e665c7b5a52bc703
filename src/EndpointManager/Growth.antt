-- ===== src/EndpointManager/Growth.antt =====
-- What each remote call sends and what it leaves of the connections (endpoint_manager.cpp).
use protoactor_cpp.Base.{
  ◌≡◌, refl, sym, ap, ◌∙◌, ◌⊎◌, inl, inr, Bool, true, false, Option, none, some, List, [], ◌∷◌,
  ◌++◌, append-nil, Bytes, bytes_eq, bytes_beq, lookup, insert, lookup-insert, arith, Bool-cases,
  Option-cases,
}
use protoactor_cpp.Pid.{Pid}
use protoactor_cpp.Messages.{TerminatedReason, stopped_reason, address_terminated}
use protoactor_cpp.EndpointManager.{
  EndpointManager, Endpoint, Sent, terminated_to, new_endpoint, ensure_connected, tell_terminated,
  remote_deliver, remote_watch, remote_unwatch, remote_terminate,
}
use protoactor_cpp.EndpointManager.Calls.{watches, terminates, notice, answer}

module _ {M : Type 0} where
  -- No endpoint has a writer or a watcher.
  abbrev pub Bare : EndpointManager M → Type 0
  Bare s =
      (address : Bytes) (e : Endpoint) → lookup address s.connections ≡ some e → e ≡ new_endpoint

  ensure_cases :
      (s : EndpointManager M) (address : Bytes)
      → Bare s
      → ((s.stopped ≡ true) × (ensure_connected s address ≡ (s, none)))
        ⊎ ((s.stopped ≡ false)
            × ((t : EndpointManager M) × (ensure_connected s address ≡ (t, some new_endpoint))
                × Bare t
                × (t.sent ≡ s.sent)
                × (t.stopped ≡ s.stopped)))
  unfolding ensure_connected
  ensure_cases s address bare = elim (Bool-cases s.stopped) [
    | inl e ↦ inl (e, ground (arith, e))
    | inr e ↦ inr (
      e,
      elim (Option-cases (lookup address s.connections)) [
        | inr (endpoint, there) ↦
            (s, ground (arith, e, there, bare address endpoint there), bare, refl, refl)
        | inl new ↦ (
          record s { connections = insert address new_endpoint s.connections },
          ground (arith, e, new),
          λ other endpoint.
              ground (
                arith,
                lookup-insert address other new_endpoint s.connections,
                bare other endpoint,
              ),
          refl,
          refl,
        )
      ],
    )
  ]

  abbrev pub Grows : EndpointManager M → EndpointManager M → List (Sent M) → Bool → Type 0
  Grows s t extra stopped = (t.sent ≡ s.sent ++ extra) × Bare t × (t.stopped ≡ stopped)

  pub quiet : (s : EndpointManager M) → Bare s → Grows s s [] s.stopped
  quiet s bare = (sym (append-nil s.sent), bare, refl)

  pub ensure-Grows :
      (s : EndpointManager M) (address : Bytes)
      → Bare s
      → Grows s (ensure_connected s address).0 [] s.stopped
  ensure-Grows s address bare = elim (ensure_cases s address bare) [
    | inl (e, same) ↦ rw same (quiet s bare)
    | inr (e, (t, same, bare_t, sent, stopped)) ↦
        rw same (sent ∙ sym (append-nil s.sent), bare_t, stopped)
  ]

  tell-Grows :
      (local : Bytes → Bool) (s t : EndpointManager M) (watcher : Pid) (who : Option Pid)
      (reason : TerminatedReason)
      → Bare t
      → t.sent ≡ s.sent
      → t.stopped ≡ s.stopped
      → Grows s
          (tell_terminated local t watcher who reason)
          (notice local watcher who reason)
          s.stopped
  unfolding tell_terminated
  tell-Grows local s t watcher who reason bare sent stopped = elim (Bool-cases (local watcher.id)) [
    | inl e ↦ rw e (ap (λ m. m ++ terminated_to watcher.id who reason ∷ []) sent, bare, stopped)
    | inr e ↦ rw e (sent ∙ sym (append-nil s.sent), bare, stopped)
  ]

  -- Another way to write the state and the messages.
  as_Grows :
      (s t t' : EndpointManager M) (extra extra' : List (Sent M))
      → Grows s t' extra' s.stopped
      → t ≡ t'
      → extra ≡ extra'
      → Grows s t extra s.stopped
  as_Grows s t t' extra extra' h e f = rw (e, f) h

  pub watch-Grows :
      (local : Bytes → Bool) (s : EndpointManager M) (watcher : Pid) (watchee : Option Pid)
      → Bare s
      → Grows s
          (remote_watch local s watcher watchee)
          (answer local s.stopped (watches watcher watchee))
          s.stopped
  watch-Grows local s watcher none bare = elim (Bool-cases s.stopped) [
    | inl e ↦
        as_Grows s (remote_watch local s watcher none)
          (tell_terminated local s watcher none stopped_reason)
          (answer local s.stopped (watches watcher none)) (notice local watcher none stopped_reason)
          (tell-Grows local s s watcher none stopped_reason bare refl refl)
          (unfold remote_watch in ground (arith, e)) (ground (arith, e))
    | inr e ↦
        as_Grows s (remote_watch local s watcher none) s
          (answer local s.stopped (watches watcher none)) [] (quiet s bare)
          (unfold remote_watch in ground (arith, e)) (ground (arith, e))
  ]
  watch-Grows local s watcher (some p) bare = elim (ensure_cases s p.address bare) [
    | inl (e, same) ↦
        as_Grows s (remote_watch local s watcher (some p))
          (tell_terminated local s watcher (some p) stopped_reason)
          (answer local s.stopped (watches watcher (some p)))
          (notice local watcher (some p) stopped_reason)
          (tell-Grows local s s watcher (some p) stopped_reason bare refl refl)
          (unfold remote_watch in ground (arith, e)) (ground (arith, e))
    | inr (e, (t, same, bare_t, sent, stopped)) ↦ elim (Bool-cases (bytes_beq p.address [])) [
      | inl empty ↦
          as_Grows s (remote_watch local s watcher (some p)) s
            (answer local s.stopped (watches watcher (some p))) [] (quiet s bare)
            (unfold remote_watch in ground (arith, e, empty)) (ground (arith, e, empty))
      | inr remote ↦
          as_Grows s (remote_watch local s watcher (some p))
            (tell_terminated local t watcher (some p) address_terminated)
            (answer local s.stopped (watches watcher (some p)))
            (notice local watcher (some p) address_terminated)
            (tell-Grows local s t watcher (some p) address_terminated bare_t sent stopped)
            (unfold remote_watch new_endpoint in ground (arith, e, remote, same))
            (ground (arith, e, remote))
    ]
  ]

  pub terminate-Grows :
      (local : Bytes → Bool) (s : EndpointManager M) (watcher : Pid) (watchee : Option Pid)
      → Bare s
      → Grows s
          (remote_terminate local s watcher watchee)
          (answer local s.stopped (terminates watcher watchee))
          s.stopped
  terminate-Grows local s watcher none bare = elim (Bool-cases s.stopped) [
    | inl e ↦
        as_Grows s (remote_terminate local s watcher none) s
          (answer local s.stopped (terminates watcher none)) [] (quiet s bare)
          (unfold remote_terminate in ground (arith, e)) (ground (arith, e))
    | inr e ↦
        as_Grows s (remote_terminate local s watcher none)
          (tell_terminated local s watcher none stopped_reason)
          (answer local s.stopped (terminates watcher none))
          (notice local watcher none stopped_reason)
          (tell-Grows local s s watcher none stopped_reason bare refl refl)
          (unfold remote_terminate in ground (arith, e)) (ground (arith, e))
  ]
  terminate-Grows local s watcher (some p) bare = elim (ensure_cases s p.address bare) [
    | inl (e, same) ↦
        as_Grows s (remote_terminate local s watcher (some p)) s
          (answer local s.stopped (terminates watcher (some p))) [] (quiet s bare)
          (unfold remote_terminate in ground (arith, e)) (ground (arith, e))
    | inr (e, (t, same, bare_t, sent, stopped)) ↦ elim (Bool-cases (bytes_beq p.address [])) [
      | inl empty ↦
          as_Grows s (remote_terminate local s watcher (some p))
            (tell_terminated local s watcher (some p) stopped_reason)
            (answer local s.stopped (terminates watcher (some p)))
            (notice local watcher (some p) stopped_reason)
            (tell-Grows local s s watcher (some p) stopped_reason bare refl refl)
            (unfold remote_terminate in ground (arith, e, empty)) (ground (arith, e))
      | inr remote ↦
          as_Grows s (remote_terminate local s watcher (some p))
            (tell_terminated local t watcher (some p) stopped_reason)
            (answer local s.stopped (terminates watcher (some p)))
            (notice local watcher (some p) stopped_reason)
            (tell-Grows local s t watcher (some p) stopped_reason bare_t sent stopped)
            (unfold remote_terminate new_endpoint in ground (arith, e, remote, same))
            (ground (arith, e))
    ]
  ]

  pub unwatch-Grows :
      (s : EndpointManager M) (watcher : Pid) (watchee : Option Pid)
      → Bare s
      → Grows s (remote_unwatch s watcher watchee) [] s.stopped
  unfolding remote_unwatch
  unwatch-Grows s watcher none bare = quiet s bare
  unwatch-Grows s watcher (some p) bare = elim (ensure_cases s p.address bare) [
    | inl (e, same) ↦
        as_Grows s (remote_unwatch s watcher (some p)) s [] [] (quiet s bare) (ground (arith, e))
          refl
    | inr (e, (t, same, bare_t, sent, stopped)) ↦ elim (Bool-cases (bytes_beq p.address [])) [
      | inl empty ↦
          as_Grows s (remote_unwatch s watcher (some p)) s [] [] (quiet s bare)
            (ground (arith, e, empty)) refl
      | inr remote ↦
          as_Grows s (remote_unwatch s watcher (some p)) t [] []
            (sent ∙ sym (append-nil s.sent), bare_t, stopped)
            (unfold new_endpoint in ground (arith, e, remote, same)) refl
    ]
  ]

  pub deliver-Grows :
      (s : EndpointManager M) (target : Option Pid) (message : M) (sender : Option Pid)
      → Bare s
      → Grows s (remote_deliver s target message sender) [] s.stopped
  unfolding remote_deliver
  deliver-Grows s none message sender bare = quiet s bare
  deliver-Grows s (some p) message sender bare = elim (ensure_cases s p.address bare) [
    | inl (e, same) ↦
        as_Grows s (remote_deliver s (some p) message sender) s [] [] (quiet s bare)
          (ground (arith, e)) refl
    | inr (e, (t, same, bare_t, sent, stopped)) ↦ elim (Bool-cases (bytes_beq p.address [])) [
      | inl empty ↦
          as_Grows s (remote_deliver s (some p) message sender) s [] [] (quiet s bare)
            (ground (arith, e, empty)) refl
      | inr remote ↦
          as_Grows s (remote_deliver s (some p) message sender) t [] []
            (sent ∙ sym (append-nil s.sent), bare_t, stopped)
            (unfold new_endpoint in ground (arith, e, remote, same)) refl
    ]
  ]
