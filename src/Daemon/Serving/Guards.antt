-- ===== src/Daemon/Serving/Guards.antt =====
-- What it takes for a client to have an effect.
use kitt_assistant.Base.{
  refl, ◌≡◌, ◌⊎◌, inl, inr, sym, ap, subst, true, Option, none, some, List, ℕ, arith, Text, ok, err,
  ◌>>=◌, codes, bytes, Bool-cases, Option-cases, Result-cases,
}
use kitt_assistant.Daemon.Serving.{
  Failure, reply, reply_error, dispatch, serve_request, serve_frame, handle_client,
}
use kitt_assistant.Daemon.Dispatch.{Daemon, Server}
use kitt_assistant.Daemon.Protocol.{Envelope, AuthenticatedFrame}
use kitt_assistant.Daemon.Access.{read_frame, secure_eq}

module _ {R F E S : Type 0} (d : Daemon R F E S) (stream : S) where
  -- Nothing but the lines to the client may have changed.
  abbrev pub Untouched : Server S → Server S → Type 0
  Untouched s s' = (s'.world ≡ s.world) × (s'.store_calls ≡ s.store_calls) × (s'.hud ≡ s.hud)

  -- The bytes are a frame with the daemon's token and a request that has no correlation id.
  abbrev pub IsAdmitted : Option (List ℕ) → Type 0
  IsAdmitted received =
      (content : List ℕ) × (frame : AuthenticatedFrame) × (read_frame d.protocol.max_frame_bytes
          (d.sockets.can_clone stream) received
        ≡ ok content)
      × (d.protocol.decode content ≡ ok frame)
      × (secure_eq (bytes frame.token) (bytes d.token) ≡ true)
      × (frame.envelope.correlation_id ≡ none)

  reply-Untouched : (envelope : E) (s : Server S) → Untouched s (reply d stream envelope s).1
  unfolding reply
  reply-Untouched envelope s =
      elim (Result-cases
        (d.protocol.validate envelope >>= λ valid. d.protocol.to_string envelope)) [
          | inr (x, e) ↦ rw (e, reply) (refl, refl, refl)
          | inl (line, e) ↦ rw (e, reply) (ground arith, ground arith, ground arith)
        ]

  reply_error-Untouched :
      (id : Option Text) (code message : Text) (s : Server S)
      → Untouched s (reply_error d stream id code message s)
  unfolding reply_error
  reply_error-Untouched id code message s = reply-Untouched (d.protocol.error id code message) s

  abbrev refusal : Failure
  refusal = (codes "invalid_request", codes "request envelopes cannot contain correlation_id")

  dispatch-correlated :
      (request : Envelope) (id : Text) (s : Server S)
      → request.correlation_id ≡ some id
      → dispatch d stream request s ≡ (err refusal, s)
  unfolding dispatch
  dispatch-correlated request id s e = rw (e, dispatch) refl

  correlated :
      (request : Envelope) (id : Text) (s : Server S)
      → request.correlation_id ≡ some id
      → Untouched s (serve_request d stream request s)
  unfolding serve_request
  correlated request id s e =
      let refused = dispatch-correlated request id s e in
      rw (ap (λ r. r.0) refused, serve_request)
        (subst (λ t. Untouched s (reply_error d stream (some request.id) refusal.0 refusal.1 t))
          (sym (ap (λ r. r.1) refused))
          (reply_error-Untouched (some request.id) refusal.0 refusal.1 s))

  -- A client has no effect but for the reply that it is sent, unless its bytes are a frame that decodes, with a
  -- token that is compared and found equal to the daemon's, and a request without a correlation id.
  pub handle_client-IsAdmitted :
      (received : Option (List ℕ)) (s : Server S)
      → IsAdmitted received ⊎ Untouched s (handle_client d stream received s)
  unfolding handle_client serve_frame
  handle_client-IsAdmitted received s =
      elim (Result-cases
        (read_frame d.protocol.max_frame_bytes (d.sockets.can_clone stream) received)) [
          | inr (code, e) ↦ inr (rw (e, handle_client) (reply_error-Untouched none code code s))
          | inl (content, e) ↦ elim (Result-cases (d.protocol.decode content)) [
            | inr (x, f) ↦ inr (rw (e, f, handle_client) (reply_error-Untouched none _ x s))
            | inl (frame, f) ↦ elim (Bool-cases (secure_eq (bytes frame.token) (bytes d.token))) [
              | inr other ↦ inr (
                  rw (e, f, handle_client)
                    (rw (other, serve_frame) (reply_error-Untouched _ _ _ s)))
              | inl same ↦ elim (Option-cases frame.envelope.correlation_id) [
                | inl g ↦ inl (content, frame, e, f, same, g)
                | inr (id, g) ↦ inr (
                    rw (e, f, handle_client)
                      (rw (same, serve_frame) (correlated frame.envelope id s g)))
              ]
            ]
          ]
        ]
