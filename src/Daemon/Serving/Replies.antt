-- ===== src/Daemon/Serving/Replies.antt =====
-- The lines that a client is sent, and the calls of the store that it causes.
use kitt_assistant.Daemon.Serving.Kept.{IsModest, Keeps, answer_request-Keeps}
use kitt_assistant.Base.{
  refl, ◌≡◌, ◌⊎◌, inl, inr, ap, subst, ◌∙◌, not, Option, none, some, List, [], ◌++◌, ◌∙◌, ◌∷◌, ℕ,
  ◌≤◌, arith, Text, ltb, leb, Result, ok, err, ◌>>=◌, map_err, length, All, codes, bytes,
  Bool-cases, Option-cases, Result-cases, if-of_true, if-of_false,
}
use kitt_assistant.ControlCenter.Json.{Json}
use kitt_assistant.Daemon.Serving.{
  answer_done, reply, reply_error, reply_response, subscribe_client, dispatch_kind, dispatch,
  serve_request, serve_frame, handle_client,
}
use kitt_assistant.Daemon.Dispatch.{Daemon, Server, answer_request, ensure_empty_payload}
use kitt_assistant.Daemon.Protocol.{Kind, Envelope, AuthenticatedFrame, Answer}
use kitt_assistant.Daemon.Broadcaster.{
  HudBroadcaster, subscribe, greeting, last_written, max_hud_subscribers,
}
use kitt_assistant.Daemon.Access.{read_frame, secure_eq}
use kitt_assistant.Daemon.Runtime.{Failure}

module _ {R F E S : Type 0} (d : Daemon R F E S) where
  module _ (stream : S) where
    -- One line more was written to the client, of at most the largest size.
    abbrev Wrote : Server S → Server S → Type 0
    Wrote s s' =
        (line : Text) × (s' ≡ record s { written = line ∷ s.written })
        × (length (bytes line) ≤ d.protocol.max_frame_bytes)

    abbrev Sends : Server S → Result Text (Unit {0}) × Server S → Type 0
    Sends s (ok done, s') = Wrote s s'
    Sends s (err e, s') = s' ≡ s

    reply-Sends : (envelope : E) (s : Server S) → Sends s (reply d stream envelope s)
    unfolding reply
    reply-Sends envelope s =
        elim (Result-cases
          (d.protocol.validate envelope >>= λ valid. d.protocol.to_string envelope)) [
            | inr (x, e) ↦ rw (e, reply) refl
            | inl (line, e) ↦
                rw (e, reply)
                  (elim (Bool-cases (ltb d.protocol.max_frame_bytes (length (bytes line)))) [
                    | inl long ↦ if-of_true (Sends s) _ long refl
                    | inr short ↦
                        if-of_false (Sends s) _ short
                          (elim (Bool-cases (d.sockets.write_all stream line)) [
                            | inl written ↦
                                if-of_true (Sends s) _ written (line, refl, ground arith)
                            | inr lost ↦ if-of_false (Sends s) _ lost refl
                          ])
                  ])
          ]

    -- The lines of a subscription: its acknowledgement, and an event behind that.
    abbrev pub IsGreeting : List Text → Type 0
    IsGreeting lines =
        (lines ≡ [])
        ⊎ ((id ack : Text) × (d.protocol.subscribed id ≡ ok ack)
            × ((lines ≡ ack ∷ []) ⊎ ((event : Text) × (lines ≡ event ∷ ack ∷ []))))

    -- The lines are those that were written before, those of a subscription, and at most one more, of at
    -- most the largest size; and the store was asked for no more than it may be.
    abbrev Replied : Server S → Server S → Type 0
    Replied s s' =
        ((greeted : List Text) × IsGreeting greeted
          × ((s'.written ≡ greeted ++ s.written)
              ⊎ ((line : Text) × (s'.written ≡ line ∷ (greeted ++ s.written))
                  × (length (bytes line) ≤ d.protocol.max_frame_bytes))))
        × (All IsModest s.store_calls → All IsModest s'.store_calls)

    -- No reply has been written yet.
    abbrev Greeted : Server S → Server S → Type 0
    Greeted s s' =
        ((greeted : List Text) × IsGreeting greeted × (s'.written ≡ greeted ++ s.written))
        × (All IsModest s.store_calls → All IsModest s'.store_calls)

    Keeps-Greeted : (s s' : Server S) → Keeps s s' → Greeted s s'
    Keeps-Greeted s s' (same, modest) = (([], inl refl, same), modest)

    Sends-Replied :
        (s : Server S) (r : Result Text (Unit {0}) × Server S) → Sends s r → Replied s r.1
    Sends-Replied s (ok done, s') (line, e, short) =
        rw e (([], inl refl, inr (line, refl, short)), λ m. m)
    Sends-Replied s (err x, s') e = rw e (([], inl refl, inl refl), λ m. m)

    -- What a request does before a failure is reported.
    abbrev Done : Server S → Result Failure (Unit {0}) × Server S → Type 0
    Done s (ok done, s') = Replied s s'
    Done s (err e, s') = Greeted s s'

    -- A reply behind what has been done.
    reported :
        (id : Option Text) (code message : Text) (s t : Server S)
        → Greeted s t
        → Replied s (reply_error d stream id code message t)
    unfolding reply_error
    reported id code message s t ((greeted, g, e), modest) =
        let envelope = d.protocol.error id code message in
        sent_behind s t (reply d stream envelope t) greeted g e modest (reply-Sends envelope t)
      where
        sent_behind :
            (s t : Server S) (r : Result Text (Unit {0}) × Server S) (greeted : List Text)
            → IsGreeting greeted
            → t.written ≡ greeted ++ s.written
            → (All IsModest s.store_calls → All IsModest t.store_calls)
            → Sends t r
            → Replied s r.1
        sent_behind s t (ok done, u) greeted g e modest (line, f, short) =
            rw f ((greeted, g, inr (line, ap (λ lines. line ∷ lines) e, short)), modest)
        sent_behind s t (err x, u) greeted g e modest f = rw f ((greeted, g, inl e), modest)

    reply_error-Replied :
        (id : Option Text) (code message : Text) (s : Server S)
        → Replied s (reply_error d stream id code message s)
    reply_error-Replied id code message s =
        reported id code message s s (([], inl refl, refl), λ m. m)

    Keeps-Done :
        (s t : Server S) (r : Result Failure (Unit {0}) × Server S)
        → Keeps s t
        → Done t r
        → Done s r
    Keeps-Done s t (ok done, u) (same, modest) ((greeted, g, inl e), modest') =
        ((greeted, g, inl (e ∙ ap (λ lines. greeted ++ lines) same)), λ m. modest' (modest m))
    Keeps-Done s t (ok done, u) (same, modest) ((greeted, g, inr (line, e, short)), modest') = (
      (greeted, g, inr (line, e ∙ ap (λ lines. line ∷ (greeted ++ lines)) same, short)),
      λ m. modest' (modest m),
    )
    Keeps-Done s t (err e, u) (same, modest) ((greeted, g, f), modest') =
        ((greeted, g, f ∙ ap (λ lines. greeted ++ lines) same), λ m. modest' (modest m))

    written_Done :
        (s : Server S) (r : Result Text (Unit {0}) × Server S)
        → Sends s r
        → Done s (map_err (λ e. (codes "write_failed", e)) r.0, r.1)
    written_Done s (ok done, s') h = Sends-Replied s (ok done, s') h
    written_Done s (err x, s') e = rw e (([], inl refl, refl), λ m. m)

    greeting-IsGreeting :
        (hud : HudBroadcaster S) (id : Text)
        → IsGreeting (greeting d.sockets hud stream (d.protocol.subscribed id))
    unfolding greeting last_written
    greeting-IsGreeting hud id = elim (Result-cases (d.protocol.subscribed id)) [
      | inr (x, e) ↦ rw (e, greeting) (inl refl)
      | inl (ack, e) ↦ elim (Bool-cases (leb max_hud_subscribers (length hud.clients))) [
        | inl crowded ↦ rw (e, greeting) (rw crowded (inl refl))
        | inr room ↦ elim (Bool-cases (d.sockets.write_all stream ack)) [
          | inr lost ↦ rw (e, greeting) (rw (room, lost) (inl refl))
          | inl sent ↦ elim (Option-cases hud.last_event) [
            | inl none_yet ↦
                rw (e, greeting) (rw (room, sent, none_yet) (inr (id, ack, e, inl refl)))
            | inr (event, f) ↦ elim (Bool-cases (d.sockets.write_all stream event)) [
              | inl told ↦
                  rw (e, greeting)
                    (rw (room, sent, f) (rw told (inr (id, ack, e, inr (event, refl)))))
              | inr untold ↦
                  rw (e, greeting) (rw (room, sent, f) (rw untold (inr (id, ack, e, inl refl))))
            ]
          ]
        ]
      ]
    ]

    subscribed_Done :
        (s : Server S) (r : Result Text (Unit {0})) (hud : HudBroadcaster S) (lines : List Text)
        → IsGreeting lines
        → Done s (
          map_err (λ e. (codes "hud_subscriber_error", e)) r,
          record s { hud = hud; written = lines ++ s.written },
        )
    subscribed_Done s (ok done) hud lines g = ((lines, g, inl refl), λ m. m)
    subscribed_Done s (err x) hud lines g = ((lines, g, refl), λ m. m)

    reply_response-Done :
        (kind : Kind) (id : Text) (answer : Answer) (s : Server S)
        → Done s (reply_response d stream kind id answer s)
    unfolding reply_response
    reply_response-Done kind id answer s =
        elim (Result-cases (d.protocol.response kind id answer)) [
          | inr (x, e) ↦ rw (e, reply_response) (([], inl refl, refl), λ m. m)
          | inl (envelope, e) ↦
              rw (e, reply_response)
                (written_Done s (reply d stream envelope s) (reply-Sends envelope s))
        ]

    subscribe_client-Done :
        (id : Text) (payload : Json) (s : Server S)
        → Done s (subscribe_client d stream id payload s)
    unfolding subscribe_client
    subscribe_client-Done id payload s = elim (Result-cases (ensure_empty_payload payload)) [
      | inr (x, e) ↦ rw (e, subscribe_client) (([], inl refl, refl), λ m. m)
      | inl (u, e) ↦
          rw (e, subscribe_client)
            (elim (Bool-cases (d.sockets.can_clone stream)) [
              | inr shut ↦ if-of_false (Done s) _ shut (([], inl refl, refl), λ m. m)
              | inl open_stream ↦ if-of_true (Done s) _ open_stream (
                  subscribed_Done s (subscribe d.sockets s.hud stream (d.protocol.subscribed id)).0
                    (subscribe d.sockets s.hud stream (d.protocol.subscribed id)).1
                    (greeting d.sockets s.hud stream (d.protocol.subscribed id))
                    (greeting-IsGreeting s.hud id))
            ])
    ]

    answer_done-Done :
        (request : Envelope) (kind : Kind) (s : Server S)
        → Done s (answer_done d stream request kind s)
    unfolding answer_done
    answer_done-Done request kind s =
        let answered = answer_request d kind request.payload s in
        let kept = answer_request-Keeps d kind request.payload s in
        elim (Result-cases answered.0) [
          | inr (x, e) ↦ rw (e, answer_done) (Keeps-Greeted s answered.1 kept)
          | inl (answer, e) ↦
              rw (e, answer_done)
                (Keeps-Done s answered.1 (reply_response d stream kind request.id answer answered.1)
                  kept (reply_response-Done kind request.id answer answered.1))
        ]

    dispatch_kind-Done :
        (request : Envelope) (kind : Kind) (s : Server S)
        → Done s (dispatch_kind d stream request kind s)
    unfolding dispatch_kind
    dispatch_kind-Done request Kind.hud_subscribe_request s =
        subscribe_client-Done request.id request.payload s
    dispatch_kind-Done request Kind.system_ping_request s = answer_done-Done request _ s
    dispatch_kind-Done request Kind.assistant_ask_request s = answer_done-Done request _ s
    dispatch_kind-Done request Kind.assistant_ask_routed_request s = answer_done-Done request _ s
    dispatch_kind-Done request Kind.assistant_transcribe_request s = answer_done-Done request _ s
    dispatch_kind-Done request Kind.assistant_remember_request s = answer_done-Done request _ s
    dispatch_kind-Done request Kind.memory_remember_request s = answer_done-Done request _ s
    dispatch_kind-Done request Kind.memory_recall_request s = answer_done-Done request _ s
    dispatch_kind-Done request Kind.memory_forget_request s = answer_done-Done request _ s
    dispatch_kind-Done request Kind.hud_image_request s = answer_done-Done request _ s
    dispatch_kind-Done request (Kind.unknown kind) s = answer_done-Done request _ s

    dispatch-Done : (request : Envelope) (s : Server S) → Done s (dispatch d stream request s)
    unfolding dispatch dispatch_kind answer_done
    dispatch-Done request s = elim (Option-cases request.correlation_id) [
      | inl e ↦ rw (e, dispatch) (dispatch_kind-Done request request.kind s)
      | inr (id, e) ↦ rw (e, dispatch) (([], inl refl, refl), λ m. m)
    ]

    serve_request-Replied :
        (request : Envelope) (s : Server S) → Replied s (serve_request d stream request s)
    unfolding serve_request
    serve_request-Replied request s =
        let served = dispatch d stream request s in
        let done = dispatch-Done request s in
        elim (Result-cases served.0) [
          | inl (u, e) ↦ rw (e, serve_request) (subst (λ r. Done s (r, served.1)) e done)
          | inr ((code, message), e) ↦
              rw (e, serve_request)
                (reported (some request.id) code message s served.1
                  (subst (λ r. Done s (r, served.1)) e done))
        ]

    serve_frame-Replied :
        (frame : AuthenticatedFrame) (s : Server S) → Replied s (serve_frame d stream frame s)
    unfolding serve_frame
    serve_frame-Replied frame s =
        elim (Bool-cases (not (secure_eq (bytes frame.token) (bytes d.token)))) [
          | inl other ↦ if-of_true (Replied s) _ other (reply_error-Replied _ _ _ s)
          | inr same ↦ if-of_false (Replied s) _ same (serve_request-Replied frame.envelope s)
        ]

    handle_client-Replied :
        (received : Option (List ℕ)) (s : Server S) → Replied s (handle_client d stream received s)
    unfolding handle_client
    handle_client-Replied received s =
        elim (Result-cases
          (read_frame d.protocol.max_frame_bytes (d.sockets.can_clone stream) received)) [
            | inr (code, e) ↦ rw (e, handle_client) (reply_error-Replied none code code s)
            | inl (content, e) ↦ elim (Result-cases (d.protocol.decode content)) [
              | inr (x, f) ↦ rw (e, f, handle_client) (reply_error-Replied none _ x s)
              | inl (frame, f) ↦ rw (e, f, handle_client) (serve_frame-Replied frame s)
            ]
          ]

    -- The lines that were written before, those of a subscription, and at most one more, of at most the
    -- largest size; and no recall of the store for more than fifty memories.
    abbrev pub Answers : Server S → Server S → Type 0
    Answers s s' =
        ((greeted : List Text) × IsGreeting greeted
          × ((s'.written ≡ greeted ++ s.written)
              ⊎ ((line : Text) × (s'.written ≡ line ∷ (greeted ++ s.written))
                  × (length (bytes line) ≤ d.protocol.max_frame_bytes))))
        × All IsModest s'.store_calls

    -- Whatever a client sends, it is sent at most one line by way of reply, of at most the size of a frame, and
    -- before it at most the acknowledgement of a subscription and an event; and no recall of the store
    -- asks for more than fifty memories, if none did before.
    pub handle_client-Answers :
        (received : Option (List ℕ)) (s : Server S)
        → All IsModest s.store_calls
        → Answers s (handle_client d stream received s)
    handle_client-Answers received s modest =
        let (lines, kept) = handle_client-Replied received s in (lines, kept modest)
