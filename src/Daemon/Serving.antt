-- ===== src/Daemon/Serving.antt =====
-- `handle_client`, with `dispatch` and the replies: from the bytes that a client sends to the lines that it
-- is sent.
pub mod Kept
mod Tests
pub mod Replies
pub mod Guards
use kitt_assistant.Base.{
  refl, ◌≡◌, ◌≢◌, ◌↔◌, ◌⊎◌, inl, inr, sym, ap, subst, ◌∙◌, Bool, true, false, not, ◌&&◌, ◌||◌,
  Option, none, some, List, [], ◌∷◌, ◌++◌, map, reverse, ℕ, zero, suc, ◌+◌, ◌-◌, ◌*◌, ◌/◌, ◌%◌, ◌^◌,
  ◌≤◌, ◌<◌, min, max, arith, String, Text, ltb, leb, ◌==◌, if◌then◌else◌, Result, ok, err, ◌>>=◌,
  ◌>>◌, refuse_if, ok_or, map_err, length, take, drop, all, any, All, codes, bytes, text_eq,
  text_eq_iff, is_empty, starts_with, Bool-cases, Option-cases, Result-cases, if-of_true,
  if-of_false, and-true, decimal, trim, to_ascii_lowercase, is_blank, join, ok_or-eq-ok, retain,
  strip_prefix, texts_eq, >>=-eq-ok,
}
use kitt_assistant.ControlCenter.Json.{
  Json, null, boolean, unsigned, negative, double, string, array, object, Items, no_items, item,
  Fields, no_fields, field, as_bool, as_u64, as_str, as_array, as_object, is_some, and_then,
  unwrap_or, get_field, insert, get, any_item, all_items, find, is_text, Doubles, as_f64,
}
use kitt_assistant.Daemon.Dispatch.{Daemon, Server, answer_request, ensure_empty_payload}
use kitt_assistant.Daemon.Protocol.{Kind, Envelope, AuthenticatedFrame, Answer, Protocol}
use kitt_assistant.Daemon.Broadcaster.{Sockets, subscribe, greeting}
use kitt_assistant.Daemon.Access.{read_frame, secure_eq}
use kitt_assistant.Daemon.Runtime.{Failure}

module _ {R F E S : Type 0} (d : Daemon R F E S) (stream : S) where
  open d use {protocol, sockets}

  -- `reply`
  unfoldable pub reply : E → Server S → Result Text (Unit {0}) × Server S
  reply envelope s = elim (protocol.validate envelope >>= λ valid. protocol.to_string envelope) [
    | err e ↦ (err e, s)
    | ok line ↦
        if ltb protocol.max_frame_bytes (length (bytes line))
        then (err (codes "response_too_large"), s)
        else if sockets.write_all stream line
        then (ok tt, record s { written = line ∷ s.written })
        else (err (codes "write failed"), s)
  ]

  -- `reply_error`, whose own failure is dropped.
  unfoldable pub reply_error : Option Text → Text → Text → Server S → Server S
  reply_error id code message s = (reply (protocol.error id code message) s).1

  unfoldable pub reply_response :
      Kind → Text → Answer → Server S → Result Failure (Unit {0}) × Server S
  reply_response kind id answer s = elim (protocol.response kind id answer) [
    | err e ↦ (err (codes "serialization_error", e), s)
    | ok envelope ↦
        let (written, s') = reply envelope s in
        (map_err (λ e. (codes "write_failed", e)) written, s')
  ]

  -- The arm of a subscription; its lines are not held to the size of a frame.
  unfoldable pub subscribe_client : Text → Json → Server S → Result Failure (Unit {0}) × Server S
  subscribe_client id payload s = elim (ensure_empty_payload payload) [
    | err e ↦ (err e, s)
    | ok _ ↦
        if sockets.can_clone stream
        then (let (subscribed, hud) = subscribe sockets s.hud stream (protocol.subscribed id) in
            (
              map_err (λ e. (codes "hud_subscriber_error", e)) subscribed,
              record s {
                hud = hud;
                written = greeting sockets s.hud stream (protocol.subscribed id) ++ s.written;
              },
            ))
        else (err (codes "stream_clone_failed", []), s)
  ]

  -- An arm of `dispatch` that answers.
  unfoldable pub answer_done : Envelope → Kind → Server S → Result Failure (Unit {0}) × Server S
  answer_done request kind s =
      let (answered, s') = answer_request d kind request.payload s in
      elim answered [ err e ↦ (err e, s') | ok answer ↦ reply_response kind request.id answer s' ]

  -- The arms of `dispatch`.
  unfoldable pub dispatch_kind : Envelope → Kind → Server S → Result Failure (Unit {0}) × Server S
  dispatch_kind request Kind.hud_subscribe_request s = subscribe_client request.id request.payload s
  dispatch_kind request kind s = answer_done request kind s

  abbrev is_given : Option Text → Bool
  is_given none = false
  is_given (some t) = true

  unfoldable pub dispatch : Envelope → Server S → Result Failure (Unit {0}) × Server S
  dispatch request s =
      if is_given request.correlation_id
      then (
        err (codes "invalid_request", codes "request envelopes cannot contain correlation_id"),
        s,
      )
      else dispatch_kind request request.kind s

  -- `handle_client` after the check of the token.
  unfoldable pub serve_request : Envelope → Server S → Server S
  serve_request request s =
      let (done, s') = dispatch request s in
      elim done [ ok _ ↦ s' | err (code, message) ↦ reply_error (some request.id) code message s' ]

  -- `handle_client` after the decoding of the frame.
  unfoldable pub serve_frame : AuthenticatedFrame → Server S → Server S
  serve_frame frame s =
      if not (secure_eq (bytes frame.token) (bytes d.token))
      then reply_error (some frame.envelope.id) (codes "unauthorized")
          (codes "invalid authentication token") s
      else serve_request frame.envelope s

  -- `handle_client` on what its reader gives.
  unfoldable pub handle_client : Option (List ℕ) → Server S → Server S
  unfolding read_frame
  handle_client received s =
      elim (read_frame protocol.max_frame_bytes (sockets.can_clone stream) received) [
        | err code ↦ reply_error none code code s
        | ok content ↦ elim (protocol.decode content) [
          | err e ↦ reply_error none (codes "invalid_frame") e s
          | ok frame ↦ serve_frame frame s
        ]
      ]
