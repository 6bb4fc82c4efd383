-- ===== src/Kittctl.antt =====
-- apps/kittctl/src/main.rs: the command line client. A command line becomes a request, which is sent to the
-- daemon in a frame; what is printed comes from the daemon's answer. The protocol library and
-- the socket are parameters; `fatal` ends the client with a message.
pub mod Framing
pub mod Answers
mod Tests
use kitt_assistant.Base.{
  refl, ◌≡◌, ◌≢◌, ◌↔◌, ◌⊎◌, inl, inr, sym, ap, subst, ◌∙◌, Bool, true, false, not, ◌&&◌, ◌||◌,
  Option, none, some, List, [], ◌∷◌, ◌++◌, map, reverse, ℕ, zero, suc, ◌+◌, ◌-◌, ◌*◌, ◌/◌, ◌%◌, ◌^◌,
  ◌≤◌, ◌<◌, min, max, arith, String, Text, ltb, leb, ◌==◌, if◌then◌else◌, Result, ok, err, ◌>>=◌,
  ◌>>◌, refuse_if, ok_or, map_err, length, take, drop, all, any, All, codes, bytes, text_eq,
  text_eq_iff, is_empty, starts_with, Bool-cases, Option-cases, Result-cases, if-of_true,
  if-of_false, and-true, decimal, trim, to_ascii_lowercase, is_blank, join, ok_or-eq-ok, retain,
  strip_prefix, texts_eq, >>=-eq-ok,
}
use kitt_assistant.ControlCenter.Json.{
  Json, null, boolean, unsigned, negative, double, string, array, object, Items, no_items, item,
  Fields, no_fields, field, as_bool, as_u64, as_str, as_array, as_object, is_some, and_then,
  unwrap_or, get_field, insert, get, any_item, all_items, find, is_text, Doubles, as_f64,
}
use kitt_assistant.Daemon.Access.{pop_line_ends}
use kitt_assistant.Daemon.Protocol.{
  AskRequest, RoutedAskRequest, TranscribeRequest, HudImageRequest,
}
use kitt_assistant.Daemon.Requests.{ModelRoute}

pub data Request : Type 0 where
  ask : AskRequest → Request
  ask_routed : RoutedAskRequest → Request
  transcribe : TranscribeRequest → Request
  remember : Text → Request
  image : HudImageRequest → Request
  ping : Request

pub data Command : Type 0 where
  usage : Command
  service : List Text → Command
  send : Request → Command

-- `args.get(3)`, after the first argument of a command.
abbrev head_of : List Text → Option Text
head_of [] = none
head_of (t ∷ ts) = some t

-- `routed_ask`
unfoldable pub routed_ask : List Text → ModelRoute → Request
routed_ask words route =
    Request.ask_routed (record { text = join (codes " ") words; route = route; show_hud = true })

-- The arms for a command that has arguments.
unfoldable pub with_arguments : Text → Text → List Text → Command
unfolding routed_ask
with_arguments name first rest =
    if text_eq name (codes "ask")
    then send (Request.ask (record { text = join (codes " ") (first ∷ rest); show_hud = true }))
    else if text_eq name (codes "ask-fast")
    then send (routed_ask (first ∷ rest) ModelRoute.fast)
    else if text_eq name (codes "ask-heavy")
    then send (routed_ask (first ∷ rest) ModelRoute.heavy)
    else if text_eq name (codes "transcribe")
    then send (Request.transcribe (record { path = first; locale = head_of rest; show_hud = true }))
    else if text_eq name (codes "remember")
    then send (Request.remember (join (codes " ") (first ∷ rest)))
    else if text_eq name (codes "image")
    then send (Request.image (record { src = first; alt = head_of rest }))
    else if text_eq name (codes "ping")
    then send Request.ping
    else usage

-- The start of `main`, up to the request; the first argument is the program.
unfoldable pub parse : List Text → Command
parse [] = usage
parse (program ∷ []) = usage
parse (program ∷ name ∷ args) = if text_eq name (codes "service") then service args else elim args [
  | [] ↦ if text_eq name (codes "ping") then send Request.ping else usage
  | first ∷ rest ↦ with_arguments name first rest
]

-- The kinds of response that the client tells apart.
pub data ResponseKind : Type 0 where
  ask_response ask_routed_response transcribe_response ping_response system_error : ResponseKind
  other : ResponseKind

pub record Response : Type 0 where
  pub correlation_id : Option Text
  pub kind : ResponseKind
  pub payload : Json

-- `new` gives an envelope's id with the envelope, `frame` the text of its authenticated frame. `exchange`
-- is what the reader of a socket gives, up to the first newline, after the bytes were written.
pub record Library (E : Type 0) : Type 0 where
  pub max_frame_bytes : ℕ
  pub new : Request → Result Text (Text × E)
  pub frame : Text → E → Result Text Text
  pub decode : List ℕ → Result Text Response
  pub as_status : Json → Result Text Text
  pub show_json : Json → Text
  pub exchange : List ℕ → Result Text (List ℕ)

-- What the client writes to its output, and to its error stream.
pub record Printed : Type 0 where
  pub out : Text
  pub notes : List Text

abbrev pub ends_with_newline : List ℕ → Bool
ends_with_newline received = elim (reverse received) [ [] ↦ false | b ∷ rest ↦ b == b'\n' ]

module _ {E : Type 0} (lib : Library E) where
  -- `call` after the exchange.
  unfoldable pub read_response : List ℕ → Result Text (List ℕ)
  unfolding pop_line_ends
  read_response received = do
    refuse_if (ltb lib.max_frame_bytes (length received)) (codes "response too large")
    refuse_if (not (ends_with_newline received)) (codes "response frame is not newline terminated")
    ok (reverse (pop_line_ends (reverse received)))

  unfoldable pub call : Text → E → Result Text Response
  call token request = do
    line ← lib.frame token request
    refuse_if (ltb lib.max_frame_bytes (length (bytes line)))
        (codes "request exceeds protocol frame limit")
    received ← lib.exchange (bytes line ++ (b'\n' ∷ []))
    content ← read_response received
    lib.decode content

  abbrev routed_note : Json → List Text
  routed_note payload = elim (and_then (get (codes "tier") payload) as_str) [
    | none ↦ []
    | some tier ↦ (codes "[route:" ++ tier ++ codes "]") ∷ []
  ]

  -- The text of an answer, with the tier of a routed one.
  unfoldable pub print_text : Bool → Json → Result Text Printed
  print_text is_routed payload = elim (and_then (get (codes "text") payload) as_str) [
    | none ↦ err (codes "assistant response missing text")
    | some text ↦
        ok (record { out = text; notes = (if is_routed then routed_note payload else []) })
  ]

  -- The `match` on the kind of a response.
  unfoldable pub print_response : ResponseKind → Json → Result Text Printed
  print_response ask_response payload = print_text false payload
  print_response ask_routed_response payload = print_text true payload
  print_response transcribe_response payload = print_text false payload
  print_response ping_response payload =
      lib.as_status payload >>= λ status. ok (record { out = status; notes = [] })
  print_response system_error payload = err (lib.show_json payload)
  print_response other payload = ok (record { out = lib.show_json payload; notes = [] })

  abbrev is_text_of : Text → Option Text → Bool
  is_text_of id none = false
  is_text_of id (some t) = text_eq t id

  -- `main` from the request on.
  unfoldable pub run : Text → Request → Result Text Printed
  run token request = do
    created ← lib.new request
    response ← call (trim token) created.1
    refuse_if (not (is_text_of created.0 response.correlation_id))
        (codes "response correlation_id does not match request")
    print_response response.kind response.payload
