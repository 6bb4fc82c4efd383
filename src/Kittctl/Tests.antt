-- ===== src/Kittctl/Tests.antt =====
-- A question that is answered.
use kitt_assistant.Base.{refl, ◌≡◌, true, some, [], ◌∷◌, Text, ok, err, codes, bytes, text_eq, join}
use kitt_assistant.ControlCenter.Json.{string, object, no_fields, field, get_field}
use kitt_assistant.Kittctl.{
  print_text, print_response, with_arguments, call, read_response, Library, Request, Response,
  ResponseKind, Printed, parse, run, send,
}
use kitt_assistant.Kittctl.Answers.{IsAnswered, run-IsAnswered}
use kitt_assistant.Kittctl.Framing.{line_of}
use kitt_assistant.Daemon.Access.{read_frame}

abbrev answer : Response
answer = record {
  correlation_id = some (codes "1");
  kind = ResponseKind.ask_response;
  payload = object (field (codes "text") (string (codes "Bom dia.")) no_fields);
}

abbrev lib : Library Text
lib = record {
  max_frame_bytes = 4;
  new = λ request. ok (codes "1", codes "ask");
  frame = λ token envelope. ok envelope;
  decode = λ content. ok answer;
  as_status = λ v. ok (codes "ok");
  show_json = λ v. codes "{}";
  exchange = λ sent. ok sent;
}

abbrev good_morning : Printed
good_morning = record { out = codes "Bom dia."; notes = [] }

asked_for :
    parse (codes "kittctl" ∷ codes "ask" ∷ codes "que" ∷ codes "horas" ∷ [])
    ≡ send (Request.ask (record { text = codes "que horas"; show_hud = true }))
unfolding parse text_eq with_arguments join
asked_for = refl

printed : run lib (codes "token\n") Request.ping ≡ ok good_morning
unfolding run call bytes read_response text_eq print_response print_text get_field
printed = refl

run-IsAnswered_example : IsAnswered lib (codes "token\n") Request.ping good_morning
run-IsAnswered_example = run-IsAnswered lib (codes "token\n") Request.ping good_morning printed

-- Four bytes are as many as a frame may have, and one too many with the newline.
largest_refused :
    read_frame 4 true (some (line_of (codes "full"))) ≡ err (codes "request_too_large")
unfolding read_frame
largest_refused = refl
