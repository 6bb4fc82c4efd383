-- ===== src/Kittctl/Answers.antt =====
-- Where what the client prints comes from.
use kitt_assistant.Base.{
  refuse_if-not-eq-ok, ◌≡◌, ap, true, not, Option, none, some, Text, ok, refuse_if, codes,
  text_eq_iff, trim, >>=-eq-ok,
}
use kitt_assistant.ControlCenter.Json.{Json}
use kitt_assistant.Kittctl.{
  Library, Request, Response, ResponseKind, system_error, Printed, call, print_response, is_text_of,
  run,
}

abbrev pub IsError : ResponseKind → Type 0
IsError system_error = Unit
IsError _ = ⊥

module _ {E : Type 0} (lib : Library E) where
  abbrev pub IsAnswered : Text → Request → Printed → Type 0
  IsAnswered token request printed =
      (id : Text) × (envelope : E) × (response : Response) × (lib.new request ≡ ok (id, envelope))
      × (call lib (trim token) envelope ≡ ok response)
      × (response.correlation_id ≡ some id)
      × (¬ IsError response.kind)
      × (print_response lib response.kind response.payload ≡ ok printed)

  printed_kind :
      (kind : ResponseKind) (payload : Json) (printed : Printed)
      → print_response lib kind payload ≡ ok printed
      → ¬ IsError kind
  unfolding print_response
  printed_kind system_error payload printed e = cc
  printed_kind ResponseKind.ask_response payload printed e = λ h. h
  printed_kind ResponseKind.ask_routed_response payload printed e = λ h. h
  printed_kind ResponseKind.transcribe_response payload printed e = λ h. h
  printed_kind ResponseKind.ping_response payload printed e = λ h. h
  printed_kind ResponseKind.other payload printed e = λ h. h

  is_text_of-some : (id : Text) (o : Option Text) → is_text_of lib id o ≡ true → o ≡ some id
  is_text_of-some id none h = cc
  is_text_of-some id (some t) h = ap some ((text_eq_iff t id).0 h)

  -- The client prints only what it was answered: by a response to the call with the trimmed token, with the
  -- id of the request that it sent as its correlation id, and of another kind than an error.
  pub run-IsAnswered :
      (token : Text) (request : Request) (printed : Printed)
      → run lib token request ≡ ok printed
      → IsAnswered token request printed
  unfolding run
  run-IsAnswered token request printed h =
      let ((id, envelope), created, h1) = >>=-eq-ok (lib.new request) _ h in
      let (response, called, h2) = >>=-eq-ok (call lib (trim token) envelope) _ h1 in
      let (u, checked, h3) =
        >>=-eq-ok
          (refuse_if (not (is_text_of lib id response.correlation_id))
            (codes "response correlation_id does not match request"))
          _ h2 in
      (
        id,
        envelope,
        response,
        created,
        called,
        is_text_of-some id response.correlation_id (
            refuse_if-not-eq-ok (is_text_of lib id response.correlation_id)
              (codes "response correlation_id does not match request") checked),
        printed_kind response.kind response.payload printed h3,
        h3,
      )
