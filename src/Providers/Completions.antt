-- ===== src/Providers/Completions.antt =====
-- What `OpenAiCompatibleModel` answers, and from which request.
use kitt_assistant.Base.{
  err, List, ◌↔◌, ◌⊎◌, ◌∷◌, true, refl, ◌≡◌, inl, inr, ap, ◌∙◌, false, Option, none, some, [],
  arith, String, Text, Result, ok, ok_or, Bool-cases, if-of_true, if-of_false, is_blank,
  ok_or-eq-ok, >>=-eq-ok,
}
use kitt_assistant.ControlCenter.Json.{Json, string, as_str, and_then}
use kitt_assistant.Providers.{
  HttpRequest, Response, Http, IsBody, answered_json, answered_json-IsBody, IsBody-answered_json,
}
use kitt_assistant.Providers.Chat.{
  OpenAiCompatibleModel, complete, read_answer, completion_request, pointer, answer_path,
}
use kitt_assistant.Domain.{AssistantError, History, ModelRequest, ModelAnswer}

module _ (http : Http) (m : OpenAiCompatibleModel) where
  -- Without a model nobody is asked; else the answer is the text that a body holds where the model's answer
  -- stands, and there is one exactly if there is such a body.
  abbrev pub AnswersFrom :
      History → ModelRequest → Result AssistantError ModelAnswer × List HttpRequest → Type 0
  AnswersFrom h request (result, requests) =
      ((is_blank m.model ≡ true) × (requests ≡ []) × (e : AssistantError) × (result ≡ err e))
      ⊎ ((is_blank m.model ≡ false)
          × (requests ≡ completion_request http m request ∷ [])
          × ((answer : ModelAnswer)
              → (result ≡ ok answer) ↔ (
                  (body : Json) × IsBody http (http.send h [] (completion_request http m request))
                    body
                  × (pointer answer_path body ≡ some (string answer.text)))))

  as_str-eq-some : (o : Option Json) (t : Text) → and_then o as_str ≡ some t → o ≡ some (string t)
  as_str-eq-some none t h = cc
  as_str-eq-some (some (string s)) t h = ground arith
  as_str-eq-some (some v) t h = ground arith

  read_answer-eq-ok :
      (sent : Result String Response) (answer : ModelAnswer)
      → read_answer http m sent ≡ ok answer
      → (body : Json) × IsBody http sent body
        × (pointer answer_path body ≡ some (string answer.text))
  unfolding read_answer
  read_answer-eq-ok sent answer h =
      let (body, e, h1) = >>=-eq-ok (answered_json http AssistantError.model sent) _ h in
      let (text, e1, h2) =
        >>=-eq-ok
          (ok_or (and_then (pointer answer_path body) as_str)
            (AssistantError.model "missing choices[0].message.content"))
          _ h1 in
      let found = as_str-eq-some _ text (ok_or-eq-ok _ _ e1) in
      (
        body,
        answered_json-IsBody http AssistantError.model sent body e,
        found ∙ ap (λ t. some (string t)) (ground arith),
      )

  answer_read_back :
      (sent : Result String Response) (answer : ModelAnswer)
      → ((body : Json) × IsBody http sent body
          × (pointer answer_path body ≡ some (string answer.text)))
      → read_answer http m sent ≡ ok answer
  unfolding read_answer
  answer_read_back sent answer (body, is_body, found) =
      rw (IsBody-answered_json http AssistantError.model sent body is_body, found) refl

  -- A completion without a model fails and asks nobody. Any other makes the one request for it, and answers
  -- with a text exactly if that is the text at its place in the body of a successful response of at
  -- most 8 MiB.
  pub complete-AnswersFrom :
      (h : History) (request : ModelRequest) → AnswersFrom h request (complete http m h request)
  unfolding complete
  complete-AnswersFrom h request =
      let sent = completion_request http m request in
      elim (Bool-cases (is_blank m.model)) [
        | inl blank ↦ if-of_true (AnswersFrom h request) _ blank (inl (blank, refl, _, refl))
        | inr named ↦ if-of_false (AnswersFrom h request) _ named (
            inr (
              named,
              refl,
              λ answer. (
                read_answer-eq-ok (http.send h [] sent) answer,
                λ found. answer_read_back (http.send h [] sent) answer found,
              ),
            ))
      ]
