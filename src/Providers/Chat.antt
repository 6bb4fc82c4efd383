-- ===== src/Providers/Chat.antt =====
-- `OpenAiCompatibleModel`: the model port over a provider's chat completions.
use kitt_assistant.Providers.{
  json_body, post_method, answered_json, Response, HttpRequest, build_client, HttpClient, Http,
}
use kitt_assistant.Base.{
  Bool, false, Option, none, some, List, [], ◌∷◌, ◌++◌, ℕ, zero, suc, String, Text, if◌then◌else◌,
  Result, ok, err, ◌>>=◌, ◌>>◌, refuse_if, ok_or, codes, is_blank,
}
use kitt_assistant.ControlCenter.Json.{
  Json, boolean, string, array, object, Items, no_items, item, no_fields, field, as_str, and_then,
  get_field,
}
use kitt_assistant.Domain.{AssistantError, History, ModelRequest, ModelAnswer, ModelPort}
use kitt_assistant.Url.{trim_end_matches}

pub record OpenAiCompatibleModel : Type 0 where
  pub client : HttpClient
  pub base_url : Text
  pub model : Text
  pub api_key : Option Text
  pub is_local : Bool

-- `Value::pointer`: a token is a key of an object or, where it is a number, an index of an array.
unfoldable pub nth_item : ℕ → Items → Option Json
nth_item n no_items = none
nth_item zero (item v vs) = some v
nth_item (suc n) (item v vs) = nth_item n vs

abbrev pub step_into : Text × Option ℕ → Json → Option Json
step_into (key, index) (object fields) = get_field key fields
step_into (key, some n) (array items) = nth_item n items
step_into (key, none) (array items) = none
step_into (key, index) _ = none

unfoldable pub pointer : List (Text × Option ℕ) → Json → Option Json
unfolding nth_item
pointer [] v = some v
pointer (token ∷ tokens) v = and_then (step_into token v) (pointer tokens)

-- `/choices/0/message/content`
abbrev pub answer_path : List (Text × Option ℕ)
answer_path =
    (codes "choices", none)
    ∷ (codes "0", some 0)
    ∷ (codes "message", none)
    ∷ (codes "content", none)
    ∷ []

abbrev message : Text → Text → Json
message role content =
    object (field (codes "role") (string role) (field (codes "content") (string content) no_fields))

module _ (http : Http) where
  -- `OpenAiCompatibleModel::new`
  unfoldable pub new_model :
      Text → Text → Option Text → Bool → Result AssistantError OpenAiCompatibleModel
  new_model base_url model api_key is_local = do
    refuse_if (is_blank base_url)
        (AssistantError.configuration "model provider base_url is required")
    client ← build_client http
    ok (record {
      client = client;
      base_url = trim_end_matches b'/' base_url;
      model = model;
      api_key = api_key;
      is_local = is_local;
    })

  module _ (m : OpenAiCompatibleModel) where
    unfoldable pub completion_request : ModelRequest → HttpRequest
    completion_request request = record {
      client = m.client;
      method = post_method;
      url = m.base_url ++ codes "/chat/completions";
      bearer = m.api_key;
      body = json_body (
          object (
            field (codes "model") (string m.model) (
              field (codes "messages")
                (array (
                  item (message (codes "system") request.system)
                    (item (message (codes "user") request.user) no_items)))
                (field (codes "stream") (boolean false) no_fields))));
    }

    -- What `complete` makes of the answer to its request.
    unfoldable pub read_answer : Result String Response → Result AssistantError ModelAnswer
    read_answer sent = do
      body ← answered_json http AssistantError.model sent
      text ←
          ok_or (and_then (pointer answer_path body) as_str)
            (AssistantError.model "missing choices[0].message.content")
      ok (record { text = text })

    -- `complete`, with the requests that it makes.
    unfoldable pub complete :
        History → ModelRequest → Result AssistantError ModelAnswer × List HttpRequest
    complete h request =
        if is_blank m.model
        then (
          err (
              AssistantError.configuration
                "no model is configured for this provider; select one in KITT Control Center or set the provider model explicitly"),
          [],
        )
        else (
          read_answer (http.send h [] (completion_request request)),
          completion_request request ∷ [],
        )

    -- `impl ModelPort for OpenAiCompatibleModel`
    abbrev pub model_port : ModelPort
    model_port = record { complete = λ h request. (complete h request).0; is_local = m.is_local }
