-- ===== src/Providers/Tests.antt =====
-- A provider that answers, and the properties of the adapters applied to it.
use kitt_assistant.Providers.Listing.{cons_new, text_le, insert_sorted, sort, dedup}
use kitt_assistant.Base.{
  refl, ◌≡◌, true, false, Option, none, some, [], ◌∷◌, ℕ, String, ok, codes, text_eq, trim,
  to_ascii_lowercase, is_blank,
}
use kitt_assistant.ControlCenter.Json.{
  Json, string, array, object, no_items, item, no_fields, field, as_u64, get_field,
}
use kitt_assistant.Providers.{
  bounded_json, answered_json, Response, Http, AtMostOne, provider_client,
}
use kitt_assistant.Providers.Chat.{pointer, read_answer, OpenAiCompatibleModel, complete}
use kitt_assistant.Providers.Completions.{AnswersFrom, complete-AnswersFrom}
use kitt_assistant.Providers.Discovery.{
  pick_all, names_in, models_listed, discover_from, check_discovery_url,
  normalize_discovery_base_url, discover_models_from_url,
}
use kitt_assistant.Providers.Discoveries.{Discovers, discover_models_from_url-Discovers}
use kitt_assistant.Providers.Transcriber.{
  result_of, read_audio, code_of, OpenAiCompatibleTranscriber, Files, transcribe_rich,
  normalize_language,
}
use kitt_assistant.Providers.Uploads.{
  UploadsTo, IsCode, transcribe_rich-UploadsTo, normalize_language-IsCode,
}
use kitt_assistant.Domain.{ModelRequest}
use kitt_assistant.Url.{Url}

abbrev named : String → Json
named id = object (field (codes "id") (string (codes id)) no_fields)

-- A body that answers a question, a transcription and a listing.
abbrev page : Json
page = object (
    field (codes "text") (string (codes "good evening")) (
      field (codes "data") (array (item (named "b") (item (named "a") (item (named "b") no_items))))
        (field (codes "choices")
          (array (
            item
              (object (
                field (codes "message")
                  (object (field (codes "content") (string (codes "hello")) no_fields)) no_fields))
              no_items))
          no_fields)))

abbrev place : Url
place = record {
  scheme = codes "http";
  username = [];
  password = none;
  host_str = some (codes "localhost");
  port_or_known_default = some 11434;
  path = codes "/";
  query = none;
  fragment = none;
}

abbrev answer : Response
answer = record {
  is_success = true;
  status = "200 OK";
  content_length = some 2;
  content = ok (codes "{}");
  read_to_end = λ limit. ok (codes "{}");
}

abbrev http : Http
http = record {
  build = λ client. ok tt;
  send = λ h sent request. ok answer;
  from_slice = λ content. ok page;
  show_json = λ v. "{}";
  parse = λ url. ok place;
  display = λ url. codes "http://localhost:11434/";
}

abbrev assistant : OpenAiCompatibleModel
assistant = record {
  client = provider_client;
  base_url = codes "http://localhost:11434/v1";
  model = codes "llama";
  api_key = none;
  is_local = true;
}

abbrev greeting : ModelRequest
greeting = record { system = codes "Be brief."; user = codes "Hello" }

answer_read : (complete http assistant [] greeting).0 ≡ ok (record { text = codes "hello" })
unfolding complete is_blank read_answer answered_json bounded_json pointer get_field text_eq
answer_read = refl

complete-AnswersFrom_example :
    AnswersFrom http assistant [] greeting (complete http assistant [] greeting)
complete-AnswersFrom_example = complete-AnswersFrom http assistant [] greeting

models_found :
    (discover_models_from_url http [] (codes "http://localhost:11434") none).0
    ≡ ok (codes "a" ∷ codes "b" ∷ [])
unfolding discover_models_from_url normalize_discovery_base_url trim check_discovery_url text_eq
    discover_from models_listed names_in answered_json bounded_json get_field pick_all dedup sort
    insert_sorted text_le cons_new
models_found = refl

discover_models_from_url-Discovers_example :
    Discovers http []
      (codes "http://localhost:11434")
      none
      (discover_models_from_url http [] (codes "http://localhost:11434") none)
discover_models_from_url-Discovers_example =
    discover_models_from_url-Discovers http [] (codes "http://localhost:11434") none

abbrev whisper : OpenAiCompatibleTranscriber
whisper = record {
  client = provider_client;
  base_url = codes "https://api.example.com/v1";
  model = codes "whisper-1";
  api_key = some (codes "secret");
  is_local = false;
  allow_remote = true;
}

abbrev recording : Files
recording = record {
  metadata = λ h path. ok (record { is_file = true; len = 3 });
  read = λ h path. ok (codes "abc");
  file_name = λ path. some path;
}

abbrev whole : Json → Option ℕ
whole v = as_u64 v

transcript_read :
    (transcribe_rich whole (λ n. n) http recording whisper [] (codes "a.wav") none none).0
    ≡ ok (record {
      text = codes "good evening";
      language = none;
      language_probability = none;
      avg_logprob = none;
      duration_ms = 0;
    })
unfolding transcribe_rich read_audio answered_json bounded_json result_of get_field text_eq
transcript_read = refl

transcribe_rich-UploadsTo_example :
    AtMostOne
      (UploadsTo whole
        (λ n. n)
        http
        recording
        whisper
        []
        (codes "a.wav")
        (some (codes "pt-BR"))
        none)
      (transcribe_rich whole
        (λ n. n)
        http
        recording
        whisper
        []
        (codes "a.wav")
        (some (codes "pt-BR"))
        none)
transcribe_rich-UploadsTo_example =
    transcribe_rich-UploadsTo whole (λ n. n) http recording whisper [] (codes "a.wav")
      (some (codes "pt-BR")) none

brazilian : normalize_language (some (codes "pt-BR")) ≡ some (codes "pt")
unfolding normalize_language code_of to_ascii_lowercase
brazilian = refl

normalize_language-IsCode_example : IsCode (normalize_language (some (codes "pt-BR")))
normalize_language-IsCode_example = normalize_language-IsCode (some (codes "pt-BR"))
