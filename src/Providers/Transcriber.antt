-- ===== src/Providers/Transcriber.antt =====
-- `OpenAiCompatibleTranscriber`: the transcription port over a provider. The file system answers as
-- `Files` says, at the same moment as the provider.
use mathlib.Core.Option
use kitt_assistant.Base.{
  is_ascii_alphabetic, split_by, Bool, not, ◌&&◌, ◌||◌, Option, none, some, List, [], ◌∷◌, ◌++◌,
  map, ℕ, ◌*◌, String, Text, ltb, leb, ◌==◌, if◌then◌else◌, Result, ok, err, ◌>>=◌, ◌>>◌, refuse_if,
  map_err, length, take, all, codes, bytes, is_empty, trim, to_ascii_lowercase, is_blank,
}
use kitt_assistant.ControlCenter.Json.{Json, as_u64, as_str, and_then, unwrap_or, get}
use kitt_assistant.Providers.{
  ◌<>◌, HttpClient, HttpRequest, Http, Part, text_part, file_part, multipart, post_method,
  answered_json, build_client,
}
use kitt_assistant.Domain.{AssistantError, History, TranscriptionResult, TranscriptionPort}
use kitt_assistant.Url.{trim_end_matches}

pub record OpenAiCompatibleTranscriber : Type 0 where
  pub client : HttpClient
  pub base_url : Text
  pub model : Text
  pub api_key : Option Text
  pub is_local : Bool
  pub allow_remote : Bool

pub record Metadata : Type 0 where
  pub is_file : Bool
  pub len : ℕ

-- `file_name` is the last part of a path, where it is a valid text.
pub record Files : Type 0 where
  pub metadata : History → Text → Result String Metadata
  pub read : History → Text → Result String (List ℕ)
  pub file_name : Text → Option Text

-- `MAX_AUDIO_BYTES`
abbrev pub max_audio_bytes : ℕ
max_audio_bytes = 25 * 1024 * 1024

abbrev first_of : List Text → Text
first_of [] = []
first_of (t ∷ ts) = t

-- A primary language as a code, in small letters.
unfoldable pub code_of : Text → Option Text
unfolding bytes is_ascii_alphabetic
code_of primary =
    let code = map to_ascii_lowercase primary in
    if leb 2 (length (bytes code)) && leb (length (bytes code)) 3 && all is_ascii_alphabetic code
    then some code
    else none

unfoldable pub normalize_language : Option Text → Option Text
unfolding trim split_by
normalize_language none = none
normalize_language (some locale) =
    let raw = trim locale in
    if is_empty raw
    then none
    else code_of (trim (first_of (split_by (λ c. c == b'-' || c == b'_') raw)))

-- `OpenAiCompatibleTranscriber::new`
unfoldable pub new_transcriber :
    Http
    → Text
    → Text
    → Option Text
    → Bool
    → Bool
    → Result AssistantError OpenAiCompatibleTranscriber
new_transcriber http base_url model api_key is_local allow_remote = do
  refuse_if (is_blank base_url) (AssistantError.configuration "transcription base_url is required")
  refuse_if (not is_local && is_blank model)
      (AssistantError.configuration "remote transcription requires an explicit model")
  client ← build_client http
  ok (record {
    client = client;
    base_url = trim_end_matches b'/' base_url;
    model = model;
    api_key = api_key;
    is_local = is_local;
    allow_remote = allow_remote;
  })

abbrev text_part_if : Bool → Text → Text → List Part
text_part_if b name value = if b then text_part name value ∷ [] else []

abbrev optional_part : Text → Option Text → List Part
optional_part name none = []
optional_part name (some value) = text_part name value ∷ []

abbrev prompt_part : Option Text → List Part
prompt_part none = []
prompt_part (some prompt) =
    text_part_if (not (is_empty (trim prompt))) (codes "prompt") (take 512 (trim prompt))

module _ {F D : Type 0} (as_f64 : Json → Option D) (as_f32 : D → F) where
  abbrev number_at : Text → Json → Option F
  number_at key body = Option.map as_f32 (and_then (get key body) as_f64)

  unfoldable pub result_of : Json → TranscriptionResult F
  result_of body = record {
    text = unwrap_or [] (and_then (get (codes "text") body) as_str);
    language = and_then (get (codes "language") body) as_str;
    language_probability = number_at (codes "language_probability") body;
    avg_logprob = number_at (codes "avg_logprob") body;
    duration_ms = unwrap_or 0 (and_then (get (codes "duration_ms") body) as_u64);
  }

  module _ (http : Http) (files : Files) (t : OpenAiCompatibleTranscriber) where
    -- The audio that is to be sent, or why none is.
    unfoldable pub read_audio : History → Text → Result AssistantError (List ℕ)
    read_audio h path = do
      refuse_if (not t.is_local && not t.allow_remote) (
          AssistantError.transcription
            "remote voice transcription is disabled; set speech_to_text.allow_remote=true explicitly")
      metadata ← map_err (λ e. AssistantError.io ("audio metadata: " <> e)) (files.metadata h path)
      refuse_if (not metadata.is_file) (AssistantError.transcription "audio path is not a file")
      refuse_if (ltb max_audio_bytes metadata.len)
          (AssistantError.transcription "audio exceeds 25 MiB limit")
      map_err (λ e. AssistantError.io ("audio read: " <> e)) (files.read h path)

    unfoldable pub upload : Text → Option Text → Option Text → List ℕ → HttpRequest
    upload path locale prompt audio = record {
      client = t.client;
      method = post_method;
      url = t.base_url ++ codes "/audio/transcriptions";
      bearer = t.api_key;
      body = multipart (
          file_part (codes "file") (unwrap_or (codes "audio.bin") (files.file_name path)) audio
          ∷ (text_part_if (not (is_blank t.model)) (codes "model") t.model
              ++ optional_part (codes "language") (normalize_language locale)
              ++ prompt_part prompt));
    }

    -- `transcribe_rich`, with the requests that it makes.
    unfoldable pub transcribe_rich :
        History
        → Text
        → Option Text
        → Option Text
        → Result AssistantError (TranscriptionResult F) × List HttpRequest
    transcribe_rich h path locale prompt = elim (read_audio h path) [
      | err e ↦ (err e, [])
      | ok audio ↦
          let request = upload path locale prompt audio in
          (
            answered_json http AssistantError.transcription (http.send h [] request) >>= λ body.
                ok (result_of body),
            request ∷ [],
          )
    ]

    -- `impl TranscriptionPort for OpenAiCompatibleTranscriber`
    abbrev pub transcription_port : TranscriptionPort F
    transcription_port = record {
      transcribe_rich = λ h path locale prompt. (transcribe_rich h path locale prompt).0;
      is_local = t.is_local;
    }
