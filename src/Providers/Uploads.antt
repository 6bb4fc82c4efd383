-- ===== src/Providers/Uploads.antt =====
-- What `OpenAiCompatibleTranscriber` sends and answers.
use kitt_assistant.Base.{
  utf8, is_ascii_alphabetic, refl, ◌≡◌, inl, inr, true, ◌&&◌, ◌||◌, Option, none, some, List, [],
  ◌∷◌, map, ℕ, ◌≤◌, arith, String, Text, leb, Result, ok, ◌>>=◌, length, all, bytes, is_empty,
  Bool-cases, Result-cases, if-of_true, if-of_false, trim, to_ascii_lowercase, >>=-eq-ok,
}
use kitt_assistant.ControlCenter.Json.{Json}
use kitt_assistant.Providers.{
  Says-of_ok, Says, AtMostOne, HttpRequest, Response, Http, IsBody, answered_json,
  answered_json-IsBody,
}
use kitt_assistant.Providers.Transcriber.{
  code_of, OpenAiCompatibleTranscriber, Files, Metadata, max_audio_bytes, read_audio, upload,
  result_of, transcribe_rich, normalize_language,
}
use kitt_assistant.Domain.{AssistantError, History, TranscriptionResult}

-- The code of a language: two or three small letters.
abbrev pub IsCode : Option Text → Type 0
IsCode none = Unit
IsCode (some code) =
    (2 ≤ length code) × (length code ≤ 3) × (all (λ c. leb b'a' c && leb c b'z') code ≡ true)

bytes-ascii : (s : Text) → all is_ascii_alphabetic s ≡ true → length (bytes s) ≡ length s
unfolding is_ascii_alphabetic bytes utf8
bytes-ascii [] h = refl
bytes-ascii (c ∷ s) h = ground (arith, bytes-ascii s)

lower_small :
    (s : Text)
    → all is_ascii_alphabetic (map to_ascii_lowercase s) ≡ true
    → all (λ c. leb b'a' c && leb c b'z') (map to_ascii_lowercase s) ≡ true
unfolding is_ascii_alphabetic to_ascii_lowercase
lower_small [] h = refl
lower_small (c ∷ s) h = ground (arith, lower_small s)

code_of-IsCode : (primary : Text) → IsCode (code_of primary)
unfolding code_of
code_of-IsCode primary =
    let code = map to_ascii_lowercase primary in
    elim (Bool-cases (
      leb 2 (length (bytes code)) && leb (length (bytes code)) 3 && all is_ascii_alphabetic code)) [
        | inr refused ↦ if-of_false IsCode _ refused tt
        | inl accepted ↦
            let letters : all is_ascii_alphabetic code ≡ true = ground arith in
            let size = bytes-ascii code letters in
            if-of_true IsCode _ accepted (ground arith, ground arith, lower_small primary letters)
      ]

-- The language that a locale is reduced to is a code of two or three small letters.
pub normalize_language-IsCode : (locale : Option Text) → IsCode (normalize_language locale)
unfolding normalize_language
normalize_language-IsCode none = tt
normalize_language-IsCode (some locale) = elim (Bool-cases (is_empty (trim locale))) [
  | inl empty ↦ if-of_true IsCode _ empty tt
  | inr given ↦ if-of_false IsCode _ given (code_of-IsCode _)
]

module _ {F D : Type 0} (as_f64 : Json → Option D) (as_f32 : D → F) (http : Http) (files : Files)
    (t : OpenAiCompatibleTranscriber) where
  -- The provider may be sent the audio at a path, which the file system describes and gives.
  abbrev pub MayUpload : History → Text → List ℕ → Type 0
  MayUpload h path audio =
      ((t.is_local || t.allow_remote) ≡ true)
      × ((metadata : Metadata) × (files.metadata h path ≡ ok metadata)
          × (metadata.is_file ≡ true)
          × (metadata.len ≤ max_audio_bytes))
      × (files.read h path ≡ ok audio)

  abbrev pub UploadsTo :
      History
      → Text
      → Option Text
      → Option Text
      → HttpRequest
      → Result AssistantError (TranscriptionResult F)
      → Type 0
  UploadsTo h path locale prompt sent result =
      (audio : List ℕ) × MayUpload h path audio
      × (sent ≡ upload as_f64 as_f32 http files t path locale prompt audio)
      × Says
          (λ transcript.
            (body : Json) × IsBody http (http.send h [] sent) body
            × (transcript ≡ result_of as_f64 as_f32 body))
          result

  read_audio-eq-ok :
      (h : History) (path : Text) (audio : List ℕ)
      → read_audio as_f64 as_f32 http files t h path ≡ ok audio
      → MayUpload h path audio
  unfolding read_audio
  read_audio-eq-ok h path audio e = elim (Result-cases (files.metadata h path)) [
    | inl (metadata, described) ↦ elim (Result-cases (files.read h path)) [
      | inl (content, given) ↦
          (ground arith, (metadata, described, ground arith, ground arith), ground arith)
      | inr (x, given) ↦ ground arith
    ]
    | inr (x, described) ↦ ground arith
  ]

  read_transcript-eq-ok :
      (sent : Result String Response) (transcript : TranscriptionResult F)
      → (answered_json http AssistantError.transcription sent >>= λ body.
          ok (result_of as_f64 as_f32 body))
        ≡ ok transcript
      → (body : Json) × IsBody http sent body × (transcript ≡ result_of as_f64 as_f32 body)
  read_transcript-eq-ok sent transcript h =
      let (body, e, h1) = >>=-eq-ok (answered_json http AssistantError.transcription sent) _ h in
      (body, answered_json-IsBody http AssistantError.transcription sent body e, ground arith)

  -- A transcription that fails before its request asks nobody. Any other makes one, with the audio at the
  -- path: only to a local provider or where remote ones are allowed, and of a file whose size was told
  -- as at most 25 MiB; a transcript is what the body of a successful response of at most 8 MiB says.
  pub transcribe_rich-UploadsTo :
      (h : History) (path : Text) (locale prompt : Option Text)
      → AtMostOne
          (UploadsTo h path locale prompt)
          (transcribe_rich as_f64 as_f32 http files t h path locale prompt)
  unfolding transcribe_rich
  transcribe_rich-UploadsTo h path locale prompt =
      elim (Result-cases (read_audio as_f64 as_f32 http files t h path)) [
        | inl (audio, e) ↦
            let sent = upload as_f64 as_f32 http files t path locale prompt audio in
            rw (e, transcribe_rich)
              (inr (
                sent,
                refl,
                (
                  audio,
                  read_audio-eq-ok h path audio e,
                  refl,
                  Says-of_ok _ _ (read_transcript-eq-ok (http.send h [] sent)),
                ),
              ))
        | inr (x, e) ↦ rw (e, transcribe_rich) (inl (refl, x, refl))
      ]
