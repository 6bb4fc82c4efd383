-- ===== src/Speech/Piper.antt =====
-- `PiperTextToSpeech`: speech from a Piper server, whose audio a program of the system plays, and the voice
-- of the system where that fails.
use kitt_assistant.Base.{
  Bool, true, false, if◌then◌else◌, negsuc, pos, ℤ, true, not, Option, none, some, List, [], ◌∷◌,
  ◌++◌, ℕ, String, Text, if◌then◌else◌, Result, ok, err, ◌>>=◌, ◌>>◌, refuse_if, map_err, codes,
  is_empty, is_blank,
}
use kitt_assistant.ControlCenter.Json.{
  Json, unsigned, negative, string, object, Fields, no_fields, field, insert,
}
use kitt_assistant.Providers.{◌<>◌, HttpClient, HttpRequest, Response, Http, json_body, post_method}
use kitt_assistant.Speech.Backends.{
  Sound, Outcome, Platform, linux, macos, windows, other, asked, reaped, remove_file, speak_system,
}
use kitt_assistant.Speech.Backends as Backends
use kitt_assistant.Speech.{SystemVoiceProfile, Command}
use kitt_assistant.Domain.{AssistantError, History}

-- `F` stands for `f32`.
pub record PiperVoiceProfile (F : Type 0) : Type 0 where
  pub base_url : Text
  pub voice : Option Text
  pub speaker : Option ℤ
  pub length_scale : Option F
  pub noise_scale : Option F
  pub noise_w_scale : Option F
  pub timeout : ℕ
  pub fallback_system : Option SystemVoiceProfile

pub record PiperTextToSpeech (F : Type 0) : Type 0 where
  pub profile : PiperVoiceProfile F
  pub client : HttpClient

-- `File::create` and `write_all`, which `fs::write` makes, and whether a program that plays comes to an end.
pub record Player : Type 0 where
  pub create : ℕ → Text → Result String (Unit {0})
  pub write_all : ℕ → List ℕ → Result String (Unit {0})
  pub ends : ℕ → ℕ → Bool
  pub temporary_path : Text

abbrev json_of : ℤ → Json
json_of (pos n) = unsigned n
json_of (negsuc n) = negative n

-- `payload[key] = json!(value)`, where there is a value.
abbrev set : {A : Type 0} → (A → Json) → Text → Option A → Fields → Fields
set to_json key none payload = payload
set to_json key (some value) payload = insert key (to_json value) payload

-- The program that plays the audio.
unfoldable pub player_command : Platform → Text → Option Command
player_command linux path = some (record { program = codes "aplay"; args = path ∷ []; env = [] })
player_command macos path = some (record { program = codes "afplay"; args = path ∷ []; env = [] })
player_command windows path = some (record {
  program = codes "powershell.exe";
  args =
      codes "-NoProfile"
      ∷ codes "-Command"
      ∷ (codes "(New-Object System.Media.SoundPlayer '" ++ path ++ codes "').PlaySync();")
      ∷ [];
  env = [];
})
player_command other path = none

-- `PiperTextToSpeech::new`
unfoldable pub new_piper :
    {F : Type 0} → Http → PiperVoiceProfile F → Result AssistantError (PiperTextToSpeech F)
new_piper http profile =
    let client : HttpClient = record {
      connect_timeout = none;
      timeout = profile.timeout;
      follows_redirects = true;
    } in
    map_err (λ e. AssistantError.configuration ("piper http client: " <> e)) (http.build client)
    >>= λ built. ok (record { profile = profile; client = client })

module _ {F : Type 0} (float_json : F → Json) (http : Http) (player : Player) (m : Backends.Machine)
    (platform : Platform) (s : PiperTextToSpeech F) where
  unfoldable pub piper_payload : Text → Fields
  unfolding insert
  piper_payload text = set float_json (codes "noise_w_scale") s.profile.noise_w_scale (
      set float_json (codes "noise_scale") s.profile.noise_scale (
        set float_json (codes "length_scale") s.profile.length_scale (
          set json_of (codes "speaker_id") s.profile.speaker (
            set string (codes "voice") s.profile.voice
              (field (codes "text") (string text) no_fields)))))

  unfoldable pub piper_request : Text → HttpRequest
  piper_request text = record {
    client = s.client;
    method = post_method;
    url = s.profile.base_url;
    bearer = none;
    body = json_body (object (piper_payload text));
  }

  -- `Command::status`, whose result is dropped: whether it comes to an end, for which it waits without limit.
  unfoldable pub play : Option Command → Sound → Bool × Sound
  play none w = (true, w)
  play (some command) w =
      let tried = record (asked m w) { commands = command ∷ w.commands } in
      elim (m.spawn w.tick command) [
        | err e ↦ (true, tried)
        | ok pid ↦
            let playing = record tried { started = pid ∷ w.started } in
            if player.ends playing.tick pid then (true, reaped pid playing) else (false, playing)
      ]

  -- The audio is written to a file, played, and the file is removed.
  unfoldable pub play_audio : List ℕ → Sound → Outcome
  play_audio audio w = elim (player.create w.tick player.temporary_path) [
    | err e ↦ (some (err (AssistantError.io ("save piper audio: " <> e))), asked m w)
    | ok _ ↦
        let created = record (asked m w) { files = player.temporary_path ∷ w.files } in
        elim (player.write_all created.tick audio) [
          | err e ↦ (some (err (AssistantError.io ("save piper audio: " <> e))), asked m created)
          | ok _ ↦
              let (ended, w') =
                play (player_command platform player.temporary_path) (asked m created) in
              if ended then (some (ok tt), remove_file m player.temporary_path w') else (none, w')
        ]
  ]

  -- The audio in the answer of the server.
  unfoldable pub piper_audio : Result String Response → Result AssistantError (List ℕ)
  piper_audio sent = do
    response ← map_err (λ e. AssistantError.speech_output ("piper send: " <> e)) sent
    refuse_if (not response.is_success)
        (AssistantError.speech_output ("piper returned HTTP " <> response.status))
    map_err (λ e. AssistantError.speech_output ("piper read: " <> e)) response.content

  -- `piper_res`
  unfoldable pub piper_speech : History → Text → Sound → Outcome
  piper_speech h text w = elim (piper_audio (http.send h [] (piper_request text))) [
    | err e ↦ (some (err e), w)
    | ok audio ↦ if is_empty audio then (some (ok tt), w) else play_audio audio w
  ]

  -- `PiperTextToSpeech::speak`
  unfoldable pub speak_piper : History → Text → Option Text → Sound → Outcome
  speak_piper h text locale w =
      let (spoken, w') = piper_speech h text w in
      if is_blank text then (some (ok tt), w) else elim spoken [
        | none ↦ (none, w')
        | some (ok _) ↦ (some (ok tt), w')
        | some (err e) ↦ elim s.profile.fallback_system [
          | none ↦ (some (err e), w')
          | some fallback ↦ speak_system m platform text locale fallback w'
        ]
      ]
