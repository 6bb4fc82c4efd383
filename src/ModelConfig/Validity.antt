-- ===== src/ModelConfig/Validity.antt =====
-- Which profiles are accepted, and the move away from the speech default that never worked.
use kitt_assistant.Base.{
  List, refl, ◌≡◌, ◌↔◌, ◌⊎◌, inl, inr, sym, subst, Bool, true, false, Option, none, some, [], ◌∷◌,
  ◌++◌, ◌<◌, arith, Text, Result, ok, err, ◌>>=◌, map_err, codes, text_eq, text_eq_iff, is_empty,
  Bool-cases,
}
use kitt_assistant.ControlCenter.Json.{is_some}
use kitt_assistant.Url.{Net, Url, is_loopback_host, trim_end_matches}
use kitt_assistant.ModelConfig.{
  default_stt_base_url, check_url, ModelProfiles, SpeechProfile, validate_profile, validate,
  is_known_bad_default, migrate_known_broken_stt_default,
}

-- An address: plain http or https, without credentials or a query, and local if it says so.
abbrev pub IsPlain : Net → Url → Bool → Type 0
IsPlain net u local =
    ((u.scheme ≡ codes "http") ⊎ (u.scheme ≡ codes "https"))
    × (u.username ≡ [])
    × (u.password ≡ none)
    × (u.query ≡ none)
    × (u.fragment ≡ none)
    × (local ≡ true → is_loopback_host net u.host_str ≡ true)

abbrev pub IsProvider : Net → Text → Bool → Type 0
IsProvider net base_url local = (u : Url) × (net.parse base_url ≡ ok u) × IsPlain net u local

abbrev pub IsValid : Net → ModelProfiles → Type 0
IsValid net p =
    IsProvider net p.fast.base_url p.fast.local_provider
    × IsProvider net p.heavy.base_url p.heavy.local_provider
    × IsProvider net p.speech_to_text.base_url p.speech_to_text.local_provider
    × (0 < p.fast_max_chars)
    × (0 < p.fast_max_lines)

pub is_empty_iff : {A : Type 0} (s : List A) → (is_empty s ≡ true) ↔ (s ≡ [])
is_empty_iff [] = ground arith
is_empty_iff (c ∷ s) = ground arith

pub is_some_iff : {A : Type 0} (o : Option A) → (is_some o ≡ false) ↔ (o ≡ none)
is_some_iff none = ground arith
is_some_iff (some a) = ground arith

same_url : (u v : Url) → ◌≡◌ {A = Result Text Url} (ok u) (ok v) → u ≡ v
same_url u v e = ground arith

module _ (net : Net) where
  check_url-eq-ok :
      (name : Text) (u : Url) (local : Bool)
      → (check_url net name u local ≡ ok tt) ↔ IsPlain net u local
  unfolding check_url
  check_url-eq-ok name u local = ground (
    arith,
    text_eq_iff u.scheme (codes "http"),
    text_eq_iff u.scheme (codes "https"),
    is_empty_iff u.username,
    is_some_iff u.password,
    is_some_iff u.query,
    is_some_iff u.fragment,
  )

  parsed-eq-ok :
      (name : Text) (local : Bool) (r : Result Text Url)
      → ((map_err (λ e. codes "invalid " ++ name ++ codes " base_url: " ++ e) r >>= λ u.
            check_url net name u local)
          ≡ ok tt)
        ↔ ((u : Url) × (r ≡ ok u) × IsPlain net u local)
  parsed-eq-ok name local (err e) = (λ h. absurd (cc), λ p. absurd (ground arith))
  parsed-eq-ok name local (ok u) =
      let c = check_url-eq-ok name u local in
      (
        λ h. (u, refl, c.0 h),
        λ (u', e, p). c.1 (subst (λ v. IsPlain net v local) (sym (same_url u u' e)) p),
      )

  validate_profile-eq-ok :
      (name base_url : Text) (local : Bool)
      → (validate_profile net name base_url local ≡ ok tt) ↔ IsProvider net base_url local
  unfolding validate_profile
  validate_profile-eq-ok name base_url local = parsed-eq-ok name local (net.parse base_url)

  -- Profiles are accepted exactly if each of the three providers has a plain http or https address, without
  -- credentials, query or fragment, which is a loopback address where the provider is said to be
  -- local, and both routing thresholds are positive.
  pub validate-eq-ok : (p : ModelProfiles) → (validate net p ≡ ok tt) ↔ IsValid net p
  unfolding validate
  validate-eq-ok p = ground (
    arith,
    validate_profile-eq-ok (codes "fast") p.fast.base_url p.fast.local_provider,
    validate_profile-eq-ok (codes "heavy") p.heavy.base_url p.heavy.local_provider,
    validate_profile-eq-ok (codes "speech_to_text") p.speech_to_text.base_url
        p.speech_to_text.local_provider,
  )

new_default :
    (s : SpeechProfile)
    → is_known_bad_default (record s { base_url = default_stt_base_url }) ≡ false
unfolding is_known_bad_default trim_end_matches text_eq
new_default s = refl

-- After the migration the speech provider is not the known broken default; the migration tells whether it was,
-- and leaves the profiles alone where it was not.
pub migrate_known_broken_stt_default-Moved :
    (p : ModelProfiles)
    → (is_known_bad_default (migrate_known_broken_stt_default p).0.speech_to_text ≡ false)
      × ((migrate_known_broken_stt_default p).1 ≡ is_known_bad_default p.speech_to_text)
      × ((migrate_known_broken_stt_default p).1 ≡ false
          → (migrate_known_broken_stt_default p).0 ≡ p)
unfolding migrate_known_broken_stt_default
migrate_known_broken_stt_default-Moved p =
    elim (Bool-cases (is_known_bad_default p.speech_to_text)) [
      | inl bad ↦
          rw (bad, migrate_known_broken_stt_default)
            (new_default p.speech_to_text, refl, λ e. absurd (cc))
      | inr good ↦ rw (good, migrate_known_broken_stt_default) (good, refl, λ e. refl)
    ]
