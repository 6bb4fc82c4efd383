-- ===== src/Providers/Discoveries.antt =====
-- What `discover_models_from_url` asks and answers.
use kitt_assistant.Base.{
  true, refl, ◌≡◌, ◌≢◌, ◌↔◌, ◌⊎◌, inl, inr, not, Option, none, List, [], ◌∷◌, arith, Text,
  if◌then◌else◌, Result, ok, err, ◌>>=◌, map_err, codes, text_eq_iff, is_empty, Bool-cases,
  Result-cases, if-of_true, if-of_false, trim,
}
use kitt_assistant.Providers.{◌<>◌, HttpRequest, Http}
use kitt_assistant.Providers.Listing.{IsListing, dedup-sort-IsListing, sort, dedup}
use kitt_assistant.Providers.Discovery.{
  check_discovery_url, discovery_client, discover_from, discover_models_from_url, models_listed,
  tags_listed, models_request, tags_request, normalize_discovery_base_url,
}
use kitt_assistant.Domain.{AssistantError, History}
use kitt_assistant.ModelConfig.Validity.{is_empty_iff, is_some_iff}
use kitt_assistant.Url.{Url, trim_end_matches}

-- A URL over http or https that names a host and nothing but a place.
abbrev pub IsPlace : Url → Type 0
IsPlace url =
    ((url.scheme ≡ codes "http") ⊎ (url.scheme ≡ codes "https"))
    × (url.host_str ≢ none)
    × (url.username ≡ [])
    × (url.password ≡ none)
    × (url.query ≡ none)
    × (url.fragment ≡ none)

module _ (http : Http) where
  -- The two listings of a server, of which the second is asked where the first has no names.
  abbrev pub ListsFrom : History → Text → Option Text → List Text → List HttpRequest → Type 0
  ListsFrom h base api_key names requests =
      ((requests ≡ models_request base api_key ∷ [])
        × (models_listed http h base api_key ≢ [])
        × IsListing names (models_listed http h base api_key))
      ⊎ ((requests ≡ tags_request base ∷ models_request base api_key ∷ [])
          × (models_listed http h base api_key ≡ [])
          × IsListing names (tags_listed http h base api_key))

  abbrev pub Discovers :
      History → Text → Option Text → Result AssistantError (List Text) × List HttpRequest → Type 0
  Discovers h base_url api_key (err e, requests) = requests ≡ []
  Discovers h base_url api_key (ok names, requests) =
      (url : Url) × (http.parse (trim base_url) ≡ ok url)
      × IsPlace url
      × ListsFrom h (trim_end_matches b'/' (http.display url)) api_key names requests

  check_discovery_url-eq-ok : (url : Url) → (check_discovery_url url ≡ ok tt) ↔ IsPlace url
  unfolding check_discovery_url
  check_discovery_url-eq-ok url = ground (
    arith,
    text_eq_iff url.scheme (codes "http"),
    text_eq_iff url.scheme (codes "https"),
    is_some_iff url.host_str,
    is_empty_iff url.username,
    is_some_iff url.password,
    is_some_iff url.query,
    is_some_iff url.fragment,
  )

  parsed-IsPlace :
      (raw base : Text)
      → (map_err
            (λ e. AssistantError.configuration ("invalid discovery URL: " <> e))
            (http.parse raw)
          >>= λ url.
              check_discovery_url url >>= λ checked. ok (trim_end_matches b'/' (http.display url)))
        ≡ ok base
      → (url : Url) × (http.parse raw ≡ ok url)
        × IsPlace url
        × (trim_end_matches b'/' (http.display url) ≡ base)
  parsed-IsPlace raw base h = elim (Result-cases (http.parse raw)) [
    | inl (url, e) ↦ elim (Result-cases (check_discovery_url url)) [
      | inl (done, f) ↦ (url, e, (check_discovery_url-eq-ok url).0 f, ground arith)
      | inr (x, f) ↦ ground arith
    ]
    | inr (x, e) ↦ ground arith
  ]

  normalize-IsPlace :
      (base_url base : Text)
      → normalize_discovery_base_url http base_url ≡ ok base
      → (url : Url) × (http.parse (trim base_url) ≡ ok url)
        × IsPlace url
        × (trim_end_matches b'/' (http.display url) ≡ base)
  unfolding normalize_discovery_base_url
  normalize-IsPlace base_url base h = elim (Bool-cases (is_empty (trim base_url))) [
    | inl empty ↦ ground arith
    | inr given ↦ parsed-IsPlace (trim base_url) base (ground arith)
  ]

  sorted_if_any :
      (names : List Text)
      → IsListing (if not (is_empty names) then dedup (sort names) else []) names
  sorted_if_any [] = (tt, λ t. refl)
  sorted_if_any (name ∷ names) = dedup-sort-IsListing (name ∷ names)

  filled : (names : List Text) → not (is_empty names) ≡ true → names ≡ [] → ⊥
  filled [] e empty = cc
  filled (name ∷ names) e empty = cc

  discover_from-ListsFrom :
      (h : History) (base : Text) (api_key : Option Text)
      → ListsFrom h base api_key
          (discover_from http h base api_key).0
          (discover_from http h base api_key).1
  unfolding discover_from
  discover_from-ListsFrom h base api_key =
      let first = models_listed http h base api_key in
      elim (Bool-cases (not (is_empty first))) [
        | inl found ↦
            if-of_true (λ (r : List Text × List HttpRequest). ListsFrom h base api_key r.0 r.1) _
              found
              (inl
                (refl, λ none_listed. filled first found none_listed, dedup-sort-IsListing first))
        | inr empty ↦
            if-of_false (λ (r : List Text × List HttpRequest). ListsFrom h base api_key r.0 r.1) _
              empty
              (inr (
                refl,
                ground (arith, is_empty_iff first),
                sorted_if_any (tags_listed http h base api_key),
              ))
      ]

  -- Model discovery that fails asks nobody. Where it succeeds, the URL was one over http or https that
  -- names a host, without credentials, query or fragment; the first request is for the models below it
  -- and a second, without the key, for its tags exactly where the first listed no name; the result has
  -- the names that the last one listed, each once, in ascending order.
  pub discover_models_from_url-Discovers :
      (h : History) (base_url : Text) (api_key : Option Text)
      → Discovers h base_url api_key (discover_models_from_url http h base_url api_key)
  unfolding discover_models_from_url
  discover_models_from_url-Discovers h base_url api_key =
      elim (Result-cases (normalize_discovery_base_url http base_url)) [
        | inr (x, e) ↦ rw (e, discover_models_from_url) refl
        | inl (base, e) ↦ elim (Result-cases (http.build discovery_client)) [
          | inr (x, f) ↦ rw (e, f, discover_models_from_url) refl
          | inl (built, f) ↦
              let (url, parsed, place, same) = normalize-IsPlace base_url base e in
              rw (e, f, discover_models_from_url)
                (url, parsed, place, rw same (discover_from-ListsFrom h base api_key))
        ]
      ]
