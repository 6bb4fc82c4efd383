-- ===== src/Providers/Discovery.antt =====
-- `discover_models_from_url`: the models that a server lists, by the listing of an OpenAI-compatible
-- provider or else by that of Ollama.
use mathlib.Core.Option
use kitt_assistant.Base.{
  false, not, ◌||◌, Option, none, some, List, [], ◌∷◌, ◌++◌, reverse, String, Text, if◌then◌else◌,
  Result, ok, err, ◌>>=◌, ◌>>◌, refuse_if, map_err, codes, text_eq, is_empty, trim, is_blank,
  strip_prefix,
}
use kitt_assistant.ControlCenter.Json.{
  Json, Items, no_items, item, as_str, as_array, is_some, and_then, unwrap_or, get,
}
use kitt_assistant.Providers.{
  ◌<>◌, HttpClient, HttpRequest, Response, Http, no_body, get_method, answered_json,
}
use kitt_assistant.Providers.Listing.{sort, dedup}
use kitt_assistant.Domain.{AssistantError, History}
use kitt_assistant.Url.{Url, trim_end_matches, ends_with}

-- The URL names a host over http or https, and nothing but a place.
unfoldable pub check_discovery_url : Url → Result AssistantError (Unit {0})
check_discovery_url url = do
  refuse_if (not (text_eq url.scheme (codes "http") || text_eq url.scheme (codes "https")))
      (AssistantError.configuration "model discovery only permits http/https URLs")
  refuse_if (not (is_some url.host_str))
      (AssistantError.configuration "model discovery URL requires a host")
  refuse_if (not (is_empty url.username) || is_some url.password)
      (AssistantError.configuration "credentials embedded in model discovery URLs are forbidden")
  refuse_if (is_some url.query || is_some url.fragment)
      (AssistantError.configuration "model discovery base_url cannot contain query or fragment")

-- The texts that `pick` finds in the values of an array.
unfoldable pub pick_all : (Json → Option Text) → Items → List Text
pick_all pick no_items = []
pick_all pick (item v vs) = elim (pick v) [
  | none ↦ pick_all pick vs
  | some t ↦ t ∷ pick_all pick vs
]

abbrev pub id_of : Json → Option Text
id_of v = and_then (get (codes "id") v) as_str

abbrev or_else : Option Json → Option Json → Option Json
or_else none other = other
or_else (some v) other = some v

abbrev pub name_of : Json → Option Text
name_of v = and_then (or_else (get (codes "name") v) (get (codes "model") v)) as_str

abbrev pub discovery_client : HttpClient
discovery_client = record { connect_timeout = some 2000; timeout = 5000; follows_redirects = false }

abbrev usable_key : Option Text → Option Text
usable_key none = none
usable_key (some key) = if is_blank key then none else some key

abbrev pub get_request : Text → Option Text → HttpRequest
get_request url bearer = record {
  client = discovery_client;
  method = get_method;
  url = url;
  bearer = bearer;
  body = no_body;
}

unfoldable pub models_request : Text → Option Text → HttpRequest
unfolding ends_with
models_request base api_key =
    get_request
      (if ends_with base (codes "/v1") then base ++ codes "/models" else base ++ codes "/v1/models")
      (usable_key api_key)

-- `strip_suffix`
abbrev strip_suffix : Text → Text → Option Text
strip_suffix suffix s = Option.map reverse (strip_prefix (reverse suffix) (reverse s))

unfoldable pub tags_request : Text → HttpRequest
tags_request base =
    get_request
      (trim_end_matches b'/' (unwrap_or base (strip_suffix (codes "/v1") base))
        ++ codes "/api/tags")
      none

module _ (http : Http) where
  unfoldable pub normalize_discovery_base_url : Text → Result AssistantError Text
  normalize_discovery_base_url base_url =
      let raw = trim base_url in
      if is_empty raw
      then err (AssistantError.configuration "model discovery base_url is required")
      else (map_err (λ e. AssistantError.configuration ("invalid discovery URL: " <> e))
            (http.parse raw)
          >>= λ url.
              check_discovery_url url >>= λ checked. ok (trim_end_matches b'/' (http.display url)))

  -- The names that an answer lists under a key; none where it cannot be read.
  unfoldable pub names_in : Text → (Json → Option Text) → Result String Response → List Text
  names_in key pick sent = elim (answered_json http AssistantError.model sent) [
    | err e ↦ []
    | ok body ↦ elim (and_then (get key body) as_array) [
      | none ↦ []
      | some items ↦ pick_all pick items
    ]
  ]

  module _ (h : History) (base : Text) (api_key : Option Text) where
    -- The names of the two listings, of which the second is asked after the first.
    unfoldable pub models_listed : List Text
    models_listed = names_in (codes "data") id_of (http.send h [] (models_request base api_key))

    unfoldable pub tags_listed : List Text
    tags_listed =
        names_in (codes "models") name_of
          (http.send h (models_request base api_key ∷ []) (tags_request base))

    unfoldable pub discover_from : List Text × List HttpRequest
    discover_from =
        if not (is_empty models_listed)
        then (dedup (sort models_listed), models_request base api_key ∷ [])
        else (
          (if not (is_empty tags_listed) then dedup (sort tags_listed) else []),
          tags_request base ∷ models_request base api_key ∷ [],
        )

  -- With the requests that it makes.
  unfoldable pub discover_models_from_url :
      History → Text → Option Text → Result AssistantError (List Text) × List HttpRequest
  discover_models_from_url h base_url api_key =
      elim (normalize_discovery_base_url base_url >>= λ base.
      map_err AssistantError.model (http.build discovery_client) >>= λ built. ok base) [
        | err e ↦ (err e, [])
        | ok base ↦ let (names, requests) = discover_from h base api_key in (ok names, requests)
      ]
