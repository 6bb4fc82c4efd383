-- ===== src/Providers.antt =====
-- crates/kitt-infrastructure/src/lib.rs: what the adapters that ask a provider over HTTP share. What the
-- outside answers (the `reqwest` client, the `url` crate and `serde_json`) is an `Http`; a request
-- is answered from the calls of ports before it and the requests that the operation has made,
-- newest first, which each operation returns beside its result.
pub mod Chat
pub mod Discovery
pub mod Listing
pub mod Completions
pub mod Uploads
pub mod Discoveries
mod Tests
pub mod Transcriber
use kitt_assistant.Base.{
  refl, ◌≡◌, ◌≢◌, ◌↔◌, ◌⊎◌, inl, inr, sym, ap, subst, ◌∙◌, Bool, true, false, not, ◌&&◌, ◌||◌,
  Option, none, some, List, [], ◌∷◌, ◌++◌, map, reverse, ℕ, zero, suc, ◌+◌, ◌-◌, ◌*◌, ◌/◌, ◌%◌, ◌^◌,
  ◌≤◌, ◌<◌, min, max, arith, String, Text, ltb, leb, ◌==◌, if◌then◌else◌, Result, ok, err, ◌>>=◌,
  ◌>>◌, refuse_if, ok_or, map_err, length, take, drop, all, any, All, codes, text_eq, text_eq_iff,
  is_empty, starts_with, Bool-cases, Option-cases, Result-cases, if-of_true, if-of_false, and-true,
  decimal, trim, to_ascii_lowercase, is_blank, join, ok_or-eq-ok, retain, strip_prefix, texts_eq,
  >>=-eq-ok,
}
use kitt_assistant.ControlCenter.Json.{
  Json, null, boolean, unsigned, negative, double, string, array, object, Items, no_items, item,
  Fields, no_fields, field, as_bool, as_u64, as_str, as_array, as_object, is_some, and_then,
  unwrap_or, get_field, insert, get, any_item, all_items, find, is_text, Doubles, as_f64,
}
use Prim.Native.String.{◌++◌ as concat}
use kitt_assistant.Domain.{AssistantError, History}
use kitt_assistant.Url.{Url}

infixr 60 ◌<>◌
abbrev pub ◌<>◌ : String → String → String
s <> t = concat s t

-- A client's timeouts in milliseconds, and whether it follows redirects.
pub record HttpClient : Type 0 where
  pub connect_timeout : Option ℕ
  pub timeout : ℕ
  pub follows_redirects : Bool

pub data Method : Type 0 where
  get_method post_method : Method

-- A part of a multipart form.
pub data Part : Type 0 where
  text_part : (name value : Text) → Part
  file_part : (name file_name : Text) → List ℕ → Part

pub data Body : Type 0 where
  no_body : Body
  json_body : Json → Body
  multipart : List Part → Body

pub record HttpRequest : Type 0 where
  pub client : HttpClient
  pub method : Method
  pub url : Text
  pub bearer : Option Text
  pub body : Body

-- `content` is what `bytes` gives, `read_to_end n` what `take(n).read_to_end` does.
pub record Response : Type 0 where
  pub is_success : Bool
  pub status : String
  pub content_length : Option ℕ
  pub content : Result String (List ℕ)
  pub read_to_end : ℕ → Result String (List ℕ)

pub record Http : Type 0 where
  pub build : HttpClient → Result String (Unit {0})
  pub send : History → List HttpRequest → HttpRequest → Result String Response
  pub from_slice : List ℕ → Result String Json
  pub show_json : Json → String
  pub parse : Text → Result String Url
  pub display : Url → Text

-- `MAX_PROVIDER_RESPONSE_BYTES`
abbrev pub max_response_bytes : ℕ
max_response_bytes = 8 * 1024 * 1024

abbrev pub exceeds : Option ℕ → ℕ → Bool
exceeds none limit = false
exceeds (some n) limit = ltb limit n

-- The client of `build_client`.
abbrev pub provider_client : HttpClient
provider_client = record { connect_timeout = some 5000; timeout = 45000; follows_redirects = true }

module _ (http : Http) where
  unfoldable pub build_client : Result AssistantError HttpClient
  build_client = do
    built ←
        map_err (λ e. AssistantError.configuration ("http client: " <> e))
          (http.build provider_client)
    ok provider_client

  unfoldable pub bounded_json : Response → (String → AssistantError) → Result AssistantError Json
  bounded_json response wrap = do
    refuse_if (exceeds response.content_length max_response_bytes)
        (wrap "provider response too large")
    content ←
        map_err (λ e. wrap ("provider response read failed: " <> e))
          (response.read_to_end (max_response_bytes + 1))
    refuse_if (ltb max_response_bytes (length content)) (wrap "provider response too large")
    body ← map_err (λ e. wrap ("invalid JSON: " <> e)) (http.from_slice content)
    refuse_if (not response.is_success) (
        wrap (
          "HTTP "
          <> response.status
          <> ": "
          <> http.show_json (unwrap_or body (get (codes "error") body))))
    ok body

  -- `bounded_json(req.send().map_err(wrap)?, wrap)`, on what `send` gave.
  unfoldable pub answered_json :
      (String → AssistantError) → Result String Response → Result AssistantError Json
  answered_json wrap sent = map_err wrap sent >>= λ response. bounded_json response wrap

  -- A body that the code reads: a response of at most the largest size, which tells no larger one, with a
  -- status of success.
  abbrev pub IsBody : Result String Response → Json → Type 0
  IsBody sent body =
      (response : Response) × (content : List ℕ) × (sent ≡ ok response)
      × (exceeds response.content_length max_response_bytes ≡ false)
      × (response.is_success ≡ true)
      × (response.read_to_end (max_response_bytes + 1) ≡ ok content)
      × (length content ≤ max_response_bytes)
      × (http.from_slice content ≡ ok body)

  pub bounded_json-eq-ok :
      (response : Response) (wrap : String → AssistantError) (body : Json)
      → bounded_json response wrap ≡ ok body
      → (content : List ℕ) × (exceeds response.content_length max_response_bytes ≡ false)
        × (response.is_success ≡ true)
        × (response.read_to_end (max_response_bytes + 1) ≡ ok content)
        × (length content ≤ max_response_bytes)
        × (http.from_slice content ≡ ok body)
  unfolding bounded_json
  bounded_json-eq-ok response wrap body h =
      elim (Result-cases (response.read_to_end (max_response_bytes + 1))) [
        | inl (content, e) ↦ elim (Result-cases (http.from_slice content)) [
          | inl (parsed, f) ↦
              let facts : (exceeds response.content_length max_response_bytes ≡ false)
                  × (response.is_success ≡ true)
                  × (length content ≤ max_response_bytes)
                  × (parsed ≡ body) =
                ground arith in
              (content, facts.0, facts.1, e, facts.2, f ∙ ap ok facts.3)
          | inr (x, f) ↦ ground arith
        ]
        | inr (x, e) ↦ ground arith
      ]

  pub answered_json-IsBody :
      (wrap : String → AssistantError) (sent : Result String Response) (body : Json)
      → answered_json wrap sent ≡ ok body
      → IsBody sent body
  unfolding answered_json
  answered_json-IsBody wrap (err e) body h = cc
  answered_json-IsBody wrap (ok response) body h =
      let (content, told, success, read, small, parsed) = bounded_json-eq-ok response wrap body h in
      (response, content, refl, told, success, read, small, parsed)

  -- Such a body is read.
  pub IsBody-answered_json :
      (wrap : String → AssistantError) (sent : Result String Response) (body : Json)
      → IsBody sent body
      → answered_json wrap sent ≡ ok body
  unfolding answered_json bounded_json
  IsBody-answered_json wrap sent body (response, content, e, told, success, read, small, parsed) =
      let fits : ltb max_response_bytes (length content) ≡ false = ground arith in
      rw (e, answered_json) (rw (told, read, fits, parsed, success) refl)

module _ {A : Type 0} where
  -- An operation that fails before it makes a request, or makes one.
  abbrev pub AtMostOne :
      (HttpRequest → Result AssistantError A → Type 0)
      → Result AssistantError A × List HttpRequest
      → Type 0
  AtMostOne Made (result, requests) =
      ((requests ≡ []) × (e : AssistantError) × (result ≡ err e))
      ⊎ ((request : HttpRequest) × (requests ≡ request ∷ []) × Made request result)

  -- What holds of a result where it is a success.
  abbrev pub Says : (A → Type 0) → Result AssistantError A → Type 0
  Says P (ok a) = P a
  Says P (err e) = Unit

  pub Says-of_ok :
      (P : A → Type 0) (r : Result AssistantError A) → ((a : A) → r ≡ ok a → P a) → Says P r
  Says-of_ok P (ok a) h = h a refl
  Says-of_ok P (err e) h = tt
