-- ===== src/ControlCenter/Requests.antt =====
-- `handle`: which requests the Control Center admits, and what each route does.
pub mod Guards
use kitt_assistant.Base.{
  to_ascii_lowercase, trim, decimal, refl, ◌≡◌, ◌≢◌, ◌↔◌, ◌⊎◌, inl, inr, sym, ap, subst, ◌∙◌, Bool,
  true, false, not, ◌&&◌, ◌||◌, Option, none, some, List, [], ◌∷◌, ◌++◌, map, reverse, ℕ, zero, suc,
  ◌+◌, ◌-◌, ◌*◌, ◌/◌, ◌%◌, ◌^◌, ◌≤◌, ◌<◌, min, max, arith, String, Text, ltb, leb, ◌==◌,
  if◌then◌else◌, Result, ok, err, ◌>>=◌, ◌>>◌, refuse_if, ok_or, map_err, length, take, drop, all,
  any, All, codes, bytes, text_eq, text_eq_iff, is_empty, starts_with, Bool-cases, Option-cases,
  Result-cases, if-of_true, if-of_false, and-true, >>=-eq-ok,
}
use kitt_assistant.ControlCenter.Json.{
  Json, null, boolean, unsigned, negative, double, string, array, object, Items, no_items, item,
  Fields, no_fields, field, as_bool, as_u64, as_str, as_array, as_object, is_some, and_then,
  unwrap_or, get_field, insert, get, any_item, all_items, find, is_text, Doubles, as_f64,
}
use kitt_assistant.ControlCenter.Changes.{revision_of}
use kitt_assistant.ControlCenter.Overlay.{
  Disk, File, read_overlay, snapshot, put_config, validate_only, parse_json_body,
}

-- `{ip}:{port}` for the three names of the loopback interface.
abbrev loopback_names : ℕ → List Text
loopback_names port =
    map (λ name. name ++ decimal port)
      (codes "127.0.0.1:" ∷ codes "localhost:" ∷ codes "[::1]:" ∷ [])

abbrev lowered : Text → Text
lowered s = map to_ascii_lowercase s

unfoldable pub valid_host : Option Text → ℕ → Bool
valid_host none port = false
valid_host (some host) port = any (text_eq (lowered (trim host))) (loopback_names port)

unfoldable pub same_origin : Option Text → ℕ → Bool
same_origin none port = false
same_origin (some origin) port =
    any (λ name. text_eq (lowered origin) (lowered (codes "http://" ++ name))) (loopback_names port)

-- A request, with the three headers that `handle` looks up.
pub record Request : Type 0 where
  pub method : Text
  pub path : Text
  pub host : Option Text
  pub origin : Option Text
  pub csrf : Option Text
  pub body : List ℕ

pub data Content : Type 0 where
  asset : Text → Content
  json : Json → Content

pub record Response : Type 0 where
  pub status : ℕ
  pub content : Content

-- The calls that change something outside the overlay file.
pub data Call : Type 0 where
  discover : Text → Call
  start_proxy : Json → Call
  stop_proxy restart : Call
  agent_gateway : Text → Call

pub data Route : Type 0 where
  page : Text → Route
  health show_catalog show_config try_change apply_change discover_models : Route
  service_status service_logs proxy_status proxy_start proxy_stop : Route
  gateway : Text → Route
  service_restart ping not_found : Route

-- The arms of the `match` on the method and the path, in their order.
abbrev routes : List (Text × Text × Route)
routes =
    (codes "GET", codes "/", page (codes "index.html"))
    ∷ (codes "GET", codes "/index.html", page (codes "index.html"))
    ∷ (codes "GET", codes "/app.css", page (codes "app.css"))
    ∷ (codes "GET", codes "/app.js", page (codes "app.js"))
    ∷ (codes "GET", codes "/api/v1/health", health)
    ∷ (codes "GET", codes "/api/v1/catalog", show_catalog)
    ∷ (codes "GET", codes "/api/v1/config", show_config)
    ∷ (codes "POST", codes "/api/v1/validate", try_change)
    ∷ (codes "PUT", codes "/api/v1/config", apply_change)
    ∷ (codes "POST", codes "/api/v1/models/discover", discover_models)
    ∷ (codes "GET", codes "/api/v1/service/status", service_status)
    ∷ (codes "GET", codes "/api/v1/service/logs", service_logs)
    ∷ (codes "GET", codes "/api/v1/reverse-proxy/status", proxy_status)
    ∷ (codes "POST", codes "/api/v1/reverse-proxy/start", proxy_start)
    ∷ (codes "POST", codes "/api/v1/reverse-proxy/stop", proxy_stop)
    ∷ (codes "POST", codes "/api/v1/agent-gateway/install", gateway (codes "install"))
    ∷ (codes "POST", codes "/api/v1/agent-gateway/uninstall", gateway (codes "uninstall"))
    ∷ (codes "POST", codes "/api/v1/agent-gateway/verify", gateway (codes "verify"))
    ∷ (codes "POST", codes "/api/v1/service/restart", service_restart)
    ∷ (codes "POST", codes "/api/v1/service/ping", ping)
    ∷ []

unfoldable pub route_in : List (Text × Text × Route) → Text → Text → Route
route_in [] method path = not_found
route_in ((m, p, r) ∷ rest) method path =
    let later = route_in rest method path in if text_eq method m && text_eq path p then r else later

-- `matches!(method, "POST" | "PUT" | "DELETE" | "PATCH")`
unfoldable pub is_changing : Text → Bool
is_changing method =
    any (text_eq method) (codes "POST" ∷ codes "PUT" ∷ codes "DELETE" ∷ codes "PATCH" ∷ [])

-- What the server works on: the overlay file and the calls that it has made.
pub record World : Type 0 where
  pub file : File
  pub calls : List Call

-- The rest of the server: its address and token, its clock, and what the calls and the reports answer.
pub record Server : Type 1 where
  pub ds : Doubles
  pub disk : Disk
  pub catalog : Json
  pub port : ℕ
  pub bind : Text
  pub token : Text
  pub now : ℕ
  pub answer : List Call → Call → Result Text Json
  pub restarted : List Call → Json
  pub report : Route → List Call → Json

abbrev pub error_json : Text → Json
error_json e = object (field (codes "error") (string e) no_fields)

-- The status of a failed change.
unfoldable pub status_of : Text → ℕ
status_of e = if starts_with e (codes "revision conflict") then 409 else 400

abbrev pub reply : ℕ → Json → Response
reply status v = record { status = status; content = json v }

abbrev pub reply_change : Result Text Json → Response
reply_change (ok v) = reply 200 v
reply_change (err e) = reply (status_of e) (error_json e)

abbrev pub reply_call : Result Text Json → Response
reply_call (ok v) = reply 200 v
reply_call (err e) = reply 400 (error_json e)

module _ (server : Server) where
  open server use {ds, disk, catalog, port, bind, token, now, answer, report}

  abbrev call : Call → World → Result Text Json × World
  call c w = (answer w.calls c, record w { calls = w.calls ++ (c ∷ []) })

  abbrev base_url_of : Json → Text
  base_url_of payload = trim (unwrap_or [] (and_then (get (codes "base_url") payload) as_str))

  abbrev discovered : Result Text Json → Response
  discovered (ok models) = reply 200 (
      object
        (field (codes "status") (string (codes "ok")) (field (codes "models") models no_fields)))
  discovered (err e) = reply 400 (
      object (field (codes "error") (string e) (field (codes "models") (array no_items) no_fields)))

  -- What the arm of a route does; `body` is the request's.
  unfoldable pub perform : Route → List ℕ → World → Result Text Response × World
  perform (page name) body w = (ok (record { status = 200; content = asset name }), w)
  perform health body w = (
    ok (
        reply 200 (
          object (
            field (codes "status") (string (codes "ok")) (
              field (codes "bind") (string bind)
                (field (codes "csrf_token") (string token) no_fields))))),
    w,
  )
  perform show_catalog body w = (ok (reply 200 catalog), w)
  perform show_config body w =
      (read_overlay disk w.file >>= λ overlay. ok (reply 200 (snapshot overlay)), w)
  perform try_change body w = (ok (reply_change (validate_only ds disk catalog w.file body)), w)
  perform apply_change body w =
      let (result, file') = put_config ds disk catalog w.file body now in
      (ok (reply_change result), record w { file = file' })
  perform discover_models body w = elim (parse_json_body disk body) [
    | err e ↦ (ok (discovered (err e)), w)
    | ok payload ↦
        let (result, w') = call (discover (base_url_of payload)) w in (ok (discovered result), w')
  ]
  perform proxy_start body w = elim (parse_json_body disk body) [
    | err e ↦ (ok (reply_call (err e)), w)
    | ok payload ↦ let (result, w') = call (start_proxy payload) w in (ok (reply_call result), w')
  ]
  perform proxy_stop body w = let (result, w') = call stop_proxy w in (ok (reply_call result), w')
  perform (gateway action) body w =
      let (result, w') = call (agent_gateway action) w in (ok (reply_call result), w')
  perform service_restart body w =
      (ok (reply 200 (server.restarted w.calls)), record w { calls = w.calls ++ (restart ∷ []) })
  perform not_found body w = (ok (reply 404 (error_json (codes "not found"))), w)
  perform route body w = (ok (reply 200 (report route w.calls)), w)

  abbrev refusal : ℕ → Text → World → Result Text Response × World
  refusal status why w = (ok (reply status (error_json why)), w)

  -- `handle`, from the request that was read.
  unfoldable pub handle : Request → World → Result Text Response × World
  handle r w =
      if not (valid_host r.host port)
      then refusal 400 (codes "invalid Host header") w
      else if is_changing r.method && not (same_origin r.origin port)
      then refusal 403 (codes "cross-origin request blocked") w
      else if is_changing r.method && not (is_text token r.csrf)
      then refusal 403 (codes "invalid CSRF token") w
      else perform (route_in routes r.method r.path) r.body w
