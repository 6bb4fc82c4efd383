-- ===== src/ControlCenter/Exchange.antt =====
-- apps/kittd/src/settings_web.rs: a request of the Control Center on its socket. `read_request` takes it from
-- the bytes that the peer sends, and `write_response`, to which no caller gives further headers,
-- writes the answer of `handle`; cloning the stream does not fail.
pub mod Admission
pub mod Reading
mod Tests
use kitt_assistant.Base.{
  from_utf8, split_whitespace, refl, ◌≡◌, ◌≢◌, ◌↔◌, ◌⊎◌, inl, inr, sym, ap, subst, ◌∙◌, Bool, true,
  false, not, ◌&&◌, ◌||◌, Option, none, some, List, [], ◌∷◌, ◌++◌, map, reverse, ℕ, zero, suc, ◌+◌,
  ◌-◌, ◌*◌, ◌/◌, ◌%◌, ◌^◌, ◌≤◌, ◌<◌, min, max, arith, String, Text, ltb, leb, ◌==◌, if◌then◌else◌,
  Result, ok, err, ◌>>=◌, ◌>>◌, refuse_if, ok_or, map_err, length, take, drop, all, any, All, codes,
  bytes, text_eq, text_eq_iff, is_empty, starts_with, Bool-cases, Option-cases, Result-cases,
  if-of_true, if-of_false, and-true, decimal, trim, to_ascii_lowercase, is_blank, join, ok_or-eq-ok,
  retain, strip_prefix, texts_eq, >>=-eq-ok,
}
use kitt_assistant.ControlCenter.Json.{
  Json, null, boolean, unsigned, negative, double, string, array, object, Items, no_items, item,
  Fields, no_fields, field, as_bool, as_u64, as_str, as_array, as_object, is_some, and_then,
  unwrap_or, get_field, insert, get, any_item, all_items, find, is_text, Doubles, as_f64,
}
use kitt_assistant.ControlCenter.Requests.{Request, Response, Content, World, Server, handle}

abbrev max_header_bytes : ℕ
max_header_bytes = 32 * 1024

abbrev max_body_bytes : ℕ
max_body_bytes = 256 * 1024

-- What a buffered reader has before it: the bytes cut behind each newline.
abbrev join_first : ℕ → List (List ℕ) → List (List ℕ)
join_first b [] = (b ∷ []) ∷ []
join_first b (line ∷ lines) = (b ∷ line) ∷ lines

unfoldable pub lines_of : List ℕ → List (List ℕ)
lines_of [] = []
lines_of (b ∷ bs) =
    let lines = lines_of bs in if b == b'\n' then (b ∷ []) ∷ lines else join_first b lines

unfoldable pub unread : List (List ℕ) → List ℕ
unread [] = []
unread (line ∷ lines) = line ++ unread lines

unfoldable pub is_ended : List ℕ → Bool
is_ended [] = false
is_ended (b ∷ []) = b == b'\n'
is_ended (b ∷ c ∷ bs) = is_ended (c ∷ bs)

-- How the bytes of a peer end: it closes the connection, or a read fails, as after the timeout.
abbrev pub Ending : Type 0
Ending = Result Text (Unit {0})

-- `BufRead::read_line`, on a line that is there.
unfoldable pub line_text : Ending → List ℕ → Result Text Text
line_text ending line = do
  if is_ended line then ok tt else ending
  ok_or (from_utf8 line) (codes "stream did not contain valid UTF-8")

-- `str::split_once(':')`
unfoldable pub split_colon : Text → Option (Text × Text)
split_colon [] = none
split_colon (c ∷ s) =
    let later = split_colon s in
    if c == b':' then some ([], s) else and_then later (λ parts. some (c ∷ parts.0, parts.1))

-- A map from names to values; the last value of a name stands first.
abbrev pub Headers : Type 0
Headers = List (Text × Text)

unfoldable pub header : Text → Headers → Option Text
header name [] = none
header name ((n, v) ∷ headers) =
    let later = header name headers in if text_eq n name then some v else later

abbrev is_empty_line : Text → Bool
is_empty_line line = text_eq line (codes "\r\n") || text_eq line (codes "\n")

abbrev entry : Text × Text → Text × Text
entry (name, value) = (map to_ascii_lowercase (trim name), trim value)

-- The loop over the headers.
unfoldable pub read_headers :
    Ending → List (List ℕ) → ℕ → Headers → Result Text (Headers × List (List ℕ))
read_headers ending [] read_bytes headers = do
  ending
  err (codes "connection closed during headers")
read_headers ending (line ∷ lines) read_bytes headers = do
  text ← line_text ending line
  refuse_if (ltb max_header_bytes (read_bytes + length line)) (codes "headers too large")
  elim (is_empty_line text) [
    | true ↦ ok (headers, lines)
    | false ↦ do
      parts ← ok_or (split_colon text) (codes "invalid header")
      read_headers ending lines (read_bytes + length line) (entry parts ∷ headers)
  ]

-- `str::parse::<usize>()`
abbrev add_digit : Option ℕ → ℕ → Option ℕ
add_digit none c = none
add_digit (some n) c =
    if leb 48 c && leb c 57 && ltb (n * 10 + (c - 48)) (2 ^ 64)
    then some (n * 10 + (c - 48))
    else none

unfoldable pub digits_value : Option ℕ → Text → Option ℕ
digits_value n [] = n
digits_value n (c ∷ s) = digits_value (add_digit n c) s

abbrev strip_plus : Text → Text
strip_plus [] = []
strip_plus (c ∷ s) = if c == b'+' then s else c ∷ s

unfoldable pub parse_usize : Text → Option ℕ
parse_usize s = if is_empty (strip_plus s) then none else digits_value (some 0) (strip_plus s)

-- The length that the headers declare.
unfoldable pub declared_length : Headers → Result Text ℕ
declared_length headers = elim (header (codes "content-length") headers) [
  | none ↦ ok 0
  | some v ↦ ok_or (parse_usize v) (codes "invalid Content-Length")
]

-- `raw_path.split('?').next()`
unfoldable pub before_query : Text → Text
before_query [] = []
before_query (c ∷ s) = let rest = before_query s in if c == b'?' then [] else c ∷ rest

pub record Received : Type 0 where
  pub method : Text
  pub path : Text
  pub headers : Headers
  pub body : List ℕ

-- The method and the path of the first line.
unfoldable pub request_line : Text → Result Text (Text × Text)
request_line first = elim (split_whitespace first) [
  | [] ↦ err (codes "missing method")
  | method ∷ [] ↦ err (codes "missing path")
  | method ∷ path ∷ [] ↦ err (codes "missing HTTP version")
  | method ∷ path ∷ version ∷ rest ↦ ok (method, before_query path)
]

-- `read_exact`
unfoldable pub read_body : Ending → List (List ℕ) → ℕ → Result Text (List ℕ)
read_body ending lines n =
    if leb n (length (unread lines))
    then ok (take n (unread lines))
    else (do ending; err (codes "failed to fill whole buffer"))

abbrev first_line : Ending → List (List ℕ) → Result Text (Text × ℕ × List (List ℕ))
first_line ending [] = ending >>= λ closed. ok ([], 0, [])
first_line ending (line ∷ lines) = line_text ending line >>= λ text. ok (text, length line, lines)

-- `read_request`, from what the peer sends.
unfoldable pub read_request : Ending → List ℕ → Result Text Received
read_request ending sent = do
  first ← first_line ending (lines_of sent)
  target ← request_line first.0
  head ← read_headers ending first.2 first.1 []
  n ← declared_length head.0
  refuse_if (ltb max_body_bytes n) (codes "request body too large")
  body ← read_body ending head.1 n
  ok (record { method = target.0; path = target.1; headers = head.0; body = body })

-- The headers that `handle` looks up.
unfoldable pub request_of : Received → Request
request_of r = record {
  method = r.method;
  path = r.path;
  host = header (codes "host") r.headers;
  origin = header (codes "origin") r.headers;
  csrf = header (codes "x-kitt-csrf") r.headers;
  body = r.body;
}

-- What a response is written with: `to_vec` of `serde_json`, the text of an asset and its type, and what the
-- socket answers to a write and to the flush.
pub record Socket : Type 0 where
  pub to_vec : Json → Result Text (List ℕ)
  pub asset : Text → List ℕ
  pub write_all : List ℕ → Result Text (Unit {0})
  pub flush : Result Text (Unit {0})

unfoldable pub reason : ℕ → Text
reason status =
    if status == 200
    then codes "OK"
    else if status == 400
    then codes "Bad Request"
    else if status == 403
    then codes "Forbidden"
    else if status == 404
    then codes "Not Found"
    else if status == 409
    then codes "Conflict"
    else codes "Error"

unfoldable pub head_text : ℕ → Text → ℕ → Text
head_text status content_type n =
    codes "HTTP/1.1 "
    ++ decimal status
    ++ codes " "
    ++ reason status
    ++ codes "\r\nContent-Type: "
    ++ content_type
    ++ codes "\r\nContent-Length: "
    ++ decimal n
    ++ codes
        "\r\nConnection: close\r\nCache-Control: no-store\r\nX-Content-Type-Options: nosniff\r\n"
    ++ codes "X-Frame-Options: DENY\r\nReferrer-Policy: no-referrer\r\n"
    ++ codes "Cross-Origin-Opener-Policy: same-origin\r\n"
    ++ codes "Cross-Origin-Resource-Policy: same-origin\r\n"
    ++ codes "Permissions-Policy: camera=(), microphone=(), geolocation=()\r\n"
    ++ codes "Content-Security-Policy: default-src 'self'; script-src 'self'; style-src 'self'; "
    ++ codes "img-src 'self' data:; connect-src 'self'; object-src 'none'; base-uri 'none'; "
    ++ codes "frame-ancestors 'none'; form-action 'self'\r\n\r\n"

-- The type of each asset in the arms of `handle`.
abbrev asset_type : Text → Text
asset_type name =
    if text_eq name (codes "app.css")
    then codes "text/css; charset=utf-8"
    else if text_eq name (codes "app.js")
    then codes "text/javascript; charset=utf-8"
    else codes "text/html; charset=utf-8"

module _ (socket : Socket) where
  -- `write_response`, and the buffers that the socket took.
  unfoldable pub write_response : ℕ → Text → List ℕ → Result Text (Unit {0}) × List (List ℕ)
  write_response status content_type body =
      let head = bytes (head_text status content_type (length body)) in
      elim (socket.write_all head) [
        | err e ↦ (err e, [])
        | ok _ ↦ elim (socket.write_all body) [
          | err e ↦ (err e, head ∷ [])
          | ok _ ↦ (socket.flush, head ∷ body ∷ [])
        ]
      ]

  -- `write_asset` and `write_json`
  unfoldable pub write_content : ℕ → Content → Result Text (Unit {0}) × List (List ℕ)
  write_content status (Content.asset name) =
      write_response status (asset_type name) (socket.asset name)
  write_content status (Content.json v) = elim (socket.to_vec v) [
    | err e ↦ (err e, [])
    | ok body ↦ write_response status (codes "application/json; charset=utf-8") body
  ]

  -- `handle` on a connection: its result, the buffers that it wrote and what it leaves.
  unfoldable pub handle_stream :
      Server → Ending → List ℕ → World → Result Text (Unit {0}) × List (List ℕ) × World
  handle_stream server ending sent w = elim (read_request ending sent) [
    | err e ↦ (err e, [], w)
    | ok r ↦
        let (answered, w') = handle server (request_of r) w in
        elim answered [
          | err e ↦ (err e, [], w')
          | ok response ↦
              let (result, written) = write_content response.status response.content in
              (result, written, w')
        ]
  ]
