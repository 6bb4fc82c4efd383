-- ===== src/ControlCenter/Exchange/Reading.antt =====
-- A plain request, as a browser writes it, is read back.
use kitt_assistant.Base.{
  append-nil, le→leb, append_assoc, length-append, split_by, split_whitespace, is_whitespace,
  trim_start, trim_end, from_utf8-ascii, All-append, refl, ◌≡◌, ◌≢◌, sym, ap, subst, ◌∙◌, Bool,
  true, false, not, some, List, [], ◌∷◌, ◌++◌, map, reverse, ℕ, ◌+◌, ◌≤◌, ◌<◌, arith, Text, ltb,
  leb, ok, length, take, All, codes, text_eq, trim, to_ascii_lowercase, retain,
}
use mathlib.Core.List.{reverse-append, reverse-reverse}
use kitt_assistant.ControlCenter.Exchange.Admission.{unread-lines_of}
use kitt_assistant.ControlCenter.Exchange.{
  max_header_bytes, max_body_bytes, lines_of, is_ended, Ending, line_text, Headers, split_colon,
  is_empty_line, entry, read_headers, declared_length, before_query, Received, request_line,
  read_body, read_request,
}

-- What stands in a line before its newline.
abbrev first_content : Text → Text → Text
first_content method path = method ++ (b' ' ∷ (path ++ (b' ' ∷ codes "HTTP/1.1\r")))

abbrev header_content : Text × Text → Text
header_content (name, value) = name ++ (b':' ∷ b' ' ∷ (value ++ codes "\r"))

abbrev line : Text → Text
line content = content ++ (b'\n' ∷ [])

unfoldable pub print_headers : Headers → Text
print_headers [] = []
print_headers (h ∷ headers) = line (header_content h) ++ print_headers headers

-- The text of a request before its body.
abbrev pub print_head : Received → Text
print_head r =
    line (first_content r.method r.path) ++ (print_headers r.headers ++ line (codes "\r"))

-- A byte of a line; of the method, the path or a name; and of a name.
abbrev IsLineByte : ℕ → Type 0
IsLineByte b = (b < 128) × (b ≢ b'\n')

abbrev IsWordByte : ℕ → Type 0
IsWordByte b = (b < 128) × (is_whitespace b ≡ false)

abbrev IsNameByte : ℕ → Type 0
IsNameByte b = IsWordByte b × (b ≢ b':') × (to_ascii_lowercase b ≡ b)

abbrev is_bare : Text → Bool
is_bare [] = true
is_bare (c ∷ s) = not (is_whitespace c)

-- A header with a name in lower case, and a value without white space around it.
pub record IsPlainHeader (h : Text × Text) : Type 0 where
  pub named : h.0 ≢ []
  pub name_bytes : All IsNameByte h.0
  pub value_bytes : All IsLineByte h.1
  pub bare_start : is_bare h.1 ≡ true
  pub bare_end : is_bare (reverse h.1) ≡ true

pub record IsPlain (r : Received) : Type 0 where
  pub has_method : r.method ≢ []
  pub method_bytes : All IsWordByte r.method
  pub has_path : r.path ≢ []
  pub path_bytes : All (λ b. IsWordByte b × (b ≢ b'?')) r.path
  pub plain_headers : All IsPlainHeader r.headers
  pub declared : declared_length (reverse r.headers) ≡ ok (length r.body)
  pub head_fits : length (print_head r) ≤ max_header_bytes
  pub body_fits : length r.body ≤ max_body_bytes

All-map : {P Q : ℕ → Type 0} (s : Text) → ((b : ℕ) → P b → Q b) → All P s → All Q s
All-map [] f h = tt
All-map (b ∷ s) f (p, h) = (f b p, All-map s f h)

lines_of-line :
    (s rest : Text) → All IsLineByte s → lines_of (line s ++ rest) ≡ line s ∷ lines_of rest
unfolding lines_of
lines_of-line [] rest h = refl
lines_of-line (b ∷ s) rest (plain, h) = ground (arith, lines_of-line s rest h)

is_ended-line : (s : Text) → is_ended (line s) ≡ true
unfolding is_ended
is_ended-line [] = refl
is_ended-line (b ∷ []) = refl
is_ended-line (b ∷ c ∷ s) = is_ended-line (c ∷ s)

line_text-line :
    (ending : Ending) (s : Text) → All IsLineByte s → line_text ending (line s) ≡ ok (line s)
unfolding line_text
line_text-line ending s h =
    let ascii : All (λ b. b < 128) (line s) =
      All-append (λ b. b < 128) s (b'\n' ∷ []) (All-map s (λ b plain. plain.0) h)
        (omega arith, tt) in
    rw (is_ended-line s, from_utf8-ascii (line s) ascii) refl

split_by-word :
    (p : ℕ → Bool) (w : Text) (c : ℕ) (s : Text)
    → All (λ b. p b ≡ false) w
    → p c ≡ true
    → split_by p (w ++ (c ∷ s)) ≡ w ∷ split_by p s
unfolding split_by
split_by-word p [] c s h e = rw e refl
split_by-word p (b ∷ w) c s (f, h) e = rw (f, split_by-word p w c s h e) refl

split_colon-name :
    (n s : Text) → All (λ b. b ≢ b':') n → split_colon (n ++ (b':' ∷ s)) ≡ some (n, s)
unfolding split_colon
split_colon-name [] s h = refl
split_colon-name (b ∷ n) s (other, h) = ground (arith, split_colon-name n s h)

before_query-path : (s : Text) → All (λ b. b ≢ b'?') s → before_query s ≡ s
unfolding before_query
before_query-path [] h = refl
before_query-path (b ∷ s) (other, h) = ground (arith, before_query-path s h)

trim_start-bare : (s : Text) → is_bare s ≡ true → trim_start s ≡ s
unfolding trim_start
trim_start-bare [] h = refl
trim_start-bare (c ∷ s) h = ground arith

take-length-append : (s t : List ℕ) → take (length s) (s ++ t) ≡ s
take-length-append [] t = refl
take-length-append (b ∷ s) t = ap (λ x. b ∷ x) (take-length-append s t)

line_byte : (b : ℕ) → IsWordByte b → IsLineByte b
unfolding is_whitespace
line_byte b (small, bare) = ground arith

reverse-bytes : (P : ℕ → Type 0) (s : Text) → All P s → All P (reverse s)
reverse-bytes P [] h = tt
reverse-bytes P (b ∷ s) (p, h) =
    subst (λ t. All P t) (sym (reverse-append (b ∷ []) s))
      (All-append P (reverse s) (b ∷ []) (reverse-bytes P s h) (p, tt))

bare-IsBare : (s : Text) → All (λ b. is_whitespace b ≡ false) s → is_bare s ≡ true
bare-IsBare [] h = refl
bare-IsBare (b ∷ s) (e, h) = rw e refl

trim-bare : (s : Text) → is_bare s ≡ true → is_bare (reverse s) ≡ true → trim s ≡ s
unfolding trim trim_end
trim-bare s start end =
    rw (trim_start-bare s start, trim_start-bare (reverse s) end) (reverse-reverse s)

reverse-line_end : (v : Text) → reverse (line (v ++ codes "\r")) ≡ b'\n' ∷ b'\r' ∷ reverse v
reverse-line_end v =
    reverse-append (v ++ codes "\r") (b'\n' ∷ [])
    ∙ ap (λ s. b'\n' ∷ s) (reverse-append v (codes "\r"))

trim_end-line_end : (v : Text) → is_bare (reverse v) ≡ true → trim_end (line (v ++ codes "\r")) ≡ v
unfolding trim_end trim_start is_whitespace
trim_end-line_end v end =
    rw (reverse-line_end v, trim_start-bare (reverse v) end) (reverse-reverse v)

-- The space behind the colon and the line end go.
trim-value :
    (v : Text)
    → is_bare v ≡ true
    → is_bare (reverse v) ≡ true
    → trim (b' ' ∷ line (v ++ codes "\r")) ≡ v
unfolding trim trim_end trim_start is_whitespace
trim-value [] start end = refl
trim-value (c ∷ s) start end =
    rw (trim_start-bare (line ((c ∷ s) ++ codes "\r")) start) (trim_end-line_end (c ∷ s) end)

lowered-name : (n : Text) → All IsNameByte n → map to_ascii_lowercase n ≡ n
lowered-name [] h = refl
lowered-name (b ∷ n) (p, h) = cc (p.2, lowered-name n h)

entry-header :
    (n v : Text) → IsPlainHeader (n, v) → entry (n, b' ' ∷ line (v ++ codes "\r")) ≡ (n, v)
entry-header n v h =
    let bare = bare-IsBare n (All-map n (λ b p. p.0.1) h.name_bytes) in
    let bare_end =
      bare-IsBare (reverse n)
        (reverse-bytes (λ b. is_whitespace b ≡ false) n (All-map n (λ b p. p.0.1) h.name_bytes)) in
    rw (trim-bare n bare bare_end, trim-value v h.bare_start h.bare_end)
      (ap (λ m. (m, v)) (lowered-name n h.name_bytes))

first_words :
    (method path : Text)
    → All IsWordByte method
    → All IsWordByte path
    → split_by is_whitespace (line (first_content method path))
      ≡ method ∷ path ∷ codes "HTTP/1.1" ∷ [] ∷ [] ∷ []
unfolding split_by is_whitespace
first_words method path hm hp =
    ap (split_by is_whitespace) (
      append_assoc method (b' ' ∷ (path ++ (b' ' ∷ codes "HTTP/1.1\r"))) (b'\n' ∷ [])
      ∙ ap (λ s. method ++ (b' ' ∷ s)) (append_assoc path (b' ' ∷ codes "HTTP/1.1\r") (b'\n' ∷ [])))
    ∙ split_by-word is_whitespace method b' ' _ (All-map method (λ b q. q.1) hm) refl
    ∙ ap (λ words. method ∷ words)
        (split_by-word is_whitespace path b' ' _ (All-map path (λ b q. q.1) hp) refl)

request_line-first :
    (method path : Text)
    → method ≢ []
    → path ≢ []
    → All IsWordByte method
    → All (λ b. IsWordByte b × (b ≢ b'?')) path
    → request_line (line (first_content method path)) ≡ ok (method, path)
unfolding request_line split_whitespace retain
request_line-first [] path m p hm hp = absurd (m refl)
request_line-first (c ∷ method) [] m p hm hp = absurd (p refl)
request_line-first (c ∷ method) (d ∷ path) m p hm hp =
    rw (request_line, first_words (c ∷ method) (d ∷ path) hm (All-map (d ∷ path) (λ b q. q.0) hp))
      (ap (λ s. ok (c ∷ method, s))
        (before_query-path (d ∷ path) (All-map (d ∷ path) (λ b q. q.1) hp)))

header_parts :
    (n v : Text)
    → IsPlainHeader (n, v)
    → split_colon (line (header_content (n, v))) ≡ some (n, b' ' ∷ line (v ++ codes "\r"))
header_parts n v h =
    ap split_colon (append_assoc n (b':' ∷ b' ' ∷ (v ++ codes "\r")) (b'\n' ∷ []))
    ∙ split_colon-name n _ (All-map n (λ b q. q.1) h.name_bytes)

header-IsLine : (n v : Text) → IsPlainHeader (n, v) → All IsLineByte (header_content (n, v))
header-IsLine n v h = All-append IsLineByte n _ (All-map n (λ b q. line_byte b q.0) h.name_bytes) (
  (omega arith, λ e. omega arith),
  (
    (omega arith, λ e. omega arith),
    All-append IsLineByte v _ h.value_bytes ((omega arith, λ e. omega arith), tt),
  ),
)

not_line_end : (b : ℕ) → is_whitespace b ≡ false → (b ≢ b'\r') × (b ≢ b'\n')
unfolding is_whitespace
not_line_end b e = (ground arith, ground arith)

header_not_empty :
    (n v : Text) → IsPlainHeader (n, v) → is_empty_line (line (header_content (n, v))) ≡ false
unfolding text_eq
header_not_empty [] v h = absurd (h.named refl)
header_not_empty (b ∷ n) v h =
    let (no_return, no_newline) = not_line_end b h.name_bytes.0.0.1 in ground arith

read_header :
    (ending : Ending) (n v : Text) (rest : Text) (read_bytes : ℕ) (seen : Headers)
    → IsPlainHeader (n, v)
    → read_bytes + length (line (header_content (n, v))) ≤ max_header_bytes
    → read_headers ending (lines_of (line (header_content (n, v)) ++ rest)) read_bytes seen
      ≡ read_headers ending
          (lines_of rest)
          (read_bytes + length (line (header_content (n, v))))
          ((n, v) ∷ seen)
unfolding read_headers
read_header ending n v rest read_bytes seen h small =
    let plain = header-IsLine n v h in
    let fits : ltb max_header_bytes (read_bytes + length (line (header_content (n, v)))) ≡ false =
      ground arith in
    rw (lines_of-line (header_content (n, v)) rest plain) (
      rw
        (
          line_text-line ending (header_content (n, v)) plain,
          fits,
          header_not_empty n v h,
          header_parts n v h,
        )
        (ap
          (λ e.
            read_headers ending (lines_of rest) (read_bytes + length (line (header_content (n, v))))
              (e ∷ seen))
          (entry-header n v h)))

return_line : All IsLineByte (codes "\r")
return_line = ((omega arith, λ e. omega arith), tt)

read_end :
    (ending : Ending) (rest : Text) (read_bytes : ℕ) (seen : Headers)
    → read_bytes + 2 ≤ max_header_bytes
    → read_headers ending (lines_of (line (codes "\r") ++ rest)) read_bytes seen
      ≡ ok (seen, lines_of rest)
unfolding read_headers text_eq
read_end ending rest read_bytes seen small =
    let fits : ltb max_header_bytes (read_bytes + 2) ≡ false = ground arith in
    ap (λ lines. read_headers ending lines read_bytes seen)
      (lines_of-line (codes "\r") rest return_line)
    ∙ rw (line_text-line ending (codes "\r") return_line, fits) refl

head_size :
    (content : Text) (headers : Headers)
    → length ((content ++ print_headers headers) ++ line (codes "\r"))
      ≡ length content + length (print_headers headers ++ line (codes "\r"))
head_size content headers =
    ap length (append_assoc content (print_headers headers) (line (codes "\r")))
    ∙ length-append content (print_headers headers ++ line (codes "\r"))

order_kept :
    (h : Text × Text) (headers seen : Headers)
    → reverse headers ++ (h ∷ seen) ≡ reverse (h ∷ headers) ++ seen
order_kept h headers seen =
    sym (append_assoc (reverse headers) (h ∷ []) seen)
    ∙ ap (λ hs. hs ++ seen) (sym (reverse-append (h ∷ []) headers))

read_headers-print :
    (ending : Ending) (headers : Headers) (rest : Text) (read_bytes : ℕ) (seen : Headers)
    → All IsPlainHeader headers
    → read_bytes + length (print_headers headers ++ line (codes "\r")) ≤ max_header_bytes
    → read_headers ending
        (lines_of ((print_headers headers ++ line (codes "\r")) ++ rest))
        read_bytes
        seen
      ≡ ok (reverse headers ++ seen, lines_of rest)
unfolding print_headers
read_headers-print ending [] rest read_bytes seen h small =
    read_end ending rest read_bytes seen small
read_headers-print ending ((n, v) ∷ headers) rest read_bytes seen (p, h) small =
    let content = line (header_content (n, v)) in
    ap (λ s. read_headers ending (lines_of s) read_bytes seen)
      (ap (λ s. s ++ rest) (append_assoc content (print_headers headers) (line (codes "\r")))
        ∙ append_assoc content (print_headers headers ++ line (codes "\r")) rest)
    ∙ read_header ending n v _ read_bytes seen p (omega (arith, head_size content headers))
    ∙ read_headers-print ending headers rest (read_bytes + length content) ((n, v) ∷ seen) h
        (omega (arith, head_size content headers))
    ∙ ap (λ hs. ok (hs, lines_of rest)) (order_kept (n, v) headers seen)

version_bytes : All IsLineByte (codes "HTTP/1.1\r")
version_bytes = ground arith

first-IsLine :
    (method path : Text)
    → All IsWordByte method
    → All IsWordByte path
    → All IsLineByte (first_content method path)
first-IsLine method path hm hp =
    let word_bytes : (w : Text) → All IsWordByte w → All IsLineByte w = λ w. All-map w line_byte in
    let space : IsLineByte b' ' = (omega arith, λ e. omega arith) in
    All-append IsLineByte method _ (word_bytes method hm)
      (space, All-append IsLineByte path _ (word_bytes path hp) (space, version_bytes))

read_body-back :
    (ending : Ending) (body after : List ℕ)
    → read_body ending (lines_of (body ++ after)) (length body) ≡ ok body
unfolding read_body
read_body-back ending body after =
    let enough : leb (length body) (length (body ++ after)) ≡ true =
      le→leb _ _ (omega (arith, length-append body after)) in
    rw (unread-lines_of (body ++ after), enough) (ap ok (take-length-append body after))

-- A plain request is read as it is, with its headers from the last to the first, whatever the peer sends
-- behind it and however it ends.
pub read_request-print :
    (ending : Ending) (r : Received) (after : List ℕ)
    → IsPlain r
    → read_request ending (print_head r ++ (r.body ++ after))
      ≡ ok (record r { headers = reverse r.headers })
unfolding read_request
read_request-print ending r after h =
    let first = line (first_content r.method r.path) in
    let rest = print_headers r.headers ++ line (codes "\r") in
    let path_words = All-map r.path (λ b q. q.0) h.path_bytes in
    let plain = first-IsLine r.method r.path h.method_bytes path_words in
    let cut : lines_of (print_head r ++ (r.body ++ after))
        ≡ first ∷ lines_of (rest ++ (r.body ++ after)) =
      ap lines_of (append_assoc first rest (r.body ++ after)) ∙ lines_of-line _ _ plain in
    let head_fits : length first + length rest ≤ max_header_bytes =
      omega (arith, length-append first rest, h.head_fits) in
    let headers_read : read_headers ending (lines_of (rest ++ (r.body ++ after))) (length first) []
        ≡ ok (reverse r.headers, lines_of (r.body ++ after)) =
      read_headers-print ending r.headers (r.body ++ after) (length first) [] h.plain_headers
        head_fits
      ∙ ap (λ headers. ok (headers, lines_of (r.body ++ after))) (append-nil (reverse r.headers)) in
    let small : ltb max_body_bytes (length r.body) ≡ false = ground arith in
    let read = line_text-line ending (first_content r.method r.path) plain in
    rw
      (
        cut,
        read,
        request_line-first r.method r.path h.has_method h.has_path h.method_bytes h.path_bytes,
      )
      (rw (headers_read, h.declared, small, read_body-back ending r.body after) refl)
