-- ===== src/ControlCenter/Exchange/Admission.antt =====
-- What the bytes of a peer can do to the server.
use kitt_assistant.Base.{
  ok-injective, length-drop, take-append-drop, length-append, append_assoc, refl, ◌≡◌, ◌⊎◌, inl,
  inr, sym, ap, subst, ◌∙◌, Bool, true, false, List, [], ◌∷◌, ◌++◌, ℕ, ◌+◌, ◌-◌, ◌≤◌, arith, Text,
  ltb, leb, Result, ok, ◌>>◌, refuse_if, ok_or, length, take, drop, codes, Bool-cases, Result-cases,
  >>=-eq-ok,
}
use kitt_assistant.ControlCenter.Requests.{World, Server, handle}
use kitt_assistant.ControlCenter.Requests.Guards.{IsAdmitted, handle-IsAdmitted}
use kitt_assistant.ControlCenter.Exchange.{
  max_header_bytes, max_body_bytes, lines_of, unread, Ending, line_text, Headers, split_colon,
  is_empty_line, entry, read_headers, declared_length, Received, request_line, read_body,
  first_line, read_request, request_of, Socket, handle_stream, join_first,
}

unread-join_first : (b : ℕ) (lines : List (List ℕ)) → unread (join_first b lines) ≡ b ∷ unread lines
unfolding unread
unread-join_first b [] = refl
unread-join_first b (line ∷ lines) = refl

pub unread-lines_of : (s : List ℕ) → unread (lines_of s) ≡ s
unfolding unread lines_of
unread-lines_of [] = refl
unread-lines_of (b ∷ bs) = ground (arith, unread-lines_of bs, unread-join_first b (lines_of bs))

-- Lines that were read from those of a text, of at most so many bytes.
record Takes (lines : List (List ℕ)) (limit : ℕ) (rest : List (List ℕ)) : Type 0 where
  head : List ℕ
  splits : unread lines ≡ head ++ unread rest
  fits : length head ≤ limit

passes :
    {B : Type 0} (b : Bool) (why : Text) (rest : Result Text B) {end : B}
    → (refuse_if b why >> rest) ≡ ok end
    → (b ≡ false) × (rest ≡ ok end)
passes true why rest e = cc
passes false why rest e = (refl, e)

ends_here_or_later :
    {B : Type 0} (b : Bool) (here later : Result Text B) {end : B}
    → elim b as (λ b. Result Text B) [ true ↦ here | false ↦ later ] ≡ ok end
    → (here ≡ ok end) ⊎ (later ≡ ok end)
ends_here_or_later true here later e = inl e
ends_here_or_later false here later e = inr e

one_more :
    (line : List ℕ) (lines rest : List (List ℕ)) (n : ℕ)
    → n + length line ≤ max_header_bytes
    → Takes lines (max_header_bytes - (n + length line)) rest
    → Takes (line ∷ lines) (max_header_bytes - n) rest
unfolding unread
one_more line lines rest n small t = record {
  head = line ++ t.head;
  splits = ap (λ s. line ++ s) t.splits ∙ sym (append_assoc line t.head (unread rest));
  fits = omega (arith, length-append line t.head, t.fits);
}

only_one :
    (line : List ℕ) (lines : List (List ℕ)) (n : ℕ)
    → n + length line ≤ max_header_bytes
    → Takes (line ∷ lines) (max_header_bytes - n) lines
unfolding unread
only_one line lines n small = record { head = line; splits = refl; fits = omega arith }

read_headers-Takes :
    (ending : Ending) (lines : List (List ℕ)) (n : ℕ) (headers : Headers)
    {end : Headers × List (List ℕ)}
    → read_headers ending lines n headers ≡ ok end
    → Takes lines (max_header_bytes - n) end.1 × (n ≤ max_header_bytes)
unfolding read_headers
read_headers-Takes ending [] n headers e = elim (Result-cases ending) [
  | inl (closed, c) ↦ cc
  | inr (why, c) ↦ cc
]
read_headers-Takes ending (line ∷ lines) n headers {end} e =
    let (text, read, e₁) = >>=-eq-ok (line_text ending line) _ e in
    let (small, e₂) =
      passes (ltb max_header_bytes (n + length line)) (codes "headers too large") _ e₁ in
    let fits : n + length line ≤ max_header_bytes = ground arith in
    elim (ends_here_or_later (is_empty_line text) (ok (headers, lines)) _ e₂) [
      | inl last ↦
          let same : lines ≡ end.1 = ap (λ p. p.1) (ok-injective last) in
          (
            subst (λ rest. Takes (line ∷ lines) (max_header_bytes - n) rest) same
                (only_one line lines n fits),
            omega arith,
          )
      | inr more ↦
          let (parts, cut, later) =
            >>=-eq-ok (ok_or (split_colon text) (codes "invalid header")) _ more in
          let (taken, small') =
            read_headers-Takes ending lines (n + length line) (entry parts ∷ headers) later in
          (one_more line lines end.1 n fits taken, omega arith)
    ]

first_line-Takes :
    (ending : Ending) (lines : List (List ℕ)) {first : Text × ℕ × List (List ℕ)}
    → first_line ending lines ≡ ok first
    → Takes lines first.1 first.2
unfolding unread
first_line-Takes ending [] {first} e =
    let (closed, c, e₁) = >>=-eq-ok ending _ e in
    subst (λ f. Takes [] f.1 f.2) (ok-injective e₁)
      (record { head = []; splits = refl; fits = omega arith })
first_line-Takes ending (line ∷ lines) {first} e =
    let (text, read, e₁) = >>=-eq-ok (line_text ending line) _ e in
    subst (λ f. Takes (line ∷ lines) f.1 f.2) (ok-injective e₁)
      (record { head = line; splits = refl; fits = omega arith })

length-take : (n : ℕ) (s : List ℕ) → n ≤ length s → length (take n s) ≡ n
length-take n s small =
    let whole : length (take n s) + length (drop n s) ≡ length s =
      sym (length-append (take n s) (drop n s)) ∙ ap length (take-append-drop n s) in
    omega (arith, whole, length-drop n s)

read_body-Takes :
    (ending : Ending) (lines : List (List ℕ)) (n : ℕ) {body : List ℕ}
    → read_body ending lines n ≡ ok body
    → (length body ≡ n) × ((after : List ℕ) × (unread lines ≡ body ++ after))
unfolding read_body
read_body-Takes ending lines n {body} e = elim (Bool-cases (leb n (length (unread lines)))) [
  | inl enough ↦
      let same : take n (unread lines) ≡ body = ok-injective (rw enough at e) in
      (
        ap length (sym same) ∙ length-take n (unread lines) (ground arith),
        (
          drop n (unread lines),
          sym (take-append-drop n (unread lines)) ∙ ap (λ s. s ++ drop n (unread lines)) same,
        ),
      )
  | inr short ↦ let (closed, c, e₁) = >>=-eq-ok ending _ (rw short at e) in cc
]

-- A request that was read: how the bytes of the peer divide.
pub record IsFramed (sent : List ℕ) (r : Received) : Type 0 where
  pub head : List ℕ
  pub after : List ℕ
  pub splits : sent ≡ head ++ (r.body ++ after)
  pub head_fits : length head ≤ max_header_bytes
  pub body_fits : length r.body ≤ max_body_bytes
  pub declared : declared_length r.headers ≡ ok (length r.body)

-- The parts of a request, one behind the other.
framed :
    (sent : List ℕ) (method path : Text) (headers : Headers) (body : List ℕ) {m n : ℕ}
    {behind rest : List (List ℕ)}
    → Takes (lines_of sent) m behind
    → Takes behind (max_header_bytes - m) rest
    → m ≤ max_header_bytes
    → (length body ≡ n) × ((after : List ℕ) × (unread rest ≡ body ++ after))
    → declared_length headers ≡ ok n
    → n ≤ max_body_bytes
    → IsFramed sent (record { method = method; path = path; headers = headers; body = body })
framed sent method path headers body first more fits (exact, (after, e)) declared small = record {
  head = first.head ++ more.head;
  after = after;
  splits =
      sym (unread-lines_of sent)
      ∙ first.splits
      ∙ ap (λ s. first.head ++ s) (more.splits ∙ ap (λ s. more.head ++ s) e)
      ∙ sym (append_assoc first.head more.head (body ++ after));
  head_fits = omega (arith, length-append first.head more.head, first.fits, more.fits);
  body_fits = omega arith;
  declared = declared ∙ ap ok (sym exact);
}

-- A request that is read stands at the start of the bytes: a head of at most 32 KiB, and then a body of
-- exactly the declared length, of at most 256 KiB.
pub read_request-IsFramed :
    (ending : Ending) (sent : List ℕ) {r : Received}
    → read_request ending sent ≡ ok r
    → IsFramed sent r
unfolding read_request
read_request-IsFramed ending sent {r} e =
    let (first, e_first, e₁) = >>=-eq-ok (first_line ending (lines_of sent)) _ e in
    let (target, e_target, e₂) = >>=-eq-ok (request_line first.0) _ e₁ in
    let (head, e_head, e₃) = >>=-eq-ok (read_headers ending first.2 first.1 []) _ e₂ in
    let (n, e_length, e₄) = >>=-eq-ok (declared_length head.0) _ e₃ in
    let (small, e₅) = passes (ltb max_body_bytes n) (codes "request body too large") _ e₄ in
    let (body, e_body, e₆) = >>=-eq-ok (read_body ending head.1 n) _ e₅ in
    let whole =
      framed sent target.0 target.1 head.0 body (first_line-Takes ending (lines_of sent) e_first)
        (read_headers-Takes ending first.2 first.1 [] e_head).0
        (read_headers-Takes ending first.2 first.1 [] e_head).1
        (read_body-Takes ending head.1 n e_body) e_length (ground arith) in
    subst (λ q. IsFramed sent q) (ok-injective e₆) whole

-- The request of a peer that may change something, as it was read.
pub record IsAuthorised (server : Server) (ending : Ending) (sent : List ℕ) : Type 0 where
  pub received : Received
  pub read : read_request ending sent ≡ ok received
  pub framed : IsFramed sent received
  pub admitted : IsAdmitted server (request_of received)

-- Whatever bytes a peer sends, and however they end, it leaves the overlay file and the calls as they are,
-- unless they start with a head of at most 32 KiB and then a body of exactly the declared length,
-- of at most 256 KiB, and the headers name the loopback interface with the server's port as Host,
-- the server as Origin and the server's token, on a POST, PUT, DELETE or PATCH.
pub handle_stream-IsAuthorised :
    (socket : Socket) (server : Server) (ending : Ending) (sent : List ℕ) (w : World)
    → ((handle_stream socket server ending sent w).2 ≡ w) ⊎ IsAuthorised server ending sent
unfolding handle_stream
handle_stream-IsAuthorised socket server ending sent w =
    elim (Result-cases (read_request ending sent)) [
      | inr (why, e) ↦ rw (e, handle_stream) (inl refl)
      | inl (r, e) ↦ elim (handle-IsAdmitted server (request_of r) w) [
        | inr admitted ↦ inr (record {
          received = r;
          read = e;
          framed = read_request-IsFramed ending sent e;
          admitted = admitted;
        })
        | inl kept ↦ elim (Result-cases (handle server (request_of r) w).0) [
          | inl (response, f) ↦ rw (e, f, handle_stream) (inl kept)
          | inr (why, f) ↦ rw (e, f, handle_stream) (inl kept)
        ]
      ]
    ]
