-- ===== src/ControlCenter/Requests/Guards.antt =====
-- `handle`: which requests can change something.
use kitt_assistant.Base.{
  refl, ◌≡◌, ◌⊎◌, inl, inr, sym, ap, subst, Bool, true, false, not, ◌&&◌, Option, none, some, List,
  [], ◌∷◌, ℕ, arith, Text, All, text_eq, text_eq_iff, Bool-cases, and-true,
}
use kitt_assistant.ControlCenter.Json.{is_text}
use kitt_assistant.ControlCenter.Requests.{
  Route, Request, World, Server, perform, handle, routes, route_in, is_changing, valid_host,
  same_origin,
}

-- A route that changes nothing.
abbrev IsSafe : Route → Type 1
IsSafe r = (server : Server) (body : List ℕ) (w : World) → (perform server r body w).1 ≡ w

-- An arm whose method is inl refl, or that changes nothing.
abbrev IsCovered : Text × Text × Route → Type 1
IsCovered (m, p, r) = (is_changing m ≡ true) ⊎ IsSafe r

routes-IsCovered : All IsCovered routes
unfolding is_changing text_eq perform
routes-IsCovered = (
  inr (λ server body w. refl),
  (
    inr (λ server body w. refl),
    (
      inr (λ server body w. refl),
      (
        inr (λ server body w. refl),
        (
          inr (λ server body w. refl),
          (
            inr (λ server body w. refl),
            (
              inr (λ server body w. refl),
              (
                inl refl,
                (
                  inl refl,
                  (
                    inl refl,
                    (
                      inr (λ server body w. refl),
                      (
                        inr (λ server body w. refl),
                        (
                          inr (λ server body w. refl),
                          (
                            inl refl,
                            (
                              inl refl,
                              (inl refl, (inl refl, (inl refl, (inl refl, (inl refl, tt))))),
                            ),
                          ),
                        ),
                      ),
                    ),
                  ),
                ),
              ),
            ),
          ),
        ),
      ),
    ),
  ),
)

route_in-IsSafe :
    (table : List (Text × Text × Route)) (method path : Text)
    → All IsCovered table
    → is_changing method ≡ false
    → IsSafe (route_in table method path)
unfolding route_in perform
route_in-IsSafe [] method path h unchanging = λ server body w. refl
route_in-IsSafe ((m, p, r) ∷ table) method path (here, later) unchanging =
    elim (Bool-cases (text_eq method m && text_eq path p)) [
      | inr e ↦ rw (e, route_in) (route_in-IsSafe table method path later unchanging)
      | inl e ↦
          let same : method ≡ m = (text_eq_iff method m).0 (and-true _ _ e).0 in
          rw (e, route_in)
            (elim here [
              | inr safe ↦ safe
              | inl changing ↦
                  let wrong : is_changing method ≡ true =
                    subst (λ x. is_changing x ≡ true) (sym same) changing in
                  let impossible : ⊥ = cc in absurd impossible
            ])
    ]

-- The request has passed every check on requests that change something.
pub record IsAdmitted (server : Server) (r : Request) : Type 0 where
  pub host_is_loopback : valid_host r.host server.port ≡ true
  pub changing : is_changing r.method ≡ true
  pub from_here : same_origin r.origin server.port ≡ true
  pub knows_token : r.csrf ≡ some server.token

is_text-eq : (s : Text) (o : Option Text) → is_text s o ≡ true → o ≡ some s
is_text-eq s none e = cc
is_text-eq s (some t) e = ap some ((text_eq_iff t s).0 e)

negated : (b : Bool) → not b ≡ false → b ≡ true
negated true e = refl
negated false e = cc

allowed_if : (b c : Bool) → (b && not c) ≡ false → b ≡ true → c ≡ true
allowed_if b c e f = ground arith

-- A request leaves the overlay file and the calls as they are, unless its Host header names the loopback
-- interface with the server's port, its method is POST, PUT, DELETE or PATCH, its Origin header
-- names the server, and its token header is the server's token.
pub handle-IsAdmitted :
    (server : Server) (r : Request) (w : World) → ((handle server r w).1 ≡ w) ⊎ IsAdmitted server r
unfolding handle
handle-IsAdmitted server r w = elim (Bool-cases (not (valid_host r.host server.port))) [
  | inl e ↦ rw (e, handle) (inl refl)
  | inr e ↦ elim (Bool-cases (is_changing r.method && not (same_origin r.origin server.port))) [
    | inl f ↦ rw (e, f, handle) (inl refl)
    | inr f ↦ elim (Bool-cases (is_changing r.method && not (is_text server.token r.csrf))) [
      | inl g ↦ rw (e, f, g, handle) (inl refl)
      | inr g ↦ elim (Bool-cases (is_changing r.method)) [
        | inl c ↦ inr (record {
          host_is_loopback = negated _ e;
          changing = c;
          from_here = allowed_if (is_changing r.method) _ f c;
          knows_token = is_text-eq server.token r.csrf (allowed_if (is_changing r.method) _ g c);
        })
        | inr c ↦ inl (
            rw (e, f, g, handle)
              (route_in-IsSafe routes r.method r.path routes-IsCovered c server r.body w))
      ]
    ]
  ]
]
