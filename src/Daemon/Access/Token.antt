-- ===== src/Daemon/Access/Token.antt =====
-- The file that keeps the daemon's token, and the addresses that a start accepts.
use kitt_assistant.Base.{
  is_ascii_hexdigit, refl, ◌≡◌, inl, inr, ap, subst, Bool, true, not, ◌&&◌, ◌||◌, Option, none,
  some, ◌++◌, arith, Text, leb, if◌then◌else◌, Result, ok, err, ◌>>=◌, ◌>>◌, refuse_if, ok_or,
  map_err, length, all, codes, bytes, Bool-cases, Option-cases, Result-cases, trim, >>=-eq-ok,
}
use kitt_assistant.Url.{Net, eq_ignore_ascii_case}

-- `valid_token`
unfoldable pub valid_token : Text → Bool
valid_token token = leb 48 (length (bytes token)) && all is_ascii_hexdigit (bytes token)

-- What the file system answers, the same at each question.
pub record TokenFiles : Type 0 where
  pub create_dir_all : Result Text (Unit {0})
  pub read_to_string : Text → Result Text Text
  pub write : Result Text (Unit {0})
  pub set_private_permissions : Result Text (Unit {0})

-- Both branches of `load_or_create_token`, with the file after each.
module _ (files : TokenFiles) where
  -- A new token, from two fresh identifiers.
  unfoldable pub new_token : Text → Option Text → Result Text Text × Option Text
  new_token fresh file = elim files.write [
    | err e ↦ (err e, file)
    | ok _ ↦ (
      (do
        files.set_private_permissions
        refuse_if (not (valid_token fresh)) (codes "generated authentication token is invalid")
        ok fresh),
      some fresh,
    )
  ]

  -- A file that exists.
  unfoldable pub kept_or_new : Text → Text → Result Text Text × Option Text
  kept_or_new fresh content = elim (files.read_to_string content) [
    | err e ↦ (err e, some content)
    | ok text ↦
        if valid_token (trim text)
        then ((files.set_private_permissions >>= λ _. ok (trim text)), some content)
        else new_token fresh (some content)
  ]

  unfoldable pub load_or_create_token : Text → Option Text → Result Text Text × Option Text
  load_or_create_token fresh file = elim files.create_dir_all [
    | err e ↦ (err e, file)
    | ok _ ↦ elim file [ none ↦ new_token fresh none | some content ↦ kept_or_new fresh content ]
  ]

  new_token-eq-ok :
      (fresh token : Text) (file file' : Option Text)
      → new_token fresh file ≡ (ok token, file')
      → (valid_token token ≡ true)
        × (file' ≡ some token)
        × (fresh ≡ token)
        × (files.set_private_permissions ≡ ok tt)
  unfolding new_token
  new_token-eq-ok fresh token file file' e = ground arith

  -- A stored token that is valid is given again.
  reload_token :
      (fresh token content : Text)
      → files.create_dir_all ≡ ok tt
      → files.set_private_permissions ≡ ok tt
      → files.read_to_string content ≡ ok content
      → trim content ≡ token
      → valid_token token ≡ true
      → load_or_create_token fresh (some content) ≡ (ok token, some content)
  unfolding load_or_create_token kept_or_new
  reload_token fresh token content made private readable t v =
      rw made (rw readable (rw t (rw v (rw private refl))))

  created_again :
      (fresh fresh' token : Text) (file file' : Option Text)
      → ((content : Text) → files.read_to_string content ≡ ok content)
      → trim fresh ≡ fresh
      → files.create_dir_all ≡ ok tt
      → new_token fresh file ≡ (ok token, file')
      → (valid_token token ≡ true) × (load_or_create_token fresh' file' ≡ (ok token, file'))
  created_again fresh fresh' token file file' reads neat made e =
      let (valid, stored, same, private) = new_token-eq-ok fresh token file file' e in
      (
        valid,
        rw stored (
            reload_token fresh' token token made private (reads token)
              (subst (λ t. trim t ≡ t) same neat) valid),
      )

  kept_again :
      (fresh fresh' token content : Text) (file' : Option Text)
      → ((content : Text) → files.read_to_string content ≡ ok content)
      → files.create_dir_all ≡ ok tt
      → valid_token (trim content) ≡ true
      → ◌≡◌ {A = Result Text Text × Option Text}
          ((files.set_private_permissions >>= λ _. ok (trim content)), some content)
          (ok token, file')
      → (valid_token token ≡ true) × (load_or_create_token fresh' file' ≡ (ok token, file'))
  kept_again fresh fresh' token content file' reads made valid e =
      let (_, private, e₁) = >>=-eq-ok files.set_private_permissions _ (ap (λ r. r.0) e) in
      let same : trim content ≡ token = ground arith in
      let unchanged = ap (λ r. r.1) e in
      let valid' = subst (λ t. valid_token t ≡ true) same valid in
      (
        valid',
        subst (λ f. load_or_create_token fresh' f ≡ (ok token, f)) unchanged
            (reload_token fresh' token content made private (reads content) same valid'),
      )

  -- A start that gets a token gets a valid one, of at least 48 hexadecimal digits, and each later start gets the
  -- same, whatever identifiers it is offered, and leaves the file alone. The file is read back as it
  -- was written, and a new token has no white space at its ends.
  load_or_create_token-Again :
      (fresh fresh' token : Text) (file file' : Option Text)
      → ((content : Text) → files.read_to_string content ≡ ok content)
      → trim fresh ≡ fresh
      → load_or_create_token fresh file ≡ (ok token, file')
      → (valid_token token ≡ true) × (load_or_create_token fresh' file' ≡ (ok token, file'))
  unfolding load_or_create_token kept_or_new
  load_or_create_token-Again fresh fresh' token file file' reads neat e =
      elim (Result-cases files.create_dir_all) [
        | inr (x, failed) ↦ absurd (ground arith)
        | inl (_, made) ↦ elim (Option-cases file) [
          | inl absent ↦ created_again fresh fresh' token none file' reads neat made (ground arith)
          | inr (content, there) ↦
              let f = reads content in
              elim (Bool-cases (valid_token (trim content))) [
                | inl valid ↦
                    kept_again fresh fresh' token content file' reads made valid (ground (arith, f))
                | inr broken ↦
                    created_again fresh fresh' token (some content) file' reads neat made
                      (ground (arith, f))
              ]
        ]
      ]

-- `validate_loopback`; the parser of socket addresses says whether the address is a loopback one.
unfoldable pub validate_loopback : Result Text Bool → Result Text (Unit {0})
validate_loopback parsed = do
  is_loopback ← map_err (λ e. codes "invalid listen address: " ++ e) parsed
  refuse_if (not is_loopback) (codes "kittd only permits loopback listen addresses")
  ok tt

-- `validate_provider_locality`
unfoldable pub validate_provider_locality :
    Net → (local : Bool) (base_url : Text) → Result Text (Unit {0})
validate_provider_locality net local base_url = if not local then ok tt else (do
  parsed ← map_err (λ e. codes "invalid provider base_url: " ++ e) (net.parse base_url)
  host ← ok_or parsed.host_str (codes "provider base_url has no host")
  refuse_if (not (eq_ignore_ascii_case host (codes "localhost") || net.is_loopback_ip host)) (
      codes
        "local_provider=true requires a loopback provider URL; set local_provider=false for remote endpoints")
  ok tt)
