-- ===== src/ControlCenter/Overlay/Outcome.antt =====
-- What the handler of `PUT /api/v1/config` answers, and what file it leaves.
use kitt_assistant.Base.{
  refl, ◌≡◌, ◌↔◌, ◌⊎◌, inl, inr, ap, subst, ◌∙◌, true, not, List, ◌++◌, ℕ, arith, Text, Result, ok,
  err, ◌>>◌, refuse_if, map_err, codes, Result-cases, >>=-eq-ok,
}
use kitt_assistant.ControlCenter.Json.{Json, as_u64, as_object, is_some, and_then, get, Doubles}
use kitt_assistant.ControlCenter.Overlay.Edits.{ok-injective}
use kitt_assistant.ControlCenter.Overlay.Applying.{Edited, edit_overlay-Edited}
use kitt_assistant.ControlCenter.Overlay.{
  Disk, File, edit_overlay, check_overlay, put_in_place, is_version_one, read_overlay, put_config,
  parse_json_body, write_overlay_atomic, applied_answer,
}

module _ (disk : Disk) where
  -- What a write leaves: the new content, unless it failed before the rename.
  abbrev Writes : File → Json → Result Text (Unit {0}) × File → Type 0
  Writes file value (ok _, file') =
      (content : List ℕ) × (disk.to_vec_pretty value ≡ ok content) × (file' ≡ ok content)
  Writes file value (err e, file') = (file' ≡ file) ⊎ (disk.set_private_file ≡ err e)

  pub put_in_place-content :
      (value : Json) (content : List ℕ)
      → put_in_place disk value ≡ ok content
      → disk.to_vec_pretty value ≡ ok content
  unfolding put_in_place
  put_in_place-content value content e =
      let (u, parent, e₁) =
        >>=-eq-ok (refuse_if (not disk.has_parent) (codes "overlay has no parent")) _ e in
      let (v, directory, e₂) = >>=-eq-ok disk.ensure_private_dir _ e₁ in
      let (bs, encoded, e₃) = >>=-eq-ok (disk.to_vec_pretty value) _ e₂ in
      let (w, stored, e₄) = >>=-eq-ok (disk.write_private bs) _ e₃ in
      let (x, renamed, e₅) =
        >>=-eq-ok (map_err (λ m. codes "replace overlay: " ++ m) disk.rename) _ e₄ in
      encoded ∙ e₅

  write_overlay_atomic-Writes :
      (file : File) (value : Json) → Writes file value (write_overlay_atomic disk file value)
  unfolding write_overlay_atomic
  write_overlay_atomic-Writes file value = elim (Result-cases (put_in_place disk value)) [
    | inr (x, e) ↦ rw (e, write_overlay_atomic) (inl refl)
    | inl (content, e) ↦
        rw (e, write_overlay_atomic)
          (after disk.set_private_file content refl (put_in_place-content value content e))
  ]
    where
      after :
          (r : Result Text (Unit {0})) (content : List ℕ)
          → disk.set_private_file ≡ r
          → disk.to_vec_pretty value ≡ ok content
          → Writes file value (r, ok content)
      after (ok u) content s h = (content, h, refl)
      after (err x) content s h = inr s

  check_overlay_iff :
      (value : Json)
      → (check_overlay value ≡ ok value) ↔ (
          (is_version_one (and_then (get (codes "schema_version") value) as_u64) ≡ true)
          × (is_some (and_then (get (codes "components") value) as_object) ≡ true))
  unfolding check_overlay
  check_overlay_iff value = (λ e. (ground arith, ground arith), λ (a, b). rw (a, b) refl)

  check_overlay-Edited :
      (ds : Doubles) (catalog payload old new : Json)
      → check_overlay old ≡ ok old
      → Edited ds catalog payload old new
      → check_overlay new ≡ ok new
  check_overlay-Edited ds catalog payload old new sound edited =
      let (version, components) = (check_overlay_iff old).0 sound in
      (check_overlay_iff new).1 (
        ap (λ o. is_version_one (and_then o as_u64)) edited.version ∙ version,
        ap (λ o. is_some (and_then o as_object)) edited.whole.1,
      )

  check_overlay-same : (value old : Json) → check_overlay value ≡ ok old → value ≡ old
  unfolding check_overlay
  check_overlay-same value old h =
      let (u, a, h₁) =
        >>=-eq-ok
          (refuse_if (not (is_version_one (and_then (get (codes "schema_version") value) as_u64)))
            (codes "unsupported overlay schema version"))
          _ h in
      let (v, b, h₂) =
        >>=-eq-ok
          (refuse_if (not (is_some (and_then (get (codes "components") value) as_object)))
            (codes "overlay components must be object"))
          _ h₁ in
      ok-injective value old h₂

  read_overlay-check_overlay :
      (file : File) (old : Json) → read_overlay disk file ≡ ok old → check_overlay old ≡ ok old
  unfolding read_overlay
  read_overlay-check_overlay file old e =
      let (content, found, e₁) = >>=-eq-ok (map_err (λ m. codes "read overlay: " ++ m) file) _ e in
      let (value, parsed, e₂) =
        >>=-eq-ok (map_err (λ m. codes "parse overlay: " ++ m) (disk.from_slice content)) _ e₁ in
      subst (λ v. check_overlay v ≡ ok old) (check_overlay-same value old e₂) e₂

module _ (ds : Doubles) (disk : Disk) (catalog : Json) where
  -- What a successful change has done to the file.
  pub record Applied (file : File) (body : List ℕ) (answer : Json) (file' : File) : Type 0 where
    pub payload : Json
    pub old : Json
    pub new : Json
    pub restart : List Text
    pub parsed : parse_json_body disk body ≡ ok payload
    pub was : read_overlay disk file ≡ ok old
    pub edited : Edited ds catalog payload old new
    pub content : List ℕ
    pub encoded : disk.to_vec_pretty new ≡ ok content
    pub is_now : file' ≡ ok content
    pub sound : check_overlay new ≡ ok new
    pub answered : answer ≡ applied_answer new restart

  abbrev pub PutOutcome : File → List ℕ → Result Text Json × File → Type 0
  PutOutcome file body (ok answer, file') = Applied file body answer file'
  PutOutcome file body (err e, file') = (file' ≡ file) ⊎ (disk.set_private_file ≡ err e)

  written-PutOutcome :
      (file : File) (body : List ℕ) (payload old new : Json) (restart : List Text)
      → parse_json_body disk body ≡ ok payload
      → read_overlay disk file ≡ ok old
      → Edited ds catalog payload old new
      → (w : Result Text (Unit {0}) × File) → Writes disk file new w
      → PutOutcome file body (w.0 >> ok (applied_answer new restart), w.1)
  written-PutOutcome file body payload old new restart parsed was edited (err e, file') h = h
  written-PutOutcome file body payload old new restart parsed was edited (ok u, file')
        (content, encoded, same) =
      record {
        payload = payload;
        old = old;
        new = new;
        restart = restart;
        parsed = parsed;
        was = was;
        edited = edited;
        content = content;
        encoded = encoded;
        is_now = same;
        sound =
            check_overlay-Edited disk ds catalog payload old new
              (read_overlay-check_overlay disk file old was) edited;
        answered = refl;
      }

  -- A change that is answered with success was asked for at the revision of the file, and the file now
  -- holds the encoding of an overlay that passes the reader's checks, with the next revision, in
  -- which each setting has the value that the change gives it, which its field of the catalog accepts,
  -- or else the value that it had; where the answer is an error, the file is unchanged, unless setting
  -- the file's permissions failed after the rename.
  pub put_config-PutOutcome :
      (file : File) (body : List ℕ) (now : ℕ)
      → PutOutcome file body (put_config ds disk catalog file body now)
  unfolding put_config
  put_config-PutOutcome file body now = elim (Result-cases (parse_json_body disk body)) [
    | inr (x, e) ↦ rw (e, put_config) (inl refl)
    | inl (payload, e) ↦ elim (Result-cases (read_overlay disk file)) [
      | inr (x, f) ↦ rw (e, f, put_config) (inl refl)
      | inl (old, f) ↦ elim (Result-cases (edit_overlay ds catalog payload old now)) [
        | inr (x, g) ↦ rw (e, f, g, put_config) (inl refl)
        | inl ((new, restart), g) ↦
            rw (e, f, g, put_config)
              (written-PutOutcome file body payload old new restart e f
                (edit_overlay-Edited ds catalog payload old new restart now g)
                (write_overlay_atomic disk file new) (write_overlay_atomic-Writes disk file new))
      ]
    ]
  ]
