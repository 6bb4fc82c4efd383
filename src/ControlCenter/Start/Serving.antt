-- ===== src/ControlCenter/Start/Serving.antt =====
-- What a start that succeeds serves, and what any start leaves of the overlay file.
use kitt_assistant.Base.{
  ok-injective, refuse_if-not-eq-ok, map_err-eq-ok, refl, ◌≡◌, ◌⊎◌, inl, inr, subst, Bool, true,
  false, not, List, ◌++◌, ℕ, Text, Result, ok, err, ◌>>=◌, refuse_if, map_err, codes, Result-cases,
  >>=-eq-ok,
}
use kitt_assistant.ControlCenter.Json.{Json, unwrap_or}
use kitt_assistant.ControlCenter.Start.{Site, Served, validate_catalog, prepare, listen, start}
use kitt_assistant.ControlCenter.Start.Catalog.{IsCatalog, validate_catalog_iff}
use kitt_assistant.ControlCenter.Overlay.{
  Disk, File, read_overlay, put_in_place, write_overlay_atomic, initial_overlay, ensure_overlay,
}
use kitt_assistant.ControlCenter.Overlay.Outcome.{put_in_place-content}

module _ (disk : Disk) (exists : Bool) (file : File) (now : ℕ) where
  -- The file holds the first overlay, and was not there.
  pub record IsCreated (file' : File) : Type 0 where
    pub absent : exists ≡ false
    pub content : List ℕ
    pub encoded : disk.to_vec_pretty (initial_overlay disk now) ≡ ok content
    pub holds : file' ≡ ok content

  -- The file was there, is left alone and passes the reader's checks.
  pub record IsKept (file' : File) : Type 0 where
    pub present : exists ≡ true
    pub same : file' ≡ file
    pub overlay : Json
    pub read : read_overlay disk file ≡ ok overlay

  Ensures : Result Text (Unit {0}) × File → Type 0
  Ensures (ok _, file') = IsKept file' ⊎ IsCreated file'
  Ensures (err e, file') = (file' ≡ file) ⊎ IsCreated file'

  created : (r : Result Text (Unit {0})) (file' : File) → IsCreated file' → Ensures (r, file')
  unfolding Ensures
  created (ok _) file' c = inr c
  created (err e) file' c = inr c

  ensured_if : (there : Bool) → exists ≡ there → Ensures (ensure_overlay disk there file now)
  unfolding Ensures ensure_overlay write_overlay_atomic
  ensured_if true there = elim (Result-cases (read_overlay disk file)) [
    | inl (overlay, e) ↦
        rw e (inl (record { present = there; same = refl; overlay = overlay; read = e }))
    | inr (why, e) ↦ rw e (inl refl)
  ]
  ensured_if false missing = elim (Result-cases (put_in_place disk (initial_overlay disk now))) [
    | inl (content, e) ↦
        rw (e, write_overlay_atomic)
          (created disk.set_private_file (ok content) (record {
            absent = missing;
            content = content;
            encoded = put_in_place-content disk (initial_overlay disk now) content e;
            holds = refl;
          }))
    | inr (why, e) ↦ rw (e, write_overlay_atomic) (inl refl)
  ]

  ensure_overlay-Ensures : Ensures (ensure_overlay disk exists file now)
  ensure_overlay-Ensures = ensured_if exists refl

  module _ (site : Site) where
    -- What is served was asked for, by an address of the loopback interface that could be bound.
    pub record IsFit (served : Served) : Type 0 where
      pub asked :
          site.parse_addr (unwrap_or (codes "127.0.0.1:41828") site.control_center_addr)
          ≡ ok served.bind
      pub loopback : served.bind.is_loopback ≡ true
      pub embedded : site.embedded ≡ ok served.catalog
      pub sound : IsCatalog served.catalog

    pub Starts : Result Text Served × File → Type 0
    Starts (ok served, file') =
        IsFit served × (site.bind served.bind ≡ ok tt) × (IsKept file' ⊎ IsCreated file')
    Starts (err e, file') = (file' ≡ file) ⊎ IsCreated file'

    prepare-IsFit : (served : Served) → prepare site ≡ ok served → IsFit served
    unfolding prepare
    prepare-IsFit served e =
        let wanted =
          site.parse_addr (unwrap_or (codes "127.0.0.1:41828") site.control_center_addr) in
        let (bind, parsed, e₁) =
          >>=-eq-ok (map_err (λ m. codes "invalid KITT_CONTROL_CENTER_ADDR: " ++ m) wanted) _ e in
        let (u, local, e₂) =
          >>=-eq-ok
            (refuse_if (not bind.is_loopback)
              (codes "KITT Control Center only permits loopback bind addresses"))
            _ e₁ in
        let (catalog, embedded, e₃) =
          >>=-eq-ok
            (map_err (λ m. codes "embedded Control Center catalog is invalid: " ++ m) site.embedded)
            _ e₂ in
        let (v, checked, e₄) = >>=-eq-ok (validate_catalog catalog) _ e₃ in
        let (w, directory, e₅) = >>=-eq-ok site.ensure_private_dir _ e₄ in
        subst IsFit (ok-injective e₅) (record {
          asked = map_err-eq-ok _ wanted parsed;
          loopback = refuse_if-not-eq-ok bind.is_loopback _ local;
          embedded = map_err-eq-ok _ site.embedded embedded;
          sound = (validate_catalog_iff catalog).0 checked;
        })

    listen-bound :
        (served s : Served) → listen site served ≡ ok s → (served ≡ s) × (site.bind s.bind ≡ ok tt)
    unfolding listen
    listen-bound served s e =
        let (u, bound, e₁) =
          >>=-eq-ok
            (map_err (λ m. codes "Control Center bind " ++ served.bind.shown ++ codes ": " ++ m)
              (site.bind served.bind))
            _ e in
        let (v, blocking, e₂) =
          >>=-eq-ok (map_err (λ m. codes "Control Center listener: " ++ m) site.set_blocking) _
            e₁ in
        let (w, spawned, e₃) =
          >>=-eq-ok (map_err (λ m. codes "spawn Control Center: " ++ m) site.spawn) _ e₂ in
        let same : served ≡ s = ok-injective e₃ in
        (
          same,
          subst (λ q. site.bind q.bind ≡ ok tt) same
              (map_err-eq-ok _ (site.bind served.bind) bound),
        )

    same_or_new : (file' : File) → IsKept file' ⊎ IsCreated file' → (file' ≡ file) ⊎ IsCreated file'
    same_or_new file' (inl kept) = inl kept.same
    same_or_new file' (inr c) = inr c

    listening :
        (served : Served)
        → IsFit served
        → (ensured : Result Text (Unit {0})) (file' : File) → Ensures (ensured, file')
        → Starts (ensured >>= λ there. listen site served, file')
    unfolding Starts Ensures
    listening served fit (err e) file' h = h
    listening served fit (ok u) file' h = elim (Result-cases (listen site served)) [
      | inl (s, e) ↦
          let (same, bound) = listen-bound served s e in rw e (subst IsFit same fit, bound, h)
      | inr (why, e) ↦ rw e (same_or_new file' h)
    ]

    -- A start that succeeds serves the address that was asked for, which is of the loopback interface and
    -- could be bound, and the embedded catalog, which is of version 1 with sections whose ids differ;
    -- the overlay file was there and passes the reader's checks, or holds the first overlay. A start
    -- that fails leaves the file as it was, unless it was not there and holds the first overlay.
    pub start-Starts : Starts (start site disk exists file now)
    unfolding Starts start
    start-Starts = elim (Result-cases (prepare site)) [
      | inr (why, e) ↦ rw (e, start) (inl refl)
      | inl (served, e) ↦
          rw (e, start) (listening served (prepare-IsFit served e) _ _ ensure_overlay-Ensures)
    ]
