-- ===== src/ModelConfig/Loading.antt =====
-- `load_or_create` after it has succeeded once.
use kitt_assistant.Base.{
  refl, ◌≡◌, ◌⊎◌, inl, inr, sym, ap, subst, ◌∙◌, Bool, true, false, none, some, arith, Text, ok,
  Option-cases, Result-cases,
}
use kitt_assistant.ModelConfig.Storing.{
  write_profiles, Disk, Codec, load_or_create, parsed_profiles, store_valid,
}
use kitt_assistant.ModelConfig.Validity.{
  IsValid, validate-eq-ok, migrate_known_broken_stt_default-Moved,
}
use kitt_assistant.ModelConfig.{
  ModelProfiles, Legacy, Vars, first_profiles, migrate_known_broken_stt_default, validate, Net,
  is_known_bad_default,
}

module _ (net : Net) (codec : Codec) where
  store_valid-eq-ok :
      (p q : ModelProfiles) (fresh : Bool) (disk disk' : Disk)
      → store_valid net codec p fresh disk ≡ (ok q, disk')
      → (p ≡ q)
        × (validate net p ≡ ok tt)
        × ((fresh ≡ false) × (disk' ≡ disk)
            ⊎ ((text : Text) × (codec.to_string_pretty p ≡ ok text)
                × (disk' ≡ record disk { models_json = some text })))
  unfolding store_valid write_profiles
  store_valid-eq-ok p q fresh disk disk' e = ground arith

  reload :
      (vars : Vars) (legacy : Legacy) (p : ModelProfiles) (text : Text) (d : Disk)
      → d.models_json ≡ some text
      → d.unreadable ≡ none
      → codec.from_str text ≡ ok p
      → is_known_bad_default p.speech_to_text ≡ false
      → validate net p ≡ ok tt
      → load_or_create net codec vars legacy d ≡ (ok p, d)
  unfolding load_or_create parsed_profiles store_valid migrate_known_broken_stt_default
  reload vars legacy p text d there readable parsed good valid = ground arith

  stored_again :
      (vars : Vars) (legacy : Legacy) (p q : ModelProfiles) (fresh : Bool) (disk disk' : Disk)
      → ((text : Text) → codec.to_string_pretty q ≡ ok text → codec.from_str text ≡ ok q)
      → disk.unreadable ≡ none
      → is_known_bad_default q.speech_to_text ≡ false
      → store_valid net codec p fresh disk ≡ (ok q, disk')
      → (fresh ≡ false
          → (text : Text) × (disk.models_json ≡ some text) × (codec.from_str text ≡ ok p))
      → IsValid net q × (load_or_create net codec vars legacy disk' ≡ (ok q, disk'))
  stored_again vars legacy p q fresh disk disk' reads readable good e old =
      let (same, valid, stored) = store_valid-eq-ok p q fresh disk disk' e in
      let valid' = subst (λ r. validate net r ≡ ok tt) same valid in
      (
        (validate-eq-ok net q).0 valid',
        elim stored [
          | inl (kept, unchanged) ↦
              let (text, there, parsed) = old kept in
              rw unchanged (
                reload vars legacy q text disk there readable
                  (subst (λ r. codec.from_str text ≡ ok r) same parsed) good valid')
          | inr (text, printed, written) ↦ rw written (
              reload vars legacy q text (record disk { models_json = some text }) refl readable
                (reads text (subst (λ r. codec.to_string_pretty r ≡ ok text) same printed)) good
                valid')
        ],
      )

  -- If a load of a readable models.json, or the creation of that file from the environment and the old
  -- settings, succeeds with profiles that are not the broken speech default, then these profiles are
  -- valid, and each later load gives them again and leaves the file alone, whatever the environment
  -- and the old settings have become. The profiles are read back as they were printed.
  pub load_or_create-Again :
      (vars vars' : Vars) (legacy legacy' : Legacy) (p : ModelProfiles) (disk disk' : Disk)
      → ((text : Text) → codec.to_string_pretty p ≡ ok text → codec.from_str text ≡ ok p)
      → disk.unreadable ≡ none
      → is_known_bad_default p.speech_to_text ≡ false
      → load_or_create net codec vars legacy disk ≡ (ok p, disk')
      → IsValid net p × (load_or_create net codec vars' legacy' disk' ≡ (ok p, disk'))
  unfolding load_or_create parsed_profiles
  load_or_create-Again vars vars' legacy legacy' p disk disk' reads readable good e =
      elim (Option-cases disk.models_json) [
        | inl absent ↦
            stored_again vars' legacy' (first_profiles net vars legacy) p true disk disk' reads
              readable good (ground arith) (λ f. absurd (cc))
        | inr (text, there) ↦ elim (Result-cases (codec.from_str text)) [
          | inr (x, refused) ↦ absurd (ground arith)
          | inl (q, parsed) ↦
              let m = migrate_known_broken_stt_default q in
              stored_again vars' legacy' m.0 p m.1 disk disk' reads readable good (ground arith)
                (λ f. (
                  text,
                  there,
                  parsed ∙ ap ok (sym ((migrate_known_broken_stt_default-Moved q).2 f)),
                ))
        ]
      ]
