-- ===== src/Daemon/Requests.antt =====
-- apps/kittd/src/main.rs: the requests that the dispatcher hands on to the service and the HUD, from the
-- decoded payload on. Their types are the protocol crate's, with the fields that the code names.
mod Tests
use kitt_assistant.Base.{
  refl, ◌≡◌, ◌≢◌, ◌↔◌, ◌⊎◌, inl, inr, sym, ap, subst, ◌∙◌, Bool, true, false, not, ◌&&◌, ◌||◌,
  Option, none, some, List, [], ◌∷◌, ◌++◌, map, reverse, ℕ, zero, suc, ◌+◌, ◌-◌, ◌*◌, ◌/◌, ◌%◌, ◌^◌,
  ◌≤◌, ◌<◌, min, max, arith, String, Text, ltb, leb, ◌==◌, if◌then◌else◌, Result, ok, err, ◌>>=◌,
  ◌>>◌, refuse_if, ok_or, map_err, length, take, drop, all, any, All, codes, bytes, text_eq,
  text_eq_iff, is_empty, starts_with, Bool-cases, Option-cases, Result-cases, if-of_true,
  if-of_false, and-true, decimal, trim, to_ascii_lowercase, is_blank, join, ok_or-eq-ok, retain,
  strip_prefix, texts_eq, >>=-eq-ok,
}
use kitt_assistant.Daemon.Runtime.{
  hud_ensured, Runtime, World, Failure, HudEvent, run_ask, show, mark,
}
use kitt_assistant.Domain
use kitt_assistant.Domain.{RouteHint, RoutedAnswer}

pub data ModelRoute : Type 0 where
  auto fast heavy : ModelRoute

pub data ProtocolTier : Type 0 where
  fast heavy : ProtocolTier

pub record RoutedAskResponse : Type 0 where
  pub text : Text
  pub tier : ProtocolTier
  pub fallback_used : Bool

-- The matches of `ask_routed`.
abbrev pub hint_of : ModelRoute → RouteHint
hint_of ModelRoute.auto = RouteHint.auto
hint_of ModelRoute.fast = RouteHint.fast
hint_of ModelRoute.heavy = RouteHint.heavy

abbrev pub tier_of : Domain.ModelTier → ProtocolTier
tier_of Domain.ModelTier.fast = ProtocolTier.fast
tier_of Domain.ModelTier.heavy = ProtocolTier.heavy

abbrev map_ok : {A B : Type 0} → (A → B) → Result Failure A × World → Result Failure B × World
map_ok f (ok a, w) = (ok (f a), w)
map_ok f (err e, w) = (err e, w)

-- What the file system says of a path: its metadata, whether it is a file, its length, its extension
-- and its content.
pub record ImageFile : Type 0 where
  pub metadata : Result Text (Bool × ℕ)
  pub extension : Option Text
  pub read : Result Text (List ℕ)

-- The match on the extension in lower case.
unfoldable pub mime_of : Option Text → Option Text
mime_of none = none
mime_of (some extension) =
    let lower = map to_ascii_lowercase extension in
    if text_eq lower (codes "png")
    then some (codes "image/png")
    else if text_eq lower (codes "jpg") || text_eq lower (codes "jpeg")
    then some (codes "image/jpeg")
    else if text_eq lower (codes "webp")
    then some (codes "image/webp")
    else if text_eq lower (codes "gif")
    then some (codes "image/gif")
    else none

-- `MAX_IMAGE_BYTES`
abbrev pub max_image_bytes : ℕ
max_image_bytes = 8 * 1024 * 1024

-- `image_data_uri`; `base64` is the encoder of the base64 crate.
unfoldable pub image_data_uri : (base64 : List ℕ → Text) → ImageFile → Result Text Text
unfolding mime_of
image_data_uri base64 file = do
  meta ← map_err (λ e. codes "image metadata: " ++ e) file.metadata
  refuse_if (not meta.0) (codes "image_not_file")
  refuse_if (ltb max_image_bytes meta.1) (codes "image_too_large")
  mime ← ok_or (mime_of file.extension) (codes "unsupported_image_type")
  content ← map_err (λ e. codes "image read: " ++ e) file.read
  ok (codes "data:" ++ mime ++ codes ";base64," ++ base64 content)

module _ {R F : Type 0} (rt : Runtime R F) where
  -- `ask`: an automatic route, of which the client sees the text.
  unfoldable pub ask_request : Text → Bool → World → Result Failure Text × World
  ask_request text show_hud w =
      map_ok (λ a. a.text) (run_ask rt (trim text) RouteHint.auto show_hud w)

  unfoldable pub ask_routed :
      Text → ModelRoute → Bool → World → Result Failure RoutedAskResponse × World
  ask_routed text route show_hud w =
      map_ok (λ a. record { text = a.text; tier = tier_of a.tier; fallback_used = a.fallback_used })
        (run_ask rt (trim text) (hint_of route) show_hud w)

  -- `show_image`
  unfoldable pub show_image :
      (base64 : List ℕ → Text)
      → (Text → ImageFile)
      → (raw : Text) (alt : Option Text) → World
      → Result Failure (Unit {0}) × World
  show_image base64 files raw alt w =
      let src =
        if starts_with raw (codes "http://")
          || starts_with raw (codes "https://")
          || starts_with raw (codes "data:")
        then ok raw
        else map_err (λ e. (codes "image_error", e)) (image_data_uri base64 (files raw)) in
      elim src [
        | err e ↦ (err e, w)
        | ok uri ↦ (ok tt, show (HudEvent.image uri alt rt.hud_ttl_ms) (mark hud_ensured w))
      ]
