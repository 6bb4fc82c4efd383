-- ===== src/Url.antt =====
-- What the code asks of the `url` crate and of `std::net::IpAddr`, and the test of a loopback host that
-- apps/kittd/src/model_config.rs and apps/kittd/src/voice.rs make.
use kitt_assistant.Base.{
  Bool, false, ◌||◌, Option, none, some, [], ◌∷◌, map, reverse, ℕ, Text, ◌==◌, if◌then◌else◌,
  Result, codes, text_eq, starts_with, to_ascii_lowercase,
}

-- A parsed URL. `scheme` is in lower case, `path` starts with a slash.
pub record Url : Type 0 where
  pub scheme : Text
  pub username : Text
  pub password : Option Text
  pub host_str : Option Text
  pub port_or_known_default : Option ℕ
  pub path : Text
  pub query : Option Text
  pub fragment : Option Text

-- `Url::parse`, and `parse::<IpAddr>()` with `is_loopback`: whether a text is a loopback address.
pub record Net : Type 0 where
  pub parse : Text → Result Text Url
  pub is_loopback_ip : Text → Bool

unfoldable pub eq_ignore_ascii_case : Text → Text → Bool
eq_ignore_ascii_case s t = text_eq (map to_ascii_lowercase s) (map to_ascii_lowercase t)

-- `is_loopback_host`
unfoldable pub is_loopback_host : Net → Option Text → Bool
is_loopback_host net none = false
is_loopback_host net (some host) =
    eq_ignore_ascii_case host (codes "localhost") || net.is_loopback_ip host

-- `trim_end_matches(c)`, with the text backwards.
drop_leading : ℕ → Text → Text
drop_leading c [] = []
drop_leading c (d ∷ s) = let rest = drop_leading c s in if d == c then rest else d ∷ s

unfoldable pub trim_end_matches : ℕ → Text → Text
unfolding drop_leading
trim_end_matches c s = reverse (drop_leading c (reverse s))

-- `ends_with`
unfoldable pub ends_with : Text → Text → Bool
ends_with s suffix = starts_with (reverse s) (reverse suffix)
