-- ===== src/Daemon/Requests/Tests.antt =====
-- A picture that is encoded, and one of a kind that is refused.
use kitt_assistant.Base.{
  refl, ◌≡◌, true, some, [], ◌∷◌, ok, err, codes, text_eq, to_ascii_lowercase,
}
use kitt_assistant.Daemon.Requests.{ImageFile, image_data_uri, mime_of}

abbrev picture : ImageFile
picture = record { metadata = ok (true, 3); extension = some (codes "PNG"); read = ok (1 ∷ 2 ∷ []) }

png : image_data_uri (λ bs. codes "AQI=") picture ≡ ok (codes "data:image/png;base64,AQI=")
unfolding image_data_uri mime_of text_eq to_ascii_lowercase
png = refl

unknown_kind :
    image_data_uri (λ bs. []) (record picture { extension = some (codes "svg") })
    ≡ err (codes "unsupported_image_type")
unfolding image_data_uri mime_of text_eq to_ascii_lowercase
unknown_kind = refl
