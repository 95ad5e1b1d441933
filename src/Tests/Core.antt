-- ===== src/Tests/Core.antt =====
-- Identifiers at concrete texts.
use athena_voice.Base.{◌≡◌, refl, ok, err}
use athena_voice.Text.{codes, utf8_len}
use athena_voice.Core.Ids.{satellite_id_new, invalid_satellite_id, is_satellite_char}

phone : satellite_id_new (codes "phone-01") ≡ ok (record { as_str = codes "phone-01" })
unfolding satellite_id_new utf8_len is_satellite_char
phone = refl

upper_case_refused : satellite_id_new (codes "Phone") ≡ err (invalid_satellite_id (codes "Phone"))
unfolding satellite_id_new utf8_len is_satellite_char
upper_case_refused = refl
