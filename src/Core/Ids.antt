-- ===== src/Core/Ids.antt =====
-- Identifiers: crates/athena-voice-core/src/ids.rs.
-- The `uuid` crate is a parameter: parsing, printing, and the two documented facts that the program
-- relies on, that a printed id parses back, and that it is hyphenated hexadecimal without a slash.
pub mod Laws
use athena_voice.Base.{
  ℕ, ◌≡◌, String, Bool, true, false, not, ◌&&◌, ◌||◌, Option, none, some, List, [], ◌∷◌, ltb, ◌==◌,
  if◌then◌else◌, all, Result, ok, err,
}
use athena_voice.Text.{
  Text, contains, is_empty, utf8, utf8_len, is_ascii_lowercase, is_ascii_uppercase, is_ascii_digit,
}

pub record UuidLib : Type 1 where
  pub Uuid : Type 0
  pub parse_str : Text → Option Uuid
  pub to_string : Uuid → Text
  pub parse-to_string : (u : Uuid) → parse_str (to_string u) ≡ some u
  pub hyphenated : (u : Uuid) → contains b'/' (to_string u) ≡ false

pub data IdError : Type 0 where
  invalid_satellite_id : Text → IdError
  invalid_locale : Text → IdError
  invalid_session_id : IdError

-- `Uuid::parse_str(s)?` with the error converted
unfoldable pub session_id_from_str : (lib : UuidLib) → Text → Result lib.Uuid IdError
session_id_from_str lib s = elim (lib.parse_str s) [ none ↦ err invalid_session_id | some u ↦ ok u ]

pub record SatelliteId : Type 0 where
  pub as_str : Text

unfoldable pub is_satellite_char : ℕ → Bool
is_satellite_char c = is_ascii_lowercase c || is_ascii_digit c || c == b'-'

unfoldable pub satellite_id_new : Text → Result SatelliteId IdError
satellite_id_new s =
    if is_empty s || ltb 64 (utf8_len s) || not (all is_satellite_char s)
    then err (invalid_satellite_id s)
    else ok (record { as_str = s })

pub record Locale : Type 0 where
  pub as_str : Text

-- The match on the number of bytes, with the bytes named.
locale_ok : List ℕ → Bool
locale_ok (a ∷ b ∷ []) = is_ascii_lowercase a && is_ascii_lowercase b
locale_ok (a ∷ b ∷ c ∷ d ∷ e ∷ []) =
    is_ascii_lowercase a
    && (is_ascii_lowercase b && (c == b'-' && (is_ascii_uppercase d && is_ascii_uppercase e)))
locale_ok _ = false

unfoldable pub locale_new : Text → Result Locale IdError
unfolding locale_ok
locale_new s = if locale_ok (utf8 s) then ok (record { as_str = s }) else err (invalid_locale s)
