-- ===== src/Core/Ids/Laws.antt =====
-- The constructors of ids accept exactly the texts of the patterns that their errors quote.
use native.Mathlib.Decide.{dec_lt}
use athena_voice.Base.{
  ◌⊎◌, inl, inr, ℕ, ◌+◌, ◌≤◌, ◌<◌, ◌≡◌, refl, ◌↔◌, inl, inr, Bool, true, [], ◌∷◌, arith, ltb,
  length, all, ok, err, Bool-cases, &&-true,
}
use athena_voice.Text.{Text, utf8, utf8_len, is_ascii_lowercase, is_ascii_uppercase}
use athena_voice.Core.Ids.{
  invalid_satellite_id, invalid_locale, SatelliteId, is_satellite_char, satellite_id_new, locale_ok,
  locale_new,
}

char_len : (c : ℕ) (t : Text) → is_satellite_char c ≡ true → utf8_len (c ∷ t) ≡ 1 + utf8_len t
unfolding utf8_len is_satellite_char
char_len c t h = ground arith

utf8_len-eq-length : (s : Text) → all is_satellite_char s ≡ true → utf8_len s ≡ length s
utf8_len-eq-length [] h = unfold utf8_len in refl
utf8_len-eq-length (c ∷ t) h =
    let (hc, ht) = &&-true (is_satellite_char c) (all is_satellite_char t) h in
    omega (arith, char_len c t hc, utf8_len-eq-length t ht)

-- What the pattern of satellite ids asks for.
pub record IsSatelliteId (s : Text) : Type 0 where
  pub nonempty : 0 < length s
  pub short : length s ≤ 64
  pub spelled : all is_satellite_char s ≡ true

-- `SatelliteId::new` keeps a text unchanged if it has 1 to 64 characters, each a lower-case ASCII letter,
-- an ASCII digit or a hyphen, and otherwise names it in the error.
pub satellite_id_new_cases :
    (s : Text)
    → IsSatelliteId s × (satellite_id_new s ≡ ok (record { as_str = s }))
      ⊎ (¬ IsSatelliteId s) × (satellite_id_new s ≡ err (invalid_satellite_id s))
unfolding satellite_id_new
satellite_id_new_cases [] = inr (λ h. absurd (omega (arith, h.nonempty)), refl)
satellite_id_new_cases (c ∷ s) = elim (Bool-cases (all is_satellite_char (c ∷ s))) [
  | inr bad ↦ inr (λ h. cc (bad, h.spelled), ground arith)
  | inl good ↦
      let size = utf8_len-eq-length (c ∷ s) good in
      elim (dec_lt 64 (length (c ∷ s))) [
        | yes long ↦ inr (λ h. absurd (omega (arith, h.short)), ground (arith, size))
        | no short ↦ inl (
          record { nonempty = omega arith; short = omega arith; spelled = good },
          ground (arith, size),
        )
      ]
]

pub IsSatelliteId-of_ok :
    (s : Text) (sat : SatelliteId) → satellite_id_new s ≡ ok sat → IsSatelliteId s
IsSatelliteId-of_ok s sat h = elim (satellite_id_new_cases s) [
  | inl (v, _) ↦ v
  | inr (_, e) ↦ absurd (cc (h, e))
]

-- The two shapes of a locale: a language, or a language and a country.
abbrev pub IsLocale : Text → Type 0
IsLocale (a ∷ b ∷ []) = (is_ascii_lowercase a ≡ true) × (is_ascii_lowercase b ≡ true)
IsLocale (a ∷ b ∷ c ∷ d ∷ e ∷ []) =
    (is_ascii_lowercase a ≡ true)
    × (is_ascii_lowercase b ≡ true)
    × (c ≡ b'-')
    × (is_ascii_uppercase d ≡ true)
    × (is_ascii_uppercase e ≡ true)
IsLocale _ = ⊥

-- Texts of ASCII characters are their own bytes, and a text whose bytes are ASCII is one.
is_ascii : ℕ → Bool
is_ascii c = ltb c 0x80

utf8-ascii : (s : Text) → all is_ascii s ≡ true → utf8 s ≡ s
unfolding utf8 is_ascii
utf8-ascii [] h = refl
utf8-ascii (c ∷ s) h = ground (arith, utf8-ascii s)

ascii_bytes : (s : Text) → all is_ascii (utf8 s) ≡ true → utf8 s ≡ s
unfolding utf8 is_ascii
ascii_bytes [] h = refl
ascii_bytes (c ∷ s) h = ground (arith, ascii_bytes s)

locale_ok-IsLocale : (s : Text) → locale_ok s ≡ true → IsLocale s
unfolding locale_ok
locale_ok-IsLocale (a ∷ b ∷ []) h = ground arith
locale_ok-IsLocale (a ∷ b ∷ c ∷ d ∷ e ∷ []) h = ground arith
locale_ok-IsLocale _ h = cc

IsLocale-locale_ok : (s : Text) → IsLocale s → locale_ok s ≡ true
unfolding locale_ok
IsLocale-locale_ok (a ∷ b ∷ []) h = ground arith
IsLocale-locale_ok (a ∷ b ∷ c ∷ d ∷ e ∷ []) h = ground arith
IsLocale-locale_ok _ h = absurd h

IsLocale-ascii : (s : Text) → IsLocale s → all is_ascii s ≡ true
unfolding is_ascii
IsLocale-ascii (a ∷ b ∷ []) h = ground arith
IsLocale-ascii (a ∷ b ∷ c ∷ d ∷ e ∷ []) h = ground arith
IsLocale-ascii _ h = absurd h

ascii_of_locale_ok : (s : Text) → locale_ok (utf8 s) ≡ true → utf8 s ≡ s
ascii_of_locale_ok s h = ascii_bytes s (IsLocale-ascii (utf8 s) (locale_ok-IsLocale (utf8 s) h))

locale_ok-utf8_iff : (s : Text) → (locale_ok (utf8 s) ≡ true) ↔ IsLocale s
locale_ok-utf8_iff s = (
  λ h. let e = ascii_of_locale_ok s h in rw e at (locale_ok-IsLocale (utf8 s) h),
  λ v. rw (utf8-ascii s (IsLocale-ascii s v)) (IsLocale-locale_ok s v),
)

-- `Locale::new`, which tests bytes, keeps a text unchanged if its characters are two lower-case ASCII
-- letters, with or without a hyphen and two upper-case ones behind them, and otherwise names it in
-- the error.
pub locale_new_cases :
    (s : Text)
    → IsLocale s × (locale_new s ≡ ok (record { as_str = s }))
      ⊎ (¬ IsLocale s) × (locale_new s ≡ err (invalid_locale s))
unfolding locale_new
locale_new_cases s = elim (Bool-cases (locale_ok (utf8 s))) [
  | inl good ↦ inl ((locale_ok-utf8_iff s).0 good, rw good refl)
  | inr bad ↦ inr (λ v. cc (bad, (locale_ok-utf8_iff s).1 v), rw bad refl)
]

-- An accepted id is its text.
pub as_str-satellite_id_new :
    (s : Text) (sat : SatelliteId) → satellite_id_new s ≡ ok sat → sat.as_str ≡ s
unfolding satellite_id_new
as_str-satellite_id_new s sat h = ground arith
