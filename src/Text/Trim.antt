-- ===== src/Text/Trim.antt =====
-- What trimming keeps.
use athena_voice.Base.{ℕ, ◌≡◌, false, [], ◌∷◌, Bool-cases, inl, inr}
use athena_voice.Text.{Text, is_whitespace, trim_start, trim_end, trim_end_cons, trim}

-- A text whose first and last characters are not white space.
abbrev pub StartsSolid : Text → Type 0
StartsSolid [] = Unit
StartsSolid (c ∷ t) = is_whitespace c ≡ false

abbrev pub EndsSolid : Text → Type 0
EndsSolid [] = Unit
EndsSolid (c ∷ []) = is_whitespace c ≡ false
EndsSolid (c ∷ d ∷ t) = EndsSolid (d ∷ t)

pub trim_start-StartsSolid : (t : Text) → StartsSolid (trim_start t)
unfolding trim_start
trim_start-StartsSolid [] = tt
trim_start-StartsSolid (c ∷ t) = elim (Bool-cases (is_whitespace c)) [
  | inl white ↦ rw white (trim_start-StartsSolid t)
  | inr solid ↦ rw solid solid
]

trim_end_cons-EndsSolid : (c : ℕ) (u : Text) → EndsSolid u → EndsSolid (trim_end_cons c u)
unfolding trim_end_cons
trim_end_cons-EndsSolid c [] h = elim (Bool-cases (is_whitespace c)) [
  | inl white ↦ rw white tt
  | inr solid ↦ rw solid solid
]
trim_end_cons-EndsSolid c (d ∷ u) h = h

pub trim_end-EndsSolid : (t : Text) → EndsSolid (trim_end t)
unfolding trim_end
trim_end-EndsSolid [] = tt
trim_end-EndsSolid (c ∷ t) = trim_end_cons-EndsSolid c (trim_end t) (trim_end-EndsSolid t)

trim_end_cons-StartsSolid :
    (c : ℕ) (u : Text) → is_whitespace c ≡ false → StartsSolid (trim_end_cons c u)
unfolding trim_end_cons
trim_end_cons-StartsSolid c [] h = rw h h
trim_end_cons-StartsSolid c (d ∷ u) h = h

trim_end-StartsSolid : (t : Text) → StartsSolid t → StartsSolid (trim_end t)
unfolding trim_end
trim_end-StartsSolid [] h = tt
trim_end-StartsSolid (c ∷ t) h = trim_end_cons-StartsSolid c (trim_end t) h

-- A trimmed text starts and ends with characters that are not white space.
pub trim-solid : (t : Text) → StartsSolid (trim t) × EndsSolid (trim t)
unfolding trim
trim-solid t = (
  trim_end-StartsSolid (trim_start t) (trim_start-StartsSolid t),
  trim_end-EndsSolid (trim_start t),
)
