-- ===== src/Text/Decimal.antt =====
-- Numbers printed in decimal, and `str::parse::<u64>`.
use mathlib.Core.Path.{subst}
use athena_voice.Base.{
  ℕ, zero, suc, ◌+◌, ◌-◌, ◌*◌, ◌/◌, ◌%◌, ◌≤◌, ◌<◌, ◌≡◌, refl, sym, ap, ◌∙◌, inl, inr, true, false,
  Option, none, some, [], ◌∷◌, ltb, ◌==◌, if◌then◌else◌, Bool-cases, arith,
}
use athena_voice.Text.{Text, is_ascii_digit, is_whitespace}
use athena_voice.Text.Words.{IsSolid}

-- The digits in front of those that are printed already; the fuel is at least the number.
digits : ℕ → ℕ → Text → Text
digits zero n acc = acc
digits (suc fuel) n acc =
    let rest = digits fuel (n / 10) ((48 + n % 10) ∷ acc) in
    if ltb n 10 then (48 + n) ∷ acc else rest

-- `format!("{n}")`
unfoldable pub decimal : ℕ → Text
unfolding digits
decimal n = digits (n + 1) n []

unfoldable pub parse_digits : Text → ℕ → Option ℕ
parse_digits [] acc = some acc
parse_digits (c ∷ t) acc =
    let rest = parse_digits t (acc * 10 + (c - 48)) in
    if is_ascii_digit c
    then if ltb (acc * 10 + (c - 48)) 18446744073709551616 then rest else none
    else none

-- A sign `+` is allowed in front; no digits and too large a number are errors.
unfoldable pub parse_u64 : Text → Option ℕ
unfolding parse_digits
parse_u64 [] = none
parse_u64 (c ∷ t) =
    let unsigned = parse_digits (c ∷ t) 0 in
    let signed = parse_digits t 0 in
    if c == b'+' then (elim t [ [] ↦ none | ◌∷◌ d u ↦ signed ]) else unsigned

parse_digits-digit :
    (d a n : ℕ) (t : Text)
    → d < 10
    → a * 10 + d ≡ n
    → n < 18446744073709551616
    → parse_digits ((48 + d) ∷ t) a ≡ parse_digits t n
unfolding parse_digits
parse_digits-digit d a n t h e k =
    let digit : is_ascii_digit (48 + d) ≡ true = ground (arith, h) in
    let value : a * 10 + ((48 + d) - 48) ≡ n = omega (arith, e) in
    let fits : ltb n 18446744073709551616 ≡ true = ground (arith, k) in rw (digit, value, fits) refl

-- What the digits of a number do to the value that was read before them.
parse_digits-digits :
    (fuel n : ℕ) (acc : Text)
    → n < fuel
    → n < 18446744073709551616
    → parse_digits (digits fuel n acc) 0 ≡ parse_digits acc n
unfolding digits
parse_digits-digits zero n acc h k = absurd (omega (arith, h))
parse_digits-digits (suc fuel) n acc h k = elim (Bool-cases (ltb n 10)) [
  | inl small ↦ rw small (parse_digits-digit n 0 n acc (ground (arith, small)) (omega arith) k)
  | inr big ↦
      let large : 10 ≤ n = ground (arith, big) in
      rw big (
        parse_digits-digits fuel (n / 10) ((48 + n % 10) ∷ acc) (omega (arith, h, large))
          (omega (arith, k))
        ∙ parse_digits-digit (n % 10) (n / 10) n acc (omega arith) (omega arith) k)
]

-- The digits begin with a digit.
digits-first :
    (fuel n : ℕ) (acc : Text)
    → n < fuel
    → (c : ℕ) × (t : Text) × ((digits fuel n acc ≡ c ∷ t) × (is_ascii_digit c ≡ true))
unfolding digits
digits-first zero n acc h = absurd (omega (arith, h))
digits-first (suc fuel) n acc h = elim (Bool-cases (ltb n 10)) [
  | inl small ↦ (48 + n, acc, (rw small refl, ground (arith, small)))
  | inr big ↦
      let large : 10 ≤ n = ground (arith, big) in
      let (c, t, (e, d)) =
        digits-first fuel (n / 10) ((48 + n % 10) ∷ acc) (omega (arith, h, large)) in
      (c, t, (rw big e, d))
]

parse_u64-unsigned :
    (c : ℕ) (t : Text) → is_ascii_digit c ≡ true → parse_u64 (c ∷ t) ≡ parse_digits (c ∷ t) 0
unfolding parse_u64
parse_u64-unsigned c t h = let other : (c == b'+') ≡ false = ground (arith, h) in rw other refl

-- A printed number of 64 bits is read back.
pub parse_u64-decimal : (n : ℕ) → n < 18446744073709551616 → parse_u64 (decimal n) ≡ some n
unfolding decimal parse_digits
parse_u64-decimal n h =
    let (c, t, (e, d)) = digits-first (n + 1) n [] (omega arith) in
    ap parse_u64 e
    ∙ parse_u64-unsigned c t d
    ∙ ap (λ w. parse_digits w 0) (sym e)
    ∙ parse_digits-digits (n + 1) n [] (omega arith) h

digits-IsSolid : (fuel n : ℕ) (acc : Text) → IsSolid acc → IsSolid (digits fuel n acc)
unfolding digits is_whitespace
digits-IsSolid zero n acc h = h
digits-IsSolid (suc fuel) n acc h = elim (Bool-cases (ltb n 10)) [
  | inl small ↦ rw small (ground (arith, small), h)
  | inr big ↦
      rw big (digits-IsSolid fuel (n / 10) ((48 + n % 10) ∷ acc) (solid (n % 10) (omega arith), h))
]
  where
    solid : (d : ℕ) → d < 10 → is_whitespace (48 + d) ≡ false
    solid d k = ground (arith, k)

-- A printed number is a word.
pub decimal-word : (n : ℕ) → (c : ℕ) × (t : Text) × ((decimal n ≡ c ∷ t) × IsSolid (c ∷ t))
unfolding decimal
decimal-word n =
    let (c, t, (e, d)) = digits-first (n + 1) n [] (omega arith) in
    (c, t, (e, subst IsSolid e (digits-IsSolid (n + 1) n [] tt)))
