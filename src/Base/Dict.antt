-- ===== src/Base/Dict.antt =====
-- A map as an association list, for a key type with an equality test, by which it is looked up. `DashMap` and
-- `HashMap` are maps of this kind, up to the order in which they are iterated.

use mathlib.Core.Path.{◌≡◌, refl, sym, ap, ◌∙◌}
use mathlib.Core.Logic.{inl, inr}
use mathlib.Core.Bool.{Bool, true, false}
use mathlib.Core.List.{List, [], ◌∷◌}
use mathlib.Core.Option.{Option, none, some}
use athena_voice.Base.Tests.{if◌then◌else◌, Bool-cases}

pub record KeyTest (K : Type 0) : Type 0 where
  pub same : K → K → Bool
  pub same_refl : (k : K) → same k k ≡ true
  pub same_sound : (j k : K) → same j k ≡ true → j ≡ k

module _ {K : Type 0} (test : KeyTest K) where
  open test use {same, same_sound}

  apart_of : (j k i : K) → same j i ≡ true → same k i ≡ false → same j k ≡ false
  apart_of j k i hit miss = elim (Bool-cases (same j k)) [
    | inl same_keys ↦
        absurd (true≢false (sym hit ∙ ap (λ x. same x i) (same_sound j k same_keys) ∙ miss))
    | inr other ↦ other
  ]
    where
      true≢false : ¬ (true ≡ false)
      true≢false e = cc

module _ {K V : Type 0} (test : KeyTest K) where
  open test use {same, same_refl, same_sound}

  unfoldable pub lookup : K → List (K × V) → Option V
  lookup k [] = none
  lookup k ((j, v) ∷ m) = let rest = lookup k m in if same k j then some v else rest

  unfoldable pub remove : K → List (K × V) → List (K × V)
  remove k [] = []
  remove k ((j, v) ∷ m) = let rest = remove k m in if same k j then rest else (j, v) ∷ rest

  unfoldable pub insert : K → V → List (K × V) → List (K × V)
  insert k v m = (k, v) ∷ remove k m

  -- No key twice.
  abbrev pub Distinct : List (K × V) → Type 0
  Distinct [] = Unit
  Distinct ((k, v) ∷ m) = (lookup k m ≡ none) × Distinct m

  pub lookup-remove :
      (j k : K) (m : List (K × V)) → lookup j (remove k m) ≡ (if same j k then none else lookup j m)
  unfolding lookup remove
  lookup-remove j k [] = elim (Bool-cases (same j k)) [
    | inl hit ↦ rw hit refl
    | inr miss ↦ rw miss refl
  ]
  lookup-remove j k ((i, v) ∷ m) =
      let rest = lookup-remove j k m in
      elim (Bool-cases (same k i)) [
        | inl hit ↦ rw hit (elim (Bool-cases (same j k)) [
          | inl hit' ↦ rest ∙ rw hit' refl
          | inr miss' ↦
              let apart : same j i ≡ false = rw (sym (same_sound k i hit)) miss' in
              rest ∙ rw (miss', apart) refl
        ])
        | inr miss ↦ rw miss (elim (Bool-cases (same j i)) [
          | inl hit' ↦ rw (hit', apart_of test j k i hit' miss) refl
          | inr miss' ↦ rw miss' rest
        ])
      ]

  pub lookup-insert :
      (j k : K) (v : V) (m : List (K × V))
      → lookup j (insert k v m) ≡ (if same j k then some v else lookup j m)
  unfolding lookup insert
  lookup-insert j k v m = elim (Bool-cases (same j k)) [
    | inl hit ↦ rw hit refl
    | inr miss ↦ rw miss (lookup-remove j k m ∙ rw miss refl)
  ]

  absent-remove : (j k : K) (m : List (K × V)) → lookup j m ≡ none → lookup j (remove k m) ≡ none
  absent-remove j k m h = lookup-remove j k m ∙ both
    where
      both : (if same j k then none else lookup j m) ≡ none
      both = elim (Bool-cases (same j k)) [ inl hit ↦ rw hit refl | inr miss ↦ rw miss h ]

  pub remove-Distinct : (k : K) (m : List (K × V)) → Distinct m → Distinct (remove k m)
  unfolding remove
  remove-Distinct k [] d = tt
  remove-Distinct k ((i, v) ∷ m) (absent, d) = elim (Bool-cases (same k i)) [
    | inl hit ↦ rw hit (remove-Distinct k m d)
    | inr miss ↦ rw miss (absent-remove i k m absent, remove-Distinct k m d)
  ]

  pub insert-Distinct : (k : K) (v : V) (m : List (K × V)) → Distinct m → Distinct (insert k v m)
  unfolding insert
  insert-Distinct k v m d = (lookup-remove k k m ∙ rw (same_refl k) refl, remove-Distinct k m d)

-- `retain` by a test on the values
unfoldable pub retain : {K V : Type 0} → (V → Bool) → List (K × V) → List (K × V)
retain p [] = []
retain p ((k, v) ∷ m) = let rest = retain p m in if p v then (k, v) ∷ rest else rest

abbrev pub filtered : {V : Type 0} → (V → Bool) → Option V → Option V
filtered p none = none
filtered p (some v) = if p v then some v else none

module _ {K V : Type 0} (test : KeyTest K) (p : V → Bool) where
  open test use {same}

  pub absent-retain :
      (j : K) (m : List (K × V)) → lookup test j m ≡ none → lookup test j (retain p m) ≡ none
  unfolding lookup retain
  absent-retain j [] h = refl
  absent-retain j ((i, v) ∷ m) h = elim (Bool-cases (same j i)) [
    | inl hit ↦ absurd (some≢none (ap (λ b. if b then some v else lookup test j m) (sym hit) ∙ h))
    | inr miss ↦
        let rest =
          absent-retain j m (ap (λ b. if b then some v else lookup test j m) (sym miss) ∙ h) in
        elim (Bool-cases (p v)) [ inl keep ↦ rw (keep, miss) rest | inr drop ↦ rw drop rest ]
  ]
    where
      some≢none : ¬ (some v ≡ none)
      some≢none e = cc

  pub lookup-retain :
      (j : K) (m : List (K × V))
      → Distinct test m
      → lookup test j (retain p m) ≡ filtered p (lookup test j m)
  unfolding lookup retain
  lookup-retain j [] d = refl
  lookup-retain j ((i, v) ∷ m) (absent, d) = elim (Bool-cases (p v)) [
    | inl keep ↦ rw keep (elim (Bool-cases (same j i)) [
      | inl hit ↦ rw (hit, keep) refl
      | inr miss ↦ rw miss (lookup-retain j m d)
    ])
    | inr drop ↦ rw drop (elim (Bool-cases (same j i)) [
      | inl hit ↦
          absent-retain j m (ap (λ x. lookup test x m) (same_sound_of hit) ∙ absent)
          ∙ rw (hit, drop) refl
      | inr miss ↦ rw miss (lookup-retain j m d)
    ])
  ]
    where
      same_sound_of : same j i ≡ true → j ≡ i
      same_sound_of h = test.same_sound j i h

  pub retain-Distinct : (m : List (K × V)) → Distinct test m → Distinct test (retain p m)
  unfolding retain
  retain-Distinct [] d = tt
  retain-Distinct ((i, v) ∷ m) (absent, d) = elim (Bool-cases (p v)) [
    | inl keep ↦ rw keep (absent-retain i m absent, retain-Distinct m d)
    | inr drop ↦ rw drop (retain-Distinct m d)
  ]
