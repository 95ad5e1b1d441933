-- ===== src/Base/Table.antt =====
-- Maps whose entries are selected by a test on the key and the value, as a statement on a table does.
use mathlib.Core.Path.{◌≡◌, refl, sym, ap, ◌∙◌}
use mathlib.Core.Logic.{inl, inr}
use mathlib.Core.Bool.{Bool}
use mathlib.Core.List.{List, [], ◌∷◌}
use mathlib.Core.Option.{none, some}
use athena_voice.Base.Tests.{if◌then◌else◌, Bool-cases}
use athena_voice.Base.Dict.{KeyTest, lookup, Distinct, filtered}
use athena_voice.Base.Select.{select}

module _ {K V : Type 0} (test : KeyTest K) (p : K × V → Bool) where
  open test use {same, same_sound}

  pub absent-select :
      (j : K) (m : List (K × V)) → lookup test j m ≡ none → lookup test j (select p m) ≡ none
  unfolding lookup select
  absent-select j [] h = refl
  absent-select j ((i, v) ∷ m) h = elim (Bool-cases (same j i)) [
    | inl hit ↦ absurd (some≢none (ap (λ b. if b then some v else lookup test j m) (sym hit) ∙ h))
    | inr miss ↦
        let rest =
          absent-select j m (ap (λ b. if b then some v else lookup test j m) (sym miss) ∙ h) in
        elim (Bool-cases (p (i, v))) [ inl keep ↦ rw (keep, miss) rest | inr drop ↦ rw drop rest ]
  ]
    where
      some≢none : ¬ (some v ≡ none)
      some≢none e = cc

  -- What a key has after a selection.
  pub lookup-select :
      (j : K) (m : List (K × V))
      → Distinct test m
      → lookup test j (select p m) ≡ filtered (λ v. p (j, v)) (lookup test j m)
  unfolding lookup select
  lookup-select j [] d = refl
  lookup-select j ((i, v) ∷ m) (absent, d) = elim (Bool-cases (p (i, v))) [
    | inl keep ↦ rw keep (elim (Bool-cases (same j i)) [
      | inl hit ↦ rw (hit, ap (λ x. p (x, v)) (same_sound j i hit) ∙ keep) refl
      | inr miss ↦ rw miss (lookup-select j m d)
    ])
    | inr drop ↦ rw drop (elim (Bool-cases (same j i)) [
      | inl hit ↦
          absent-select j m (ap (λ x. lookup test x m) (same_sound j i hit) ∙ absent)
          ∙ rw (hit, ap (λ x. p (x, v)) (same_sound j i hit) ∙ drop) refl
      | inr miss ↦ rw miss (lookup-select j m d)
    ])
  ]

  pub select-Distinct : (m : List (K × V)) → Distinct test m → Distinct test (select p m)
  unfolding select
  select-Distinct [] d = tt
  select-Distinct ((i, v) ∷ m) (absent, d) = elim (Bool-cases (p (i, v))) [
    | inl keep ↦ rw keep (absent-select i m absent, select-Distinct m d)
    | inr drop ↦ rw drop (select-Distinct m d)
  ]
