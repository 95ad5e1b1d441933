-- ===== src/Base/Select.antt =====
-- The elements of a list that pass a test, as `WHERE` of a query selects its rows.
use mathlib.Core.Path.{subst, ◌≡◌, refl, sym, ap, ◌∙◌}
use mathlib.Core.Logic.{inl, inr}
use mathlib.Core.Logic.Or
use mathlib.Core.Bool.{Bool, true, false, not, ◌&&◌, Bool-set}
use mathlib.Core.List.{
  List, [], ◌∷◌, ◌++◌, Perm, perm_middle, Mem, Mem-prop, not-mem-nil, mem-cons_self,
  mem-cons_of_mem, eq-or-mem_of_mem-cons,
}
use mathlib.Core.List.Perm
use native.Mathlib.Omega.{arith}
use athena_voice.Base.Tests.{if◌then◌else◌, Bool-cases}
use athena_voice.Base.Lists.{any, All}

module _ {ℓ} {A : Type ℓ} where
  unfoldable pub select : (A → Bool) → List A → List A
  select p [] = []
  select p (x ∷ xs) = let rest = select p xs in if p x then x ∷ rest else rest

  pub select_take :
      (p : A → Bool) (x : A) (xs : List A) → p x ≡ true → select p (x ∷ xs) ≡ x ∷ select p xs
  unfolding select
  select_take p x xs h = rw h refl

  pub select_skip :
      (p : A → Bool) (x : A) (xs : List A) → p x ≡ false → select p (x ∷ xs) ≡ select p xs
  unfolding select
  select_skip p x xs h = rw h refl

  -- What passes passes.
  pub select-All : (p : A → Bool) (xs : List A) → All (λ x. p x ≡ true) (select p xs)
  unfolding select
  select-All p [] = tt
  select-All p (x ∷ xs) = elim (Bool-cases (p x)) [
    | inl h ↦ rw h (h, select-All p xs)
    | inr h ↦ rw h (select-All p xs)
  ]

  -- Tests that agree on the elements select the same.
  pub select_agree :
      (p q : A → Bool) (xs : List A) → All (λ x. p x ≡ q x) xs → select p xs ≡ select q xs
  unfolding select
  select_agree p q [] h = refl
  select_agree p q (x ∷ xs) h =
      let rest = select_agree p q xs h.1 in
      elim (Bool-cases (q x)) [
        | inl hit ↦ rw (h.0, hit, rest) refl
        | inr miss ↦ rw (h.0, miss, rest) refl
      ]

  pub select-select :
      (p q : A → Bool) (xs : List A) → select p (select q xs) ≡ select (λ x. q x && p x) xs
  unfolding select
  select-select p q [] = refl
  select-select p q (x ∷ xs) =
      let rest = select-select p q xs in
      elim (Bool-cases (q x)) [
        | inr miss ↦ rw miss rest
        | inl hit ↦ rw hit (elim (Bool-cases (p x)) [
          | inl hit' ↦ rw hit' (ap (λ l. x ∷ l) rest)
          | inr miss' ↦ rw miss' rest
        ])
      ]

  -- A test and its negation share the elements out.
  pub select-Perm :
      (p : A → Bool) (xs : List A) → Perm (select p xs ++ select (λ x. not (p x)) xs) xs
  unfolding select
  select-Perm p [] = Perm.rfl
  select-Perm p (x ∷ xs) =
      let rest = select-Perm p xs in
      elim (Bool-cases (p x)) [
        | inl hit ↦ rw hit (Perm.cons x rest)
        | inr miss ↦
            rw miss (
              Perm.trans (perm_middle (select p xs) (select (λ x. not (p x)) xs))
                (Perm.cons x rest))
      ]

  any_of_Mem : (p : A → Bool) (x : A) (xs : List A) → Mem x xs → p x ≡ true → any p xs ≡ true
  any_of_Mem p x [] m h = absurd (not-mem-nil m)
  any_of_Mem p x (y ∷ ys) m h =
      Or.elim (Bool-set (any p (y ∷ ys)) true) (eq-or-mem_of_mem-cons m)
        (λ e. let here : p y ≡ true = ap p (sym e) ∙ h in rw here refl)
        (λ m'. let rest = any_of_Mem p x ys m' h in ground arith)

  Mem-of_any : (p : A → Bool) (xs : List A) → any p xs ≡ true → (x : A) × Mem x xs × (p x ≡ true)
  Mem-of_any p [] h = cc
  Mem-of_any p (y ∷ ys) h = elim (Bool-cases (p y)) [
    | inl here ↦ (y, mem-cons_self, here)
    | inr miss ↦ let (x, m, e) = Mem-of_any p ys (ground arith) in (x, mem-cons_of_mem y m, e)
  ]

  any_after : (p : A → Bool) (xs ys : List A) → Perm xs ys → any p xs ≡ true → any p ys ≡ true
  any_after p xs ys h e =
      let (x, m, e') = Mem-of_any p xs e in any_of_Mem p x ys ((Perm.mem_iff h).0 m) e'

  -- Whether some element passes does not depend on the order.
  pub any_of_Perm : (p : A → Bool) {xs ys : List A} → Perm xs ys → any p xs ≡ any p ys
  any_of_Perm p {xs} {ys} h = elim (Bool-cases (any p xs)) [
    | inl e ↦ e ∙ sym (any_after p xs ys h e)
    | inr e ↦ elim (Bool-cases (any p ys)) [
      | inr e' ↦ e ∙ sym e'
      | inl e' ↦ any_after p ys xs (Perm.symm h) e' ∙ sym e'
    ]
  ]

  All-of_Mem :
      (p : A → Bool) (xs : List A) → ((x : A) → Mem x xs → p x ≡ true) → All (λ x. p x ≡ true) xs
  All-of_Mem p [] h = tt
  All-of_Mem p (x ∷ xs) h =
      (h x mem-cons_self, All-of_Mem p xs (λ y. λ m. h y (mem-cons_of_mem x m)))

  Mem-All : (p : A → Bool) (x : A) (xs : List A) → Mem x xs → All (λ x. p x ≡ true) xs → p x ≡ true
  Mem-All p x [] m h = absurd (not-mem-nil m)
  Mem-All p x (y ∷ ys) m h =
      Or.elim (Bool-set (p x) true) (eq-or-mem_of_mem-cons m) (λ e. ap p e ∙ h.0)
        (λ m'. Mem-All p x ys m' h.1)

  -- What is in a list and passes is selected.
  pub mem-select :
      (p : A → Bool) (x : A) (xs : List A) → Mem x xs → p x ≡ true → Mem x (select p xs)
  unfolding select
  mem-select p x [] m h = absurd (not-mem-nil m)
  mem-select p x (y ∷ ys) m h =
      Or.elim Mem-prop (eq-or-mem_of_mem-cons m)
        (λ e.
          let here : p y ≡ true = ap p (sym e) ∙ h in
          rw here (subst (λ z. Mem x (z ∷ select p ys)) e mem-cons_self))
        (λ m'.
          let rest = mem-select p x ys m' h in
          elim (Bool-cases (p y)) [
            | inl hit ↦ rw hit (mem-cons_of_mem y rest)
            | inr miss ↦ rw miss rest
          ])

  -- Nor does whether every element passes.
  pub All-Perm :
      (p : A → Bool) {xs ys : List A}
      → Perm ys xs
      → All (λ x. p x ≡ true) ys
      → All (λ x. p x ≡ true) xs
  All-Perm p {xs} {ys} h k = All-of_Mem p xs (λ x. λ m. Mem-All p x ys ((Perm.mem_iff h).1 m) k)

pub All-select {ℓ κ} :
    {A : Type ℓ} (P : A → Type κ) (p : A → Bool) (xs : List A) → All P xs → All P (select p xs)
unfolding select
All-select P p [] h = tt
All-select P p (x ∷ xs) h = elim (Bool-cases (p x)) [
  | inl hit ↦ rw hit (h.0, All-select P p xs h.1)
  | inr miss ↦ rw miss (All-select P p xs h.1)
]
