-- ===== src/Text/Split.antt =====
-- Splitting and joining are inverse, prefixes are stripped, and equality of texts is decided.
use athena_voice.Base.{
  ℕ, ◌≡◌, refl, ap, ◌∙◌, ◌↔◌, true, false, some, List, [], ◌∷◌, ◌++◌, arith, ◌==◌, ==_iff, All,
  Bool-cases, inl, inr,
}
use athena_voice.Text.{Text, text_eq, contains, push_head, split, join, strip_prefix}

pub text_eq_refl : (t : Text) → text_eq t t ≡ true
unfolding text_eq
text_eq_refl [] = refl
text_eq_refl (c ∷ t) = ground (arith, text_eq_refl t)

pub eq_of_text_eq : (s t : Text) → text_eq s t ≡ true → s ≡ t
unfolding text_eq
eq_of_text_eq [] [] h = refl
eq_of_text_eq [] (b ∷ t) h = cc
eq_of_text_eq (a ∷ s) [] h = cc
eq_of_text_eq (a ∷ s) (b ∷ t) h = ground (arith, eq_of_text_eq s t)

pub text_eq_iff : (s t : Text) → ((text_eq s t) ≡ true) ↔ (s ≡ t)
text_eq_iff s t = (eq_of_text_eq s t, λ e. rw e (text_eq_refl t))

-- A text without the separator is a part of its own.
pub split-part : (sep : ℕ) (w : Text) → contains sep w ≡ false → split sep w ≡ w ∷ []
unfolding split
split-part sep [] h = refl
split-part sep (c ∷ w) h = ground (arith, split-part sep w)

pub split-append :
    (sep : ℕ) (w t : Text) → contains sep w ≡ false → split sep (w ++ sep ∷ t) ≡ w ∷ split sep t
unfolding split
split-append sep [] t h = ground arith
split-append sep (c ∷ w) t h = ground (arith, split-append sep w t)

pub split-join :
    (sep : ℕ) (w : Text) (ws : List Text)
    → All (λ v. contains sep v ≡ false) (w ∷ ws)
    → split sep (join sep (w ∷ ws)) ≡ w ∷ ws
unfolding join
split-join sep w [] h = split-part sep w h.0
split-join sep w (v ∷ ws) h =
    split-append sep w (join sep (v ∷ ws)) h.0 ∙ ap (λ r. w ∷ r) (split-join sep v ws h.1)

split_nonempty : (sep : ℕ) (t : Text) → (w : Text) × (ws : List Text) × (split sep t ≡ w ∷ ws)
unfolding split
split_nonempty sep [] = ([], [], refl)
split_nonempty sep (c ∷ t) =
    let (w, ws, e) = split_nonempty sep t in
    elim (Bool-cases (c == sep)) [
      | inl same ↦ ([], split sep t, rw same refl)
      | inr other ↦ (c ∷ w, ws, rw (other, e) refl)
    ]

join-push_head :
    (sep c : ℕ) (w : Text) (ws : List Text)
    → join sep (push_head c (w ∷ ws)) ≡ c ∷ join sep (w ∷ ws)
unfolding join
join-push_head sep c w [] = refl
join-push_head sep c w (v ∷ ws) = refl

pub join-split : (sep : ℕ) (t : Text) → join sep (split sep t) ≡ t
unfolding split join
join-split sep [] = refl
join-split sep (c ∷ t) =
    let (w, ws, e) = split_nonempty sep t in
    let ih : join sep (w ∷ ws) ≡ t = rw (← e) (join-split sep t) in
    elim (Bool-cases (c == sep)) [
      | inl same ↦ rw (same, e) (cc (ih, (==_iff c sep).0 same))
      | inr other ↦ rw (other, e) (join-push_head sep c w ws ∙ ap (λ r. c ∷ r) ih)
    ]

pub strip_prefix-append : (p t : Text) → strip_prefix p (p ++ t) ≡ some t
unfolding strip_prefix
strip_prefix-append [] t = refl
strip_prefix-append (c ∷ p) t = ground (arith, strip_prefix-append p t)

pub eq_of_strip_prefix : (p s t : Text) → strip_prefix p s ≡ some t → s ≡ p ++ t
unfolding strip_prefix
eq_of_strip_prefix [] s t h = ground arith
eq_of_strip_prefix (c ∷ p) [] t h = cc
eq_of_strip_prefix (c ∷ p) (d ∷ s) t h = ground (arith, eq_of_strip_prefix p s t)

push_head-no_sep :
    (sep c : ℕ)
    → (c == sep) ≡ false
    → (ws : List Text) → All (λ w. contains sep w ≡ false) ws
    → All (λ w. contains sep w ≡ false) (push_head c ws)
push_head-no_sep sep c other [] h = (rw other refl, tt)
push_head-no_sep sep c other (w ∷ ws) h = (rw other h.0, h.1)

-- No part has the separator in it.
pub split-no_sep : (sep : ℕ) (t : Text) → All (λ w. contains sep w ≡ false) (split sep t)
unfolding split
split-no_sep sep [] = (refl, tt)
split-no_sep sep (c ∷ t) = elim (Bool-cases (c == sep)) [
  | inl same ↦ rw same (refl, split-no_sep sep t)
  | inr other ↦ rw other (push_head-no_sep sep c other (split sep t) (split-no_sep sep t))
]
