-- ===== src/Text/Solid.antt =====
-- The characters of a text that are not white space; trimming keeps all of them.
use athena_voice.Base.{◌≡◌, refl, ◌∙◌, ℕ, [], ◌∷◌, ◌++◌, arith, if◌then◌else◌}
use athena_voice.Text.{Text, is_whitespace, trim_start, trim_end_cons, trim_end, trim}

-- What is left of a text without its white space.
unfoldable pub solid : Text → Text
solid [] = []
solid (c ∷ t) = if is_whitespace c then solid t else c ∷ solid t

pub solid-nil : solid [] ≡ []
unfolding solid
solid-nil = refl

pub solid-append : (s t : Text) → solid (s ++ t) ≡ solid s ++ solid t
unfolding solid
solid-append [] t = refl
solid-append (c ∷ s) t = ground (arith, solid-append s t)

solid-trim_start : (t : Text) → solid (trim_start t) ≡ solid t
unfolding solid trim_start
solid-trim_start [] = refl
solid-trim_start (c ∷ t) = ground (arith, solid-trim_start t)

solid-trim_end_cons : (c : ℕ) (u : Text) → solid (trim_end_cons c u) ≡ solid (c ∷ u)
unfolding solid trim_end_cons
solid-trim_end_cons c [] = ground arith
solid-trim_end_cons c (d ∷ u) = refl

solid_cons : (c : ℕ) (s t : Text) → solid s ≡ solid t → solid (c ∷ s) ≡ solid (c ∷ t)
unfolding solid
solid_cons c s t h = ground arith

solid-trim_end : (t : Text) → solid (trim_end t) ≡ solid t
unfolding trim_end
solid-trim_end [] = refl
solid-trim_end (c ∷ t) =
    solid-trim_end_cons c (trim_end t) ∙ solid_cons c (trim_end t) t (solid-trim_end t)

pub solid-trim : (t : Text) → solid (trim t) ≡ solid t
unfolding trim
solid-trim t = solid-trim_end (trim_start t) ∙ solid-trim_start t
