-- ===== src/Intent/Rules.antt =====
-- The rules of crates/athena-voice-runtime/src/intent/rule.rs, and their index by locale of loader.rs.
use athena_voice.Base.{ℕ, ◌≡◌, Option, none, some, List, [], ◌∷◌, ◌++◌, length, if◌then◌else◌}
use athena_voice.Base.Dict.{KeyTest, lookup, insert, lookup-insert}
use athena_voice.Text.{Text, text_eq}
use athena_voice.Text.Split.{text_eq_refl, eq_of_text_eq}

pub data HostSlotKind : Type 0 where
  string_kind : HostSlotKind
  number_kind : HostSlotKind
  one_of : List Text → HostSlotKind

pub record HostSlotSpec : Type 0 where
  pub name : Text
  pub kind : HostSlotKind

pub record HostPatternRule : Type 0 where
  pub intent : Text
  pub phrases : List Text
  pub slots : List HostSlotSpec

-- A rule, and the skill that owns it.
abbrev pub RuleEntry : Type 0
RuleEntry = HostPatternRule × Text

abbrev pub locales : KeyTest Text
locales = record { same = text_eq; same_refl = text_eq_refl; same_sound = eq_of_text_eq }

pub record RuleIndex : Type 0 where
  pub by_locale : List (Text × List RuleEntry)

unfoldable pub new : RuleIndex
new = record { by_locale = [] }

-- `or_default`
abbrev pub entries : Option (List RuleEntry) → List RuleEntry
entries none = []
entries (some es) = es

-- `entry(locale).or_default().push((rule, skill))`
unfoldable pub insert_rule : Text → HostPatternRule → Text → RuleIndex → RuleIndex
insert_rule locale rule skill index = record {
  by_locale =
      insert locales locale (entries (lookup locales locale index.by_locale) ++ (rule, skill) ∷ [])
        index.by_locale;
}

unfoldable pub for_locale : Text → RuleIndex → Option (List RuleEntry)
for_locale locale index = lookup locales locale index.by_locale

unfoldable pub locale_count : RuleIndex → ℕ
locale_count index = length index.by_locale

-- An inserted rule is the last one of its locale, and the other locales keep theirs.
pub for_locale-insert_rule :
    (other locale : Text) (rule : HostPatternRule) (skill : Text) (index : RuleIndex)
    → for_locale other (insert_rule locale rule skill index) ≡ (
        if text_eq other locale
        then some (entries (for_locale locale index) ++ (rule, skill) ∷ [])
        else for_locale other index)
unfolding for_locale insert_rule
for_locale-insert_rule other locale rule skill index =
    lookup-insert locales other locale
      (entries (lookup locales locale index.by_locale) ++ (rule, skill) ∷ []) index.by_locale
