-- ===== src/Core/Json.antt =====
-- The `serde_json` crate, a parameter of the code that reads JSON: a type of values, the parser, and the
-- accessors that the program calls.
use athena_voice.Base.{ℕ, Bool, Option, List}
use athena_voice.Text.{Text}

pub record JsonLib : Type 1 where
  pub Value : Type 0
  pub from_slice : List ℕ → Option Value
  pub get : Value → Text → Option Value
  pub as_str : Value → Option Text
  pub as_u64 : Value → Option ℕ
  pub as_bool : Value → Option Bool
