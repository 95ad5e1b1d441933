-- ===== src/Tests/Libs.antt =====
-- Small stand-ins for the crates that the models take as parameters.
use athena_voice.Base.{ℕ, ◌≡◌, refl, Bool, true, false, Option, none, some, List, if◌then◌else◌}
use athena_voice.Text.{Text, codes, text_eq, contains}
use athena_voice.Core.Ids.{UuidLib}
use athena_voice.Core.Json.{JsonLib}

-- Two ids.
abbrev pub print_id : Bool → Text
print_id true = codes "a1"
print_id false = codes "b2"

abbrev pub parse_id : Text → Option Bool
unfolding text_eq
parse_id t =
    if text_eq t (codes "a1")
    then some true
    else if text_eq t (codes "b2")
    then some false
    else none

pub parse-print_id : (u : Bool) → parse_id (print_id u) ≡ some u
unfolding text_eq
parse-print_id true = refl
parse-print_id false = refl

pub print_id-no_slash : (u : Bool) → contains b'/' (print_id u) ≡ false
print_id-no_slash true = refl
print_id-no_slash false = refl

abbrev pub two_ids : UuidLib
two_ids = record {
  Uuid = Bool;
  parse_str = parse_id;
  to_string = print_id;
  parse-to_string = parse-print_id;
  hyphenated = print_id-no_slash;
}

-- Every payload is a value that holds itself under every key.
abbrev pub raw_json : JsonLib
raw_json = record {
  Value = List ℕ;
  from_slice = λ bytes. some bytes;
  get = λ v key. some v;
  as_str = λ v. some v;
  as_u64 = λ v. some 24000;
  as_bool = λ v. some true;
}
