-- ===== src/Tests/Home.antt =====
-- Commands for a home at a concrete configuration.
use athena_voice.Base.{
  ℕ, zero, suc, ◌≡◌, refl, sym, ap, ◌∙◌, Bool, true, false, Option, none, some, List, [], ◌∷◌,
}
use athena_voice.Text.{Text, codes, strip_prefix, is_empty}
use athena_voice.Text.Decimal.{parse_u64, parse_digits}
use athena_voice.Skills.Jeedom.{ActionDevice, Pending, PendingJson, Setup, House, turn_of}
use athena_voice.Skills.Jeedom.Commands.{command}
use athena_voice.Skills.Jeedom.Commands.Confirm.{
  ConfirmsOnce, house_after, question, command-ConfirmsOnce,
}

abbrev heater : ActionDevice
heater = record {
  name = codes "chauffage";
  room = [];
  prefix = [];
  on_id = 7;
  off_id = 8;
  confirm = true;
}

abbrev home : Setup
home = record {
  base_url = some (codes "http://box/");
  api_key = some (codes "k");
  actions = heater ∷ [];
  shutters = [];
}

-- A printing of pending commands: the number, the slider's value and one, if there is a slider, and the label.
abbrev slider_byte : Option ℕ → ℕ
slider_byte none = 0
slider_byte (some v) = suc v

abbrev slider_at : ℕ → Option ℕ
slider_at zero = none
slider_at (suc v) = some v

abbrev bytes_of : Pending → List ℕ
bytes_of p = p.cmd_id ∷ slider_byte p.slider ∷ p.label

abbrev pending_of : List ℕ → Option Pending
pending_of [] = none
pending_of (c ∷ []) = none
pending_of (c ∷ b ∷ t) = some (record { cmd_id = c; label = t; slider = slider_at b })

slider_at-slider_byte : (o : Option ℕ) → slider_at (slider_byte o) ≡ o
slider_at-slider_byte none = refl
slider_at-slider_byte (some v) = refl

pending_of-bytes_of :
    (p : Pending) (bytes : List ℕ) → some (bytes_of p) ≡ some bytes → pending_of bytes ≡ some p
pending_of-bytes_of p bytes e =
    ap pending_of (sym (same (bytes_of p) bytes e))
    ∙ ap (λ o. some (record { cmd_id = p.cmd_id; label = p.label; slider = o }))
        (slider_at-slider_byte p.slider)
  where
    same : (a b : List ℕ) → some a ≡ some b → a ≡ b
    same a b e = cc

bytes_of-filled :
    (p : Pending) (bytes : List ℕ) → some (bytes_of p) ≡ some bytes → is_empty bytes ≡ false
bytes_of-filled p [] e = cc
bytes_of-filled p (c ∷ t) e = refl

abbrev plain_json : PendingJson
plain_json = record {
  to_vec = λ p. some (bytes_of p);
  from_slice = pending_of;
  from_slice-to_vec = pending_of-bytes_of;
  to_vec-filled = bytes_of-filled;
}

-- Every request succeeds.
abbrev reached : List Text → Text → Bool
reached before url = true

abbrev still : House
still = record { requests = []; tmp = record { store = [] } }

command-ConfirmsOnce_example : ConfirmsOnce plain_json reached home [] 7 25 26 true none (
    house_after
      (command plain_json reached home (codes "jeedom.turn_on.7") none false 10 still)
      still)
unfolding turn_of strip_prefix parse_u64 parse_digits
command-ConfirmsOnce_example =
    command-ConfirmsOnce plain_json reached home (codes "jeedom.turn_on.7") (codes "7") true none
      none false true 10 25 26 still heater
      (bytes_of (question plain_json reached home heater true false)) refl refl refl refl refl
