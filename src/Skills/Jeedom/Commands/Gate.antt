-- ===== src/Skills/Jeedom/Commands/Gate.antt =====
-- What is never done without a confirmation.
use athena_voice.Base.{◌≡◌, Bool, true, false, Option, none, some, List}
use athena_voice.Text.{Text}
use athena_voice.Text.Decimal.{parse_u64}
use athena_voice.Skills.Jeedom.{
  ActionDevice, Shutter, ShutterCmd, open_cmd, close_cmd, stop_cmd, pos_cmd, PendingJson, Setup,
  device_at, shutter_at,
}

-- The names of stops.
abbrev pub is_stop : Option (Text × ShutterCmd) → Bool
is_stop none = false
is_stop (some (key, open_cmd)) = false
is_stop (some (key, close_cmd)) = false
is_stop (some (key, stop_cmd)) = true
is_stop (some (key, pos_cmd v)) = false

-- A device, or a shutter, that is to be confirmed, if there is one.
abbrev pub DeviceGuarded : Option ActionDevice → Type 0
DeviceGuarded none = Unit
DeviceGuarded (some d) = d.confirm ≡ true

abbrev pub ShutterGuarded : Option Shutter → Type 0
ShutterGuarded none = Unit
ShutterGuarded (some s) = s.confirm ≡ true

module _ (json : PendingJson) (replies : List Text → Text → Bool) (setup : Setup) where
  -- The device, and the shutter, that a name addresses.
  abbrev pub device_for : Option (Text × Bool) → Option ActionDevice
  device_for none = none
  device_for (some (key, on)) = device_at (parse_u64 key) setup.actions

  abbrev pub addressed : Option (Text × ShutterCmd) → Option Shutter
  addressed none = none
  addressed (some (key, cmd)) = shutter_at (parse_u64 key) setup.shutters
