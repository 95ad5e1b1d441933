-- ===== src/Skills/Jeedom.antt =====
-- The commands of the home-automation skill of skills-jeedom/src/lib.rs: switching devices, moving shutters,
-- and the confirmation of either. What the skill sends to Jeedom is the list of the addresses that it gets, in
-- order; whether a request succeeds is a parameter. The pending command lies in the temporary store, as the text
-- that `serde_json` makes of it, and under the empty name of a skill, since the plugin builds its context with
-- `HostCtx::for_testing`; so it is not the skill's own. The position that a request names, from 0 to 100, is an argument.
pub mod Commands
use athena_voice.Base.{
  ℕ, ◌+◌, Bool, true, false, ◌&&◌, ◌||◌, Option, none, some, List, [], ◌∷◌, ◌++◌, length, leb, ◌==◌,
  if◌then◌else◌, ◌≡◌,
}
use athena_voice.Text.{Text, codes, text_eq, is_empty, strip_prefix, concat}
use athena_voice.Text.Decimal.{decimal, parse_u64}
use athena_voice.Storage.Tmp.{MemoryTmpStore, tmp_get, tmp_set}

pub record ActionDevice : Type 0 where
  pub name : Text
  pub room : Text
  pub prefix : Text
  pub on_id : ℕ
  pub off_id : ℕ
  pub confirm : Bool

pub record Shutter : Type 0 where
  pub name : Text
  pub room : Text
  pub prefix : Text
  pub up_id : ℕ
  pub down_id : ℕ
  pub stop_id : ℕ
  pub slider_id : ℕ
  pub confirm : Bool

pub record Pending : Type 0 where
  pub cmd_id : ℕ
  pub label : Text
  pub slider : Option ℕ

pub data ShutterCmd : Type 0 where
  open_cmd : ShutterCmd
  close_cmd : ShutterCmd
  stop_cmd : ShutterCmd
  pos_cmd : ℕ → ShutterCmd

-- `serde_json` on a pending command: what is printed is read back, and is not empty.
pub record PendingJson : Type 0 where
  pub to_vec : Pending → Option (List ℕ)
  pub from_slice : List ℕ → Option Pending
  pub from_slice-to_vec :
      (p : Pending) (bytes : List ℕ) → to_vec p ≡ some bytes → from_slice bytes ≡ some p
  pub to_vec-filled :
      (p : Pending) (bytes : List ℕ) → to_vec p ≡ some bytes → is_empty bytes ≡ false

-- The configuration that the skill reads.
pub record Setup : Type 0 where
  pub base_url : Option Text
  pub api_key : Option Text
  pub actions : List ActionDevice
  pub shutters : List Shutter

pub record House : Type 0 where
  pub requests : List Text
  pub tmp : MemoryTmpStore

-- `trim_end_matches('/')`
abbrev slash_cons : ℕ → Text → Text
slash_cons c [] = if c == b'/' then [] else c ∷ []
slash_cons c (d ∷ t) = c ∷ d ∷ t

trim_end_slashes : Text → Text
trim_end_slashes [] = []
trim_end_slashes (c ∷ t) = slash_cons c (trim_end_slashes t)

url_of : Option Text → Option Text → ℕ → Option Text
unfolding trim_end_slashes
url_of none key id = none
url_of (some base) none id = none
url_of (some base) (some key) id =
    if is_empty base || is_empty key
    then none
    else some (
        concat (
          trim_end_slashes base
          ∷ codes "/core/api/jeeApi.php?apikey="
          ∷ key
          ∷ codes "&type=cmd&id="
          ∷ decimal id
          ∷ []))

pub jeedom_url : Setup → ℕ → Option Text
unfolding url_of
jeedom_url setup id = url_of setup.base_url setup.api_key id

-- The texts of the answers.
abbrev pub unknown_device : Bool → Text
unknown_device true = codes "sorry, I don't know that device"
unknown_device false = codes "désolé, je ne connais pas cet appareil"

abbrev pub nothing_pending : Bool → Text
nothing_pending true = codes "Nothing to confirm."
nothing_pending false = codes "Rien à confirmer."

abbrev pub done_or_error : Bool → Bool → Text
done_or_error true true = codes "Done."
done_or_error true false = codes "C'est fait."
done_or_error false true = codes "sorry, I can't reach Jeedom right now"
done_or_error false false = codes "désolé, je n'arrive pas à joindre Jeedom"

abbrev pub confirm_text : Bool → Text → Text
confirm_text true label = concat (codes "Confirm: " ∷ label ∷ codes "?" ∷ [])
confirm_text false label = concat (codes "Tu confirmes : " ∷ label ∷ codes " ?" ∷ [])

abbrev pub action_label : ActionDevice → Bool → Bool → Text
action_label d true false = codes "allumer " ++ d.name
action_label d false false = codes "éteindre " ++ d.name
action_label d true true = codes "turn on " ++ d.name
action_label d false true = codes "turn off " ++ d.name

abbrev pub shutter_label : Text → ShutterCmd → Bool → Text
shutter_label name open_cmd false = codes "ouvrir " ++ name
shutter_label name close_cmd false = codes "fermer " ++ name
shutter_label name stop_cmd false = codes "arrêter " ++ name
shutter_label name (pos_cmd v) false =
    concat (codes "mettre " ∷ name ∷ codes " à " ∷ decimal v ∷ codes " pour cent" ∷ [])
shutter_label name open_cmd true = codes "open " ++ name
shutter_label name close_cmd true = codes "close " ++ name
shutter_label name stop_cmd true = codes "stop " ++ name
shutter_label name (pos_cmd v) true =
    concat (codes "set " ∷ name ∷ codes " to " ∷ decimal v ∷ codes " percent" ∷ [])

abbrev pub ask_position : Bool → Text
ask_position true = codes "To what position, in percent?"
ask_position false = codes "À quelle position, en pourcentage ?"

-- `group_answer` when some shutter failed and some did not.
abbrev some_failed : Bool → ℕ → Text
some_failed false failed =
    if failed == 1
    then codes "C'est fait, mais un volet n'a pas répondu."
    else concat
        (codes "C'est fait, mais " ∷ decimal failed ∷ codes " volets n'ont pas répondu." ∷ [])
some_failed true failed =
    if failed == 1
    then codes "Done, but 1 shutter did not respond."
    else concat (codes "Done, but " ∷ decimal failed ∷ codes " shutters did not respond." ∷ [])

group_answer : ℕ → ℕ → Bool → Text
group_answer total failed en =
    if failed == 0
    then done_or_error true en
    else if leb total failed
    then done_or_error false en
    else some_failed en failed

-- What follows the last prefix of a name, with what the prefix says.
abbrev first_of : {A : Type 0} → Option A → Option A → Option A
first_of none other = other
first_of (some a) other = some a

abbrev tagged : {A : Type 0} → A → Option Text → Option (Text × A)
tagged a none = none
tagged a (some key) = some (key, a)

unfoldable pub turn_of : Text → Option (Text × Bool)
turn_of name =
    first_of (tagged true (strip_prefix (codes "jeedom.turn_on.") name))
      (tagged false (strip_prefix (codes "jeedom.turn_off.") name))

unfoldable pub shutter_of : Text → Option (Text × ShutterCmd)
shutter_of name = first_of (tagged open_cmd (strip_prefix (codes "jeedom.shutter_open.") name)) (
    first_of (tagged close_cmd (strip_prefix (codes "jeedom.shutter_close.") name)) (
      first_of (tagged stop_cmd (strip_prefix (codes "jeedom.shutter_stop.") name))
        (tagged (pos_cmd 0) (strip_prefix (codes "jeedom.shutter_pos.") name))))

abbrev pub device_at : Option ℕ → List ActionDevice → Option ActionDevice
device_at none ds = none
device_at (some k) [] = none
device_at (some k) (d ∷ ds) =
    let rest = device_at (some k) ds in if d.on_id == k then some d else rest

abbrev pub shutter_at : Option ℕ → List Shutter → Option Shutter
shutter_at none ss = none
shutter_at (some k) [] = none
shutter_at (some k) (s ∷ ss) =
    let rest = shutter_at (some k) ss in if s.up_id == k then some s else rest

abbrev cmd_id_of : Shutter → ShutterCmd → ℕ
cmd_id_of s open_cmd = s.up_id
cmd_id_of s close_cmd = s.down_id
cmd_id_of s stop_cmd = s.stop_id
cmd_id_of s (pos_cmd v) = s.slider_id

-- A shutter that asks first, except for a stop.
abbrev pub gated : Shutter → ShutterCmd → Bool
gated s open_cmd = s.confirm
gated s close_cmd = s.confirm
gated s stop_cmd = false
gated s (pos_cmd v) = s.confirm

abbrev slider_of : ShutterCmd → Option ℕ
slider_of open_cmd = none
slider_of close_cmd = none
slider_of stop_cmd = none
slider_of (pos_cmd v) = some v

-- The command with the position that was asked for; none without it.
abbrev aimed : ShutterCmd → Option ℕ → Option ShutterCmd
aimed open_cmd position = some open_cmd
aimed close_cmd position = some close_cmd
aimed stop_cmd position = some stop_cmd
aimed (pos_cmd v) none = none
aimed (pos_cmd v) (some p) = some (pos_cmd p)
