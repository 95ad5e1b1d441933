-- ===== src/Skills/Jeedom/Commands.antt =====
-- The commands themselves, of `handle` in skills-jeedom/src/lib.rs. `replies` is whether a request succeeds, given
-- those before it; `now` is the clock in seconds.
pub mod Confirm
pub mod Gate
use athena_voice.Base.{
  ℕ, ◌+◌, Bool, true, false, ◌||◌, Option, none, some, List, [], ◌∷◌, ◌++◌, length, ◌==◌,
  if◌then◌else◌,
}
use athena_voice.Text.{Text, codes, text_eq, is_empty, concat}
use athena_voice.Text.Decimal.{decimal, parse_u64}
use athena_voice.Storage.Tmp.{MemoryTmpStore, tmp_get, tmp_set}
use athena_voice.Skills.Jeedom.{
  ActionDevice, Shutter, Pending, ShutterCmd, open_cmd, close_cmd, stop_cmd, pos_cmd, PendingJson,
  Setup, House, jeedom_url, unknown_device, nothing_pending, done_or_error, confirm_text,
  action_label, shutter_label, ask_position, group_answer, turn_of, shutter_of, device_at,
  shutter_at, cmd_id_of, gated, slider_of, aimed,
}

module _ (json : PendingJson) (replies : List Text → Text → Bool) (setup : Setup) where
  open json use {to_vec, from_slice}

  get_url : Option Text → House → Bool × House
  get_url none h = (false, h)
  get_url (some url) h = (replies h.requests url, record h { requests = h.requests ++ url ∷ [] })

  with_slider : ℕ → Option Text → Option Text
  with_slider value none = none
  with_slider value (some url) = some (concat (url ∷ codes "&slider=" ∷ decimal value ∷ []))

  pub exec_cmd : ℕ → House → Bool × House
  unfolding get_url
  exec_cmd id h = get_url (jeedom_url setup id) h

  pub exec_slider : ℕ → ℕ → House → Bool × House
  unfolding get_url with_slider
  exec_slider id value h = get_url (with_slider value (jeedom_url setup id)) h

  -- A command at the device: a slider with its value, or a plain one.
  abbrev pub exec_with : ℕ → Option ℕ → House → Bool × House
  exec_with id none h = exec_cmd id h
  exec_with id (some value) h = exec_slider id value h

  abbrev pub answered : Bool → Bool × House → Text × House
  answered en (executed, h) = (done_or_error executed en, h)

  kept : Option (List ℕ) → ℕ → House → House
  kept none now h = h
  kept (some bytes) now h = record h {
    tmp = tmp_set [] (codes "pending_action") bytes 30 now h.tmp;
  }

  unfoldable pub ask : Pending → Bool → ℕ → House → Text × House
  unfolding kept
  ask p en now h = (confirm_text en p.label, kept (to_vec p) now h)

  pending_in : Option (List ℕ) → Option Pending
  pending_in none = none
  pending_in (some bytes) = if is_empty bytes then none else from_slice bytes

  unfoldable pub load_pending : ℕ → House → House × Option Pending
  unfolding pending_in
  load_pending now h =
      let (tmp', found) = tmp_get [] (codes "pending_action") now h.tmp in
      (record h { tmp = tmp' }, pending_in found)

  clear_pending : ℕ → House → House
  clear_pending now h = record h { tmp = tmp_set [] (codes "pending_action") [] 1 now h.tmp }

  turn : Option ActionDevice → Bool → Bool → ℕ → House → Text × House
  unfolding ask
  turn none on en now h = (unknown_device en, h)
  turn (some d) on en now h =
      let cmd_id = if on then d.on_id else d.off_id in
      let asked =
        ask (record { cmd_id = cmd_id; label = action_label d on en; slider = none }) en now h in
      let done = answered en (exec_cmd cmd_id h) in if d.confirm then asked else done

  -- `filter(...).count()` over the shutters: how many requests fail.
  run_group : Bool → List Shutter → House → ℕ × House
  run_group opens [] h = (0, h)
  run_group opens (s ∷ ss) h =
      let (executed, h') = exec_cmd (if opens then s.up_id else s.down_id) h in
      let (failed, h'') = run_group opens ss h' in (if executed then failed else failed + 1, h'')

  group : Bool → List Shutter → Bool → House → Text × House
  unfolding run_group
  group opens [] en h = (unknown_device en, h)
  group opens (s ∷ ss) en h =
      let (failed, h') = run_group opens (s ∷ ss) h in
      (group_answer (length (s ∷ ss)) failed en, h')

  move : Shutter → Option ShutterCmd → Bool → ℕ → House → Text × House
  unfolding ask exec_slider exec_cmd
  move s none en now h = (ask_position en, h)
  move s (some cmd) en now h =
      let cmd_id = cmd_id_of s cmd in
      let asked =
        ask
          (record { cmd_id = cmd_id; label = shutter_label s.name cmd en; slider = slider_of cmd })
          en now h in
      let done = answered en (exec_with cmd_id (slider_of cmd) h) in
      if cmd_id == 0 then (unknown_device en, h) else if gated s cmd then asked else done

  on_shutter : Option Shutter → ShutterCmd → Option ℕ → Bool → ℕ → House → Text × House
  unfolding move
  on_shutter none cmd position en now h = (unknown_device en, h)
  on_shutter (some s) cmd position en now h = move s (aimed cmd position) en now h

  confirmed : House × Option Pending → Bool → ℕ → Text × House
  unfolding clear_pending exec_slider
  confirmed (h, none) en now = (nothing_pending en, h)
  confirmed (h, some p) en now = answered en (exec_with p.cmd_id p.slider (clear_pending now h))

  cancelled : House × Option Pending → Bool → ℕ → Text × House
  unfolding clear_pending
  cancelled (h, none) en now = (nothing_pending en, h)
  cancelled (h, some p) en now =
      (if en then codes "Cancelled." else codes "Annulé.", clear_pending now h)

  -- The tests behind those of the shutters; none when the question is one for a sensor.
  talk : Text → Bool → ℕ → House → Option (Text × House)
  unfolding confirmed cancelled load_pending
  talk name en now h =
      if text_eq name (codes "jeedom.confirm")
      then some (confirmed (load_pending now h) en now)
      else if text_eq name (codes "jeedom.cancel")
      then some (cancelled (load_pending now h) en now)
      else none

  shutter_or_talk :
      Option (Text × ShutterCmd) → Text → Option ℕ → Bool → ℕ → House → Option (Text × House)
  unfolding on_shutter talk
  shutter_or_talk none name position en now h = talk name en now h
  shutter_or_talk (some (key, cmd)) name position en now h =
      some (on_shutter (shutter_at (parse_u64 key) setup.shutters) cmd position en now h)

  abbrev pub is_group : Text → Bool
  unfolding text_eq
  is_group name =
      text_eq name (codes "jeedom.shutter_open_all")
      || text_eq name (codes "jeedom.shutter_close_all")

  turn_or_rest : Option (Text × Bool) → Text → Option ℕ → Bool → ℕ → House → Option (Text × House)
  unfolding turn group shutter_or_talk
  turn_or_rest (some (key, on)) name position en now h =
      some (turn (device_at (parse_u64 key) setup.actions) on en now h)
  turn_or_rest none name position en now h =
      if is_group name
      then some (group (text_eq name (codes "jeedom.shutter_open_all")) setup.shutters en h)
      else shutter_or_talk (shutter_of name) name position en now h

  unfoldable pub command : Text → Option ℕ → Bool → ℕ → House → Option (Text × House)
  unfolding turn_or_rest jeedom_url group_answer
  command name position en now h = turn_or_rest (turn_of name) name position en now h
