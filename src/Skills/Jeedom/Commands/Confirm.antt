-- ===== src/Skills/Jeedom/Commands/Confirm.antt =====
-- What a confirmation does.
use mathlib.Core.Path.{subst}
use athena_voice.Base.{
  ℕ, ◌+◌, ◌≡◌, refl, sym, ap, ◌∙◌, Bool, true, false, Option, none, some, List, [], ◌∷◌, ◌++◌, leb,
  if◌then◌else◌,
}
use athena_voice.Base.Dict.{lookup, remove, lookup-insert}
use athena_voice.Text.{Text, codes, text_eq, strip_prefix}
use athena_voice.Text.Decimal.{parse_u64}
use athena_voice.Storage.Tmp.{
  MemoryTmpStore, Key, keys, same_key_refl, u64, tmp_get, tmp_set, get_found,
}
use athena_voice.Skills.Jeedom.{
  ActionDevice, Pending, PendingJson, Setup, House, jeedom_url, action_label, turn_of, shutter_of,
  device_at,
}
use athena_voice.Skills.Jeedom.Commands.{
  get_url, exec_cmd, exec_with, answered, kept, ask, pending_in, load_pending, clear_pending, turn,
  confirmed, talk, shutter_or_talk, turn_or_rest, command,
}

-- The state after a command; a question for a sensor leaves it.
abbrev pub house_after : Option (Text × House) → House → House
house_after none h = h
house_after (some (text, h')) h = h'

-- The requests with one more, if its address can be made.
abbrev pub sends : Option Text → List Text → List Text
sends none requests = requests
sends (some url) requests = requests ++ url ∷ []

-- A value is read back at once, if it has not expired.
tmp_get-tmp_set_next :
    (skill key : Text) (val : List ℕ) (expires_sec start now : ℕ) (s : MemoryTmpStore)
    → (tmp_get skill key now (tmp_set skill key val expires_sec start s)).1
      ≡ (if leb (u64 (start + expires_sec)) now then none else some val)
unfolding tmp_get tmp_set get_found
tmp_get-tmp_set_next skill key val expires_sec start now s =
    let k : Key = (skill, key) in
    let t : MemoryTmpStore = tmp_set skill key val expires_sec start s in
    let found : lookup keys k t.store ≡ some (u64 (start + expires_sec), val) =
      lookup-insert keys k k (u64 (start + expires_sec), val) s.store ∙ rw (same_key_refl k) refl in
    ap (λ o. (get_found k o now t).1) found ∙ expiry (leb (u64 (start + expires_sec)) now) t
  where
    expiry :
        (b : Bool) (t : MemoryTmpStore)
        → (let gone : MemoryTmpStore × Option (List ℕ) =
              (record { store = remove keys (skill, key) t.store }, none) in
            let here : MemoryTmpStore × Option (List ℕ) = (t, some val) in
            let r : MemoryTmpStore × Option (List ℕ) = if b then gone else here in r.1)
          ≡ (if b then none else some val)
    expiry true t = refl
    expiry false t = refl

module _ (json : PendingJson) (replies : List Text → Text → Bool) (setup : Setup) where
  exec_cmd-requests :
      (id : ℕ) (h : House)
      → (exec_cmd json replies setup id h).1.requests ≡ sends (jeedom_url setup id) h.requests
  unfolding exec_cmd get_url
  exec_cmd-requests id h = got (jeedom_url setup id)
    where
      got : (o : Option Text) → (get_url json replies setup o h).1.requests ≡ sends o h.requests
      got none = refl
      got (some url) = refl

  -- What was kept is read back, and what was cleared is not.
  load-kept :
      (p : Pending) (bytes : List ℕ) (now now' : ℕ) (h : House)
      → json.to_vec p ≡ some bytes
      → leb (u64 (now + 30)) now' ≡ false
      → (load_pending json replies setup now' (kept json replies setup (some bytes) now h)).1
        ≡ some p
  unfolding load_pending kept pending_in
  load-kept p bytes now now' h e alive =
      ap (pending_in json replies setup) (
        tmp_get-tmp_set_next [] (codes "pending_action") bytes 30 now now' h.tmp
        ∙ alive_now (leb (u64 (now + 30)) now') alive)
      ∙ filled
    where
      alive_now : (b : Bool) → b ≡ false → (if b then none else some bytes) ≡ some bytes
      alive_now true q = cc
      alive_now false q = refl

      filled : pending_in json replies setup (some bytes) ≡ some p
      filled = rw (json.to_vec-filled p bytes e) (json.from_slice-to_vec p bytes e)

  load-cleared :
      (now now' : ℕ) (h : House)
      → (load_pending json replies setup now' (clear_pending json replies setup now h)).1 ≡ none
  unfolding load_pending clear_pending pending_in
  load-cleared now now' h =
      ap (pending_in json replies setup)
        (tmp_get-tmp_set_next [] (codes "pending_action") [] 1 now now' h.tmp)
      ∙ empty (leb (u64 (now + 1)) now')
    where
      empty : (b : Bool) → pending_in json replies setup (if b then none else some []) ≡ none
      empty true = refl
      empty false = refl

  -- The state after `jeedom.confirm`.
  abbrev pub after_confirm : Option ℕ → Bool → ℕ → House → House
  after_confirm position en now h =
      house_after (command json replies setup (codes "jeedom.confirm") position en now h) h

  confirmed-none :
      (r : House × Option Pending) (en : Bool) (now : ℕ)
      → r.1 ≡ none
      → (confirmed json replies setup r en now).1.requests ≡ r.0.requests
  unfolding confirmed
  confirmed-none (h, none) en now e = refl
  confirmed-none (h, some p) en now e = cc

  answered-house : (en : Bool) (r : Bool × House) → (answered json replies setup en r).1 ≡ r.1
  answered-house en (executed, h) = refl

  confirmed-some :
      (r : House × Option Pending) (en : Bool) (now : ℕ) (p : Pending)
      → r.1 ≡ some p
      → (confirmed json replies setup r en now).1
        ≡ (exec_with json replies setup p.cmd_id p.slider
            (clear_pending json replies setup now r.0)).1
  unfolding confirmed
  confirmed-some (h, none) en now p e = cc
  confirmed-some (h, some q) en now p e =
      answered-house en
        (exec_with json replies setup q.cmd_id q.slider (clear_pending json replies setup now h))
      ∙ ap
          (λ x.
            (exec_with json replies setup x.cmd_id x.slider
              (clear_pending json replies setup now h)).1)
          (same q p e)
    where
      same : (q p : Pending) → some q ≡ some p → q ≡ p
      same q p e = cc

  after_confirm-none :
      (position : Option ℕ) (en : Bool) (now : ℕ) (h : House)
      → (load_pending json replies setup now h).1 ≡ none
      → (after_confirm position en now h).requests ≡ h.requests
  unfolding command turn_or_rest turn_of shutter_of shutter_or_talk strip_prefix text_eq talk
      load_pending
  after_confirm-none position en now h e =
      confirmed-none (load_pending json replies setup now h) en now e

  after_confirm-some :
      (position : Option ℕ) (en : Bool) (now : ℕ) (h : House) (p : Pending)
      → (load_pending json replies setup now h).1 ≡ some p
      → after_confirm position en now h
        ≡ (exec_with json replies setup p.cmd_id p.slider
            (clear_pending json replies setup now (load_pending json replies setup now h).0)).1
  unfolding command turn_or_rest turn_of shutter_of shutter_or_talk strip_prefix text_eq talk
  after_confirm-some position en now h p e =
      confirmed-some (load_pending json replies setup now h) en now p e

  -- Nothing is pending once a request has gone out.
  cleared-exec :
      (id now now' : ℕ) (h : House)
      → (load_pending json replies setup now'
          (exec_cmd json replies setup id (clear_pending json replies setup now h)).1).1
        ≡ none
  unfolding exec_cmd get_url load_pending clear_pending
  cleared-exec id now now' h = got (jeedom_url setup id)
    where
      got :
          (o : Option Text)
          → (load_pending json replies setup now'
              (get_url json replies setup o (clear_pending json replies setup now h)).1).1
            ≡ none
      got none = load-cleared now now' h
      got (some url) = load-cleared now now' h

  -- The command that a switch asks for.
  abbrev pub question : ActionDevice → Bool → Bool → Pending
  question d on en = record {
    cmd_id = if on then d.on_id else d.off_id;
    label = action_label d on en;
    slider = none;
  }

  turn-asks :
      (d : ActionDevice) (on en : Bool) (now : ℕ) (h : House) (bytes : List ℕ)
      → d.confirm ≡ true
      → json.to_vec (question d on en) ≡ some bytes
      → (turn json replies setup (some d) on en now h).1
        ≡ kept json replies setup (some bytes) now h
  unfolding turn ask
  turn-asks d on en now h bytes c e = rw c (ap (λ o. kept json replies setup o now h) e)

  -- Whether the switch or what a group, a shutter or the talk does is left to `turn_or_rest`.
  command-turn :
      (name key : Text) (on : Bool) (position : Option ℕ) (en : Bool) (now : ℕ) (h : House)
      (d : ActionDevice)
      → turn_of name ≡ some (key, on)
      → device_at (parse_u64 key) setup.actions ≡ some d
      → command json replies setup name position en now h
        ≡ some (turn json replies setup (some d) on en now h)
  unfolding command turn_or_rest
  command-turn name key on position en now h d e f =
      ap (λ o. turn_or_rest json replies setup o name position en now h) e
      ∙ ap (λ o. some (turn json replies setup o on en now h)) f

  -- A confirmation, of the command that was kept, and one after it.
  abbrev pub ConfirmsOnce : List Text → ℕ → ℕ → ℕ → Bool → Option ℕ → House → Type 0
  ConfirmsOnce before id now' now'' en' position' h1 =
      let h2 = after_confirm position' en' now' h1 in
      (h1.requests ≡ before)
      × (h2.requests ≡ sends (jeedom_url setup id) before)
      × ((after_confirm position' en' now'' h2).requests ≡ h2.requests)

  kept-ConfirmsOnce :
      (p : Pending) (bytes : List ℕ) (now now' now'' : ℕ) (en' : Bool) (position' : Option ℕ)
      (h : House)
      → json.to_vec p ≡ some bytes
      → p.slider ≡ none
      → leb (u64 (now + 30)) now' ≡ false
      → ConfirmsOnce h.requests p.cmd_id now' now'' en' position'
          (kept json replies setup (some bytes) now h)
  unfolding kept load_pending clear_pending
  kept-ConfirmsOnce p bytes now now' now'' en' position' h e plain alive =
      let h1 = kept json replies setup (some bytes) now h in
      let loaded = (load_pending json replies setup now' h1).0 in
      let done =
        (exec_cmd json replies setup p.cmd_id (clear_pending json replies setup now' loaded)).1 in
      let ran : after_confirm position' en' now' h1 ≡ done =
        after_confirm-some position' en' now' h1 p (load-kept p bytes now now' h e alive)
        ∙ ap
            (λ o.
              (exec_with json replies setup p.cmd_id o
                (clear_pending json replies setup now' loaded)).1)
            plain in
      (
        refl,
        ap (λ x. x.requests) ran
            ∙ exec_cmd-requests p.cmd_id (clear_pending json replies setup now' loaded),
        after_confirm-none position' en' now'' (after_confirm position' en' now' h1) (
            ap (λ x. (load_pending json replies setup now'' x).1) ran
            ∙ cleared-exec p.cmd_id now' now'' loaded),
      )

  -- A switch of a device that is to be confirmed, whose pending command can be printed, sends nothing by itself;
  -- a confirmation within thirty seconds sends the request of that command, if the address of Jeedom is
  -- configured, and only that one; a second confirmation, at any time, sends nothing. This holds when nothing
  -- else writes the pending command or asks for another between these calls.
  pub command-ConfirmsOnce :
      (name key : Text) (on : Bool) (position position' : Option ℕ) (en en' : Bool)
      (now now' now'' : ℕ) (h : House) (d : ActionDevice) (bytes : List ℕ)
      → turn_of name ≡ some (key, on)
      → device_at (parse_u64 key) setup.actions ≡ some d
      → d.confirm ≡ true
      → json.to_vec (question d on en) ≡ some bytes
      → leb (u64 (now + 30)) now' ≡ false
      → ConfirmsOnce h.requests
          (if on then d.on_id else d.off_id)
          now'
          now''
          en'
          position'
          (house_after (command json replies setup name position en now h) h)
  command-ConfirmsOnce name key on position position' en en' now now' now'' h d bytes e f c v
        alive =
      subst (ConfirmsOnce h.requests (if on then d.on_id else d.off_id) now' now'' en' position')
        (sym (
          ap (λ o. house_after o h) (command-turn name key on position en now h d e f)
          ∙ turn-asks d on en now h bytes c v))
        (kept-ConfirmsOnce (question d on en) bytes now now' now'' en' position' h v refl alive)
