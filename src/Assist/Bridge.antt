-- ===== src/Assist/Bridge.antt =====
-- The routing of questions to device actors, of crates/athena-voice-runtime/src/assist/bridge.rs. A channel is a
-- number, and its queue holds the questions that its actor has not received. `devices` is the map from devices to
-- the sending ends. Of an actor's loop, which is in Assist/Actor, only the receiving of a question and the exit
-- are here.
pub mod Kept
use athena_voice.Base.{
  ℕ, ◌+◌, Bool, true, false, Option, none, some, List, [], ◌∷◌, ◌++◌, length, ltb, ◌==◌,
  if◌then◌else◌,
}
use athena_voice.Base.Dict.{KeyTest, lookup, insert, remove}
use athena_voice.Text.{Text, text_eq}
use athena_voice.Text.Split.{text_eq_refl, eq_of_text_eq}
use athena_voice.Sessions.Manager.{ids}
use athena_voice.Core.Json.{JsonLib}
use athena_voice.Assist.Topics.{parse_transcription, parse_text_payload}

abbrev pub names : KeyTest Text
names = record { same = text_eq; same_refl = text_eq_refl; same_sound = eq_of_text_eq }

pub record Mailbox : Type 0 where
  pub queue : List Text
  pub open_ : Bool

-- `spawned` lists the devices and channels of the actors that were started.
pub record Bridge : Type 0 where
  pub devices : List (Text × ℕ)
  pub boxes : List (ℕ × Mailbox)
  pub next_channel : ℕ
  pub spawned : List (Text × ℕ)
  pub is_cancelled : Bool

abbrev pub capacity : ℕ
capacity = 8

-- The results of `try_send`.
pub data Sent : Type 0 where
  sent_ok full closed : Sent

-- A channel whose receiver is gone has no box, or a closed one.
abbrev pub room : Option Mailbox → Sent
room none = closed
room (some b) = if b.open_ then if ltb (length b.queue) capacity then sent_ok else full else closed

abbrev pub queue_of : Option Mailbox → List Text
queue_of none = []
queue_of (some b) = b.queue

unfoldable pub put : ℕ → Text → Bridge → Bridge
put c text b = record b {
  boxes =
      insert ids c (record { queue = queue_of (lookup ids c b.boxes) ++ text ∷ []; open_ = true })
        b.boxes;
}

-- A fresh channel with its first question, and an actor on it.
unfoldable pub respawn : Text → Text → Bridge → Bridge
respawn device text b = record b {
  devices = insert names device b.next_channel b.devices;
  boxes = insert ids b.next_channel (record { queue = text ∷ []; open_ = true }) b.boxes;
  next_channel = b.next_channel + 1;
  spawned = b.spawned ++ (device, b.next_channel) ∷ [];
}

on_sent : Sent → ℕ → Text → Text → Bridge → Bridge
unfolding put respawn
on_sent sent_ok c device text b = put c text b
on_sent full c device text b = b
on_sent closed c device text b =
    respawn device text (record b { devices = remove names device b.devices })

route_to : Option ℕ → Text → Text → Bridge → Bridge
unfolding on_sent respawn
route_to none device text b = respawn device text b
route_to (some c) device text b = on_sent (room (lookup ids c b.boxes)) c device text b

unfoldable pub route : Text → Text → Bridge → Bridge
unfolding route_to
route device text b = route_to (lookup names device b.devices) device text b

unfoldable pub route_all : Text → List Text → Bridge → Bridge
unfolding route
route_all device [] b = b
route_all device (t ∷ ts) b = route_all device ts (route device t b)

-- `question_rx.recv()`
abbrev pub tail : List Text → List Text
tail [] = []
tail (t ∷ ts) = ts

unfoldable pub receive : ℕ → Bridge → Bridge
receive c b = record b {
  boxes =
      insert ids c (record { queue = tail (queue_of (lookup ids c b.boxes)); open_ = true })
        b.boxes;
}

-- `remove_if(&device, |_, tx| tx.same_channel(&my_tx))`
abbrev pub is_mine : Option ℕ → ℕ → Bool
is_mine none c = false
is_mine (some d) c = d == c

-- The end of `run_device_actor`: the entry, the receiver, and what was left in it.
unfoldable pub exit : Text → ℕ → Bridge → Bridge
unfolding route_all
exit device mine b =
    let leftover = queue_of (lookup ids mine b.boxes) in
    let devices' =
      if is_mine (lookup names device b.devices) mine
      then remove names device b.devices
      else b.devices in
    let b' = record b {
      devices = devices';
      boxes = insert ids mine (record { queue = []; open_ = false }) b.boxes;
    } in
    let rerouted = route_all device leftover b' in if b.is_cancelled then b' else rerouted

module _ (lib : JsonLib) where
  with_text : Option Text → Text → Bridge → Bridge × Bool
  unfolding route
  with_text none device b = (b, true)
  with_text (some text) device b = (route device text b, true)

  with_device : Option Text → List ℕ → Bridge → Bridge × Bool
  unfolding with_text
  with_device none payload b = (b, false)
  with_device (some device) payload b = with_text (parse_text_payload lib payload) device b

  unfoldable pub handle : Text → Text → List ℕ → Bridge → Bridge × Bool
  unfolding with_device
  handle topic_prefix topic payload b =
      with_device (parse_transcription topic_prefix topic) payload b
