-- ===== src/Assist/Bridge/Kept.antt =====
-- No question that was taken is lost when an actor leaves.
use mathlib.Core.Path.{subst}
use athena_voice.Base.{
  ℕ, zero, suc, ◌+◌, ◌≤◌, ◌≡◌, refl, sym, ap, ◌∙◌, true, false, Option, none, some, List, [], ◌∷◌,
  ◌++◌, append-nil, append_assoc, length, take, ==_refl, length-append, ltb, if◌then◌else◌,
  Bool-cases, inl, inr, arith,
}
use athena_voice.Base.Dict.{lookup, insert, remove, lookup-insert, lookup-remove}
use athena_voice.Text.{Text}
use athena_voice.Text.Split.{text_eq_refl}
use athena_voice.Sessions.Manager.{ids}
use athena_voice.Assist.Bridge.{
  names, Mailbox, Bridge, room, queue_of, put, respawn, on_sent, route_to, route, route_all, exit,
  capacity,
}

-- What waits for a device: the queue of the channel that the map has for it.
abbrev pub channel_of : Text → Bridge → Option ℕ
channel_of device b = lookup names device b.devices

-- The device has an open channel with these questions.
abbrev pub Waits : Text → ℕ → List Text → Bridge → Type 0
Waits device c ts b =
    (lookup names device b.devices ≡ some c)
    × (lookup ids c b.boxes ≡ some (record { queue = ts; open_ = true }))

lookup_own :
    (c : ℕ) (m : Mailbox) (boxes : List (ℕ × Mailbox))
    → lookup ids c (insert ids c m boxes) ≡ some m
lookup_own c m boxes = lookup-insert ids c c m boxes ∙ rw (==_refl c) refl

lookup_device :
    (device : Text) (c : ℕ) (devices : List (Text × ℕ))
    → lookup names device (insert names device c devices) ≡ some c
lookup_device device c devices =
    lookup-insert names device device c devices ∙ rw (text_eq_refl device) refl

-- A live actor's box takes a question while there is room, and drops it else.
route-live :
    (device text : Text) (c : ℕ) (ts : List Text) (b : Bridge)
    → Waits device c ts b
    → route device text b ≡ (if ltb (length ts) capacity then put c text b else b)
unfolding route route_to on_sent
route-live device text c ts b (entry, box) =
    ap (λ o. route_to o device text b) entry
    ∙ ap (λ o. on_sent (room o) c device text b) box
    ∙ (elim (Bool-cases (ltb (length ts) capacity)) [
      | inl fits ↦ rw fits refl
      | inr over ↦ rw over refl
    ])

put-Waits :
    (device text : Text) (c : ℕ) (ts : List Text) (b : Bridge)
    → Waits device c ts b
    → Waits device c (ts ++ text ∷ []) (put c text b)
unfolding put
put-Waits device text c ts b (entry, box) = (
  entry,
  lookup_own c (record { queue = queue_of (lookup ids c b.boxes) ++ text ∷ []; open_ = true })
        b.boxes
      ∙ ap (λ o. some (record { queue = queue_of o ++ text ∷ []; open_ = true })) box,
)

put-spawned : (c : ℕ) (text : Text) (b : Bridge) → (put c text b).spawned ≡ b.spawned
unfolding put
put-spawned c text b = refl

-- Questions to a device whose actor is alive queue up behind those that wait, in order, up to the capacity; the
-- rest is dropped, and no second actor is started.
pub route_all-Waits :
    (device : Text) (qs : List Text) (c k : ℕ) (ts : List Text) (b : Bridge)
    → k + length ts ≡ capacity
    → Waits device c ts b
    → Waits device c (ts ++ take k qs) (route_all device qs b)
      × ((route_all device qs b).spawned ≡ b.spawned)
unfolding route_all
route_all-Waits device [] c zero ts b h w =
    (subst (λ l. Waits device c l b) (sym (append-nil ts)) w, refl)
route_all-Waits device [] c (suc k) ts b h w =
    (subst (λ l. Waits device c l b) (sym (append-nil ts)) w, refl)
route_all-Waits device (q ∷ qs) c zero ts b h w =
    let over : ltb (length ts) capacity ≡ false = ground (arith, h) in
    let dropped : route device q b ≡ b = route-live device q c ts b w ∙ rw over refl in
    subst
      (λ x.
        Waits device c (ts ++ []) (route_all device qs x)
        × ((route_all device qs x).spawned ≡ b.spawned))
      (sym dropped) (route_all-Waits device qs c zero ts b h w)
route_all-Waits device (q ∷ qs) c (suc k) ts b h w =
    let fits : ltb (length ts) capacity ≡ true = ground (arith, h) in
    let taken : route device q b ≡ put c q b = route-live device q c ts b w ∙ rw fits refl in
    let (waits, spawned) =
      route_all-Waits device qs c k (ts ++ q ∷ []) (put c q b)
        (omega (arith, h, length-append ts (q ∷ []))) (put-Waits device q c ts b w) in
    subst
      (λ x.
        Waits device c (ts ++ (q ∷ take k qs)) (route_all device qs x)
        × ((route_all device qs x).spawned ≡ b.spawned))
      (sym taken)
      (
        subst (λ l. Waits device c l (route_all device qs (put c q b)))
            (append_assoc ts (q ∷ []) (take k qs)) waits,
        spawned ∙ put-spawned c q b,
      )

take_all : (k : ℕ) (ts : List Text) → length ts ≤ k → take k ts ≡ ts
take_all zero [] h = refl
take_all (suc k) [] h = refl
take_all zero (t ∷ ts) h = absurd (omega (arith, h))
take_all (suc k) (t ∷ ts) h = ap (λ l. t ∷ l) (take_all k ts (omega (arith, h)))

-- What there is after an actor's exit, for the questions that it left.
abbrev pub Handed : Text → List Text → Bridge → Bridge → Type 0
Handed device [] b b' = channel_of device b' ≡ none
Handed device (t ∷ rest) b b' =
    Waits device b.next_channel (t ∷ rest) b'
    × (b'.spawned ≡ b.spawned ++ (device, b.next_channel) ∷ [])

-- The bridge when an actor has taken its entry out and closed its channel.
abbrev left_by : Text → ℕ → Bridge → Bridge
left_by device mine b = record b {
  devices = remove names device b.devices;
  boxes = insert ids mine (record { queue = []; open_ = false }) b.boxes;
}

exit-route_all :
    (device : Text) (mine : ℕ) (ts : List Text) (b : Bridge)
    → Waits device mine ts b
    → b.is_cancelled ≡ false
    → exit device mine b ≡ route_all device ts (left_by device mine b)
unfolding exit
exit-route_all device mine ts b (entry, box) alive = rw (entry, box, alive, ==_refl mine) refl

removed_device :
    (device : Text) (devices : List (Text × ℕ))
    → lookup names device (remove names device devices) ≡ none
removed_device device devices =
    lookup-remove names device device devices ∙ rw (text_eq_refl device) refl

respawn-Waits :
    (device text : Text) (b : Bridge)
    → Waits device b.next_channel (text ∷ []) (respawn device text b)
unfolding respawn
respawn-Waits device text b = (
  lookup_device device b.next_channel b.devices,
  lookup_own b.next_channel (record { queue = text ∷ []; open_ = true }) b.boxes,
)

handed :
    (device : Text) (ts : List Text) (b b' : Bridge)
    → channel_of device b' ≡ none
    → b'.next_channel ≡ b.next_channel
    → b'.spawned ≡ b.spawned
    → length ts ≤ capacity
    → Handed device ts b (route_all device ts b')
unfolding route_all route route_to respawn
handed device [] b b' gone next spawned h = gone
handed device (t ∷ rest) b b' gone next spawned h =
    let fresh : route device t b' ≡ respawn device t b' = ap (λ o. route_to o device t b') gone in
    let (waits, kept) =
      route_all-Waits device rest b'.next_channel 7 (t ∷ []) (respawn device t b') refl
        (respawn-Waits device t b') in
    subst (λ x. Handed device (t ∷ rest) b (route_all device rest x)) (sym fresh)
      (
        subst
            (λ l. Waits device b.next_channel (t ∷ l) (route_all device rest (respawn device t b')))
            (take_all 7 rest (omega (arith, h)))
            (subst
              (λ c. Waits device c (t ∷ take 7 rest) (route_all device rest (respawn device t b')))
              next waits),
        kept
            ∙ ap (λ l. l ++ (device, b'.next_channel) ∷ []) spawned
            ∙ ap (λ c. b.spawned ++ (device, c) ∷ []) next,
      )

-- When an actor leaves while its entry is in the map, and the program does not shut down, the questions that it
-- had taken but not received are not lost: a fresh actor is started for the device, and they wait for it, all
-- and in order. Without such questions the device has no channel.
pub exit-Handed :
    (device : Text) (mine : ℕ) (ts : List Text) (b : Bridge)
    → Waits device mine ts b
    → length ts ≤ capacity
    → b.is_cancelled ≡ false
    → Handed device ts b (exit device mine b)
exit-Handed device mine ts b w h alive =
    subst (Handed device ts b) (sym (exit-route_all device mine ts b w alive))
      (handed device ts b (left_by device mine b) (removed_device device b.devices) refl refl h)
