-- ===== src/Pipeline/Channel.antt =====
-- A `tokio::sync::mpsc` sender as a stage sees it: what it has sent, and how many more messages are taken
-- before the receiver is gone. The wait for room is not modelled.
use athena_voice.Base.{
  ◌<◌, ◌+◌, arith, ℕ, zero, suc, ◌≡◌, refl, ◌⊎◌, inl, inr, Bool, true, false, List, [], ◌∷◌, ◌++◌,
}

pub record Channel {ℓ} (A : Type ℓ) : Type ℓ where
  pub sent : List A
  pub left : ℕ

-- `send(…).await`, with `is_ok()` for a result.
module _ {ℓ} {A : Type ℓ} where
  offer : ℕ → List A → A → Channel A × Bool
  offer zero sent a = (record { sent = sent; left = 0 }, false)
  offer (suc left) sent a = (record { sent = sent ++ a ∷ []; left = left }, true)

  unfoldable pub send : A → Channel A → Channel A × Bool
  unfolding offer
  send a c = offer c.left c.sent a

  -- A message is at the end of what was sent, or the receiver is gone.
  pub send-cases :
      (a : A) (c : Channel A)
      → (((send a c).1 ≡ true) × ((send a c).0.sent ≡ c.sent ++ a ∷ []))
        ⊎ (((send a c).1 ≡ false) × ((send a c).0.sent ≡ c.sent))
  unfolding send offer
  send-cases a c = offered (c.left)
    where
      offered :
          (left : ℕ)
          → (((offer left c.sent a).1 ≡ true) × ((offer left c.sent a).0.sent ≡ c.sent ++ a ∷ []))
            ⊎ (((offer left c.sent a).1 ≡ false) × ((offer left c.sent a).0.sent ≡ c.sent))
      offered zero = inr (refl, refl)
      offered (suc left) = inl (refl, refl)

  -- While there is room, a message is sent.
  pub send_room :
      (a : A) (c : Channel A)
      → 0 < c.left
      → ((send a c).1 ≡ true)
        × ((send a c).0.sent ≡ c.sent ++ a ∷ [])
        × ((send a c).0.left + 1 ≡ c.left)
  unfolding send offer
  send_room a c h = offered (c.left) h
    where
      offered :
          (left : ℕ)
          → 0 < left
          → ((offer left c.sent a).1 ≡ true)
            × ((offer left c.sent a).0.sent ≡ c.sent ++ a ∷ [])
            × ((offer left c.sent a).0.left + 1 ≡ left)
      offered zero l = absurd (omega (arith, l))
      offered (suc left) l = (refl, refl, omega arith)
