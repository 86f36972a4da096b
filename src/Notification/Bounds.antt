-- ===== src/Notification/Bounds.antt =====
-- The requests and pauses of a notification, in their order.
use virtual_private_network.Prelude.{
  ℕ, zero, suc, ◌*◌, ◌≤◌, ◌<◌, String, ◌<>◌, ◌≡◌, refl, ◌∙◌, sym, ap, Bool, true, false, not, ◌||◌,
  ◌&&◌, is_empty, ◌∷◌, arith, ◌⊎◌, Bool-cases, inl, inr,
}
use virtual_private_network.Ports.Effect.{ok}
use virtual_private_network.Ports.Env.{Env, History, Act, notify, sleep, sleep_ms}
use virtual_private_network.Notification.{Bot, send_attempts, send}

module _ (env : Env) (delay : ℕ) (message : String) where
  abbrev message_act : Act
  message_act = notify ("Service Alert (Asus VPN): " <> message)

  -- After so many requests that failed, each with a pause behind it.
  unfoldable pub failed : ℕ → History → History
  failed zero h = h
  failed (suc k) h = sleep (1000 * delay) ∷ message_act ∷ failed k h

  -- After so many requests, with a pause between two of them.
  unfoldable pub made : ℕ → History → History
  unfolding failed
  made zero h = h
  made (suc k) h = message_act ∷ failed k h

  -- Whether the request after so many failed ones succeeds, and whether none before it does.
  abbrev pub answered : ℕ → History → Bool
  answered k h = env.succeeds (failed k h) message_act

  unfoldable pub none_before : ℕ → History → Bool
  unfolding failed
  none_before zero h = true
  none_before (suc k) h = not (answered k h) && none_before k h

  failed-front :
      (k : ℕ) (h : History) → failed k (sleep (1000 * delay) ∷ message_act ∷ h) ≡ failed (suc k) h
  unfolding failed
  failed-front zero h = refl
  failed-front (suc k) h = ap (λ t. sleep (1000 * delay) ∷ message_act ∷ t) (failed-front k h)

  none_before-front :
      (k : ℕ) (h : History)
      → env.succeeds h message_act ≡ false
      → none_before k (sleep (1000 * delay) ∷ message_act ∷ h) ≡ none_before (suc k) h
  unfolding none_before failed
  none_before-front zero h e = rw e refl
  none_before-front (suc k) h e =
      ap
        (λ t.
          not (env.succeeds t message_act)
          && none_before k (sleep (1000 * delay) ∷ message_act ∷ h))
        (failed-front k h)
      ∙ ap (λ b. not (answered (suc k) h) && b) (none_before-front k h e)

  made-front :
      (k : ℕ) (h : History)
      → made (suc k) (sleep (1000 * delay) ∷ message_act ∷ h) ≡ made (suc (suc k)) h
  unfolding made
  made-front k h = ap (λ t. message_act ∷ t) (failed-front k h)

  abbrev one_less : ℕ → ℕ
  one_less zero = zero
  one_less (suc k) = k

  -- So many requests were made, all before the last one failed, and the last one succeeded or was
  -- the last that is allowed.
  abbrev pub Delivery : ℕ → History → History → Type 0
  Delivery retries h h' =
      (k : ℕ) × (h' ≡ made k h)
      × (k ≤ retries)
      × (none_before (one_less k) h ≡ true)
      × ((k ≡ retries) ⊎ ((0 < k) × (answered (one_less k) h ≡ true)))

  attempts-Delivery :
      (n : ℕ) (h : History)
      → let (r, h') = send_attempts env delay n message h in (r ≡ ok tt) × Delivery n h h'
  unfolding send_attempts sleep_ms made failed none_before
  attempts-Delivery zero h = (refl, (0, refl, omega arith, refl, inl refl))
  attempts-Delivery (suc zero) h = elim (Bool-cases (env.succeeds h message_act)) [
    | inl c ↦ rw c (refl, (1, refl, omega arith, refl, inl refl))
    | inr c ↦ rw c (refl, (1, refl, omega arith, refl, inl refl))
  ]
  attempts-Delivery (suc (suc n)) h = elim (Bool-cases (env.succeeds h message_act)) [
    | inl c ↦ rw c (refl, (1, refl, omega arith, refl, inr (omega arith, c)))
    | inr c ↦
        let (r, d) = attempts-Delivery (suc n) (sleep (1000 * delay) ∷ message_act ∷ h) in
        rw c (r, one_more n h c d)
  ]
    where
      one_more :
          {h' : History} (n : ℕ) (h : History)
          → env.succeeds h message_act ≡ false
          → Delivery (suc n) (sleep (1000 * delay) ∷ message_act ∷ h) h'
          → Delivery (suc (suc n)) h h'
      one_more n h c (zero, e, l, b, inl q) = absurd (omega arith)
      one_more n h c (zero, e, l, b, inr (p, q)) = absurd (omega arith)
      one_more n h c (suc k, e, l, b, last) = (
        suc (suc k),
        e ∙ made-front k h,
        omega arith,
        sym (none_before-front k h c) ∙ b,
        elim last [
          | inl q ↦ inl (omega arith)
          | inr (p, q) ↦
              inr (omega arith, ap (λ t. env.succeeds t message_act) (sym (failed-front k h)) ∙ q)
        ],
      )

  -- Whatever the requests answer: sending returns without raising. Without a token or a chat it does
  -- nothing. Else it makes requests up to the first that succeeds, or `retries` of them if none does,
  -- with a pause between two of them and none behind the last.
  pub send-Delivery :
      (bot : Bot) (retries : ℕ) (h : History)
      → let (r, h') = send env delay bot message retries h in
        let unset = is_empty bot.token || is_empty bot.chat_id in
        (r ≡ ok tt) × (((unset ≡ true) × (h' ≡ h)) ⊎ ((unset ≡ false) × Delivery retries h h'))
  unfolding send
  send-Delivery bot retries h = elim (Bool-cases (is_empty bot.token || is_empty bot.chat_id)) [
    | inl c ↦ rw c (refl, inl (refl, refl))
    | inr c ↦ let (r, d) = attempts-Delivery retries h in rw c (r, inr (refl, d))
  ]
