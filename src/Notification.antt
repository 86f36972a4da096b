-- ===== src/Notification.antt =====
-- core/notification/telegram.py, `send`: the delivery of a message with retries. A request is the act
-- `notify`, and the environment says whether it succeeds. The swap of `socket.getaddrinfo` around a
-- request is undone at once and left out.
pub mod Bounds
use virtual_private_network.Prelude.{
  ℕ, zero, suc, ◌*◌, String, ◌<>◌, Bool, true, false, ◌||◌, is_empty, if◌then◌else◌, ◌∷◌,
}
use virtual_private_network.Ports.Effect.{M, ok, pure, ◌>>=◌, ◌>>◌}
use virtual_private_network.Ports.Env.{Env, History, notify, sleep_ms}

-- What the values of the environment give where no argument does.
pub record Bot : Type 0 where
  pub token : String
  pub chat_id : String

module _ (env : Env) (delay : ℕ) where
  abbrev pub request : String → M History Bool
  request message h = (
    ok (env.succeeds h (notify ("Service Alert (Asus VPN): " <> message))),
    notify ("Service Alert (Asus VPN): " <> message) ∷ h,
  )

  -- `if attempt < retries: time.sleep(retry_delay)`
  abbrev pub pause : ℕ → M History (Unit {0})
  pause zero = pure tt
  pause (suc _) = sleep_ms (1000 * delay)

  abbrev pub or_again : Bool → M History (Unit {0}) → M History (Unit {0})
  or_again true again = pure tt
  or_again false again = again

  -- The attempts that are left.
  unfoldable pub send_attempts : ℕ → String → M History (Unit {0})
  send_attempts zero message = pure tt
  send_attempts (suc left) message = do
    sent ← request message
    or_again sent (do pause left; send_attempts left message)

  unfoldable pub send : Bot → String → ℕ → M History (Unit {0})
  unfolding send_attempts
  send bot message retries =
      if is_empty bot.token || is_empty bot.chat_id then pure tt else send_attempts retries message
