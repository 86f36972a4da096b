-- ===== src/Topology/Discovery/Retries.antt =====
-- How the discovery retries: when it succeeds, when it gives up, and what it has done by then.
use virtual_private_network.Prelude.{ℕ, zero, suc, ◌*◌, ◌<◌, ◌≡◌, Option, none, some, ◌∷◌, arith}
use virtual_private_network.Ports.Command.{host, default_route}
use virtual_private_network.Ports.Effect.{ok}
use virtual_private_network.Ports.Env.{Env, History, shell, sleep, run, sleep_ms}
use virtual_private_network.Topology.Discovery.{
  Topology, parse_route, attempts, discover, exhausted,
}

-- The history after so many attempts and the pauses that follow them.
unfoldable pub waited : ℕ → ℕ → History → History
waited delay zero h = h
waited delay (suc k) h = waited delay k (sleep (1000 * delay) ∷ shell (host default_route) ∷ h)

-- What the attempt after `k` others finds.
abbrev pub found_at : Env → ℕ → History → ℕ → Option Topology
found_at env delay h k = parse_route (env.run (waited delay k h) (host default_route))

module _ (env : Env) (max delay : ℕ) where
  attempts_found :
      (k n : ℕ) (h : History) (t : Topology)
      → k < n
      → ((i : ℕ) → i < k → found_at env delay h i ≡ none)
      → found_at env delay h k ≡ some t
      → attempts env max delay n h ≡ (ok t, shell (host default_route) ∷ waited delay k h)
  unfolding attempts waited run sleep_ms
  attempts_found k zero h t l fails e = elim l [ ]
  attempts_found zero (suc n) h t l fails e = rw e
  attempts_found (suc k) (suc zero) h t l fails e = absurd (omega arith)
  attempts_found (suc k) (suc (suc n)) h t l fails e =
      rw (fails 0 (omega arith))
        (attempts_found k (suc n) _ t (omega arith) (λ i j. fails (suc i) (omega arith)) e)

  attempts-exhausted :
      (n : ℕ) (h : History)
      → ((i : ℕ) → i < suc n → found_at env delay h i ≡ none)
      → attempts env max delay (suc n) h
        ≡ ((exhausted max h).0, shell (host default_route) ∷ waited delay n h)
  unfolding attempts waited run sleep_ms
  attempts-exhausted zero h fails = rw (fails 0 (omega arith))
  attempts-exhausted (suc n) h fails =
      rw (fails 0 (omega arith)) (attempts-exhausted n _ (λ i j. fails (suc i) (omega arith)))

-- The discovery returns what the first successful attempt finds, if that is among the first
-- `max_retries`: it has then asked once more than it has paused, and has done nothing else.
pub discover_found :
    (env : Env) (max delay k : ℕ) (h : History) (t : Topology)
    → k < max
    → ((i : ℕ) → i < k → found_at env delay h i ≡ none)
    → found_at env delay h k ≡ some t
    → discover env max delay h ≡ (ok t, shell (host default_route) ∷ waited delay k h)
unfolding discover
discover_found env max delay k h t l fails e = attempts_found env max delay k max h t l fails e

-- If every attempt fails, the discovery asks `max_retries` times with a pause between two attempts
-- and none after the last, and raises `VpnConnectionError`.
pub discover-exhausted :
    (env : Env) (n delay : ℕ) (h : History)
    → ((i : ℕ) → i < suc n → found_at env delay h i ≡ none)
    → discover env (suc n) delay h
      ≡ ((exhausted (suc n) h).0, shell (host default_route) ∷ waited delay n h)
unfolding discover
discover-exhausted env n delay h fails = attempts-exhausted env (suc n) delay n h fails
