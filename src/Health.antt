-- ===== src/Health.antt =====
-- src/vpn/core/health/checker.py: a round of the health check. The program creates the checker and
-- never starts its loop.
pub mod Rounds
use virtual_private_network.Prelude.{
  ℕ, ◌*◌, ◌==◌, String, Bool, true, false, Option, none, some, List, [], ◌∷◌, ◌++◌, length, leb,
  if◌then◌else◌,
}
use virtual_private_network.Ports.Command.{host, curl}
use virtual_private_network.Ports.Effect.{
  M, ok, pure, raise, gets, modify, index_error, value_error, ◌>>=◌, ◌>>◌,
}
use virtual_private_network.Ports.Env.{Env, History, Completed, run, sleep_ms}
use virtual_private_network.World.{VpnEvent, EventType, health_ok, health_fail}

-- `HealthChecker.__init__`
pub record Checker : Type 0 where
  pub targets : List String
  pub user_agents : List String
  pub interval_min : ℕ
  pub interval_max : ℕ
  pub curl_timeout : ℕ
  pub sample_size : ℕ

-- What the loop works on: the queue of the state machine, and `_last_target`.
pub record Watch : Type 0 where
  pub history : History
  pub last_target : Option String
  pub queue : List VpnEvent

abbrev pub act : {A : Type 0} → M History A → M Watch A
act m w = let (r, h) = m w.history in (r, record w { history = h })

abbrev pub smaller : ℕ → ℕ → ℕ
smaller a b = if leb a b then a else b

abbrev pub succeeded : Option Completed → Bool
succeeded none = false
succeeded (some result) = result.returncode == 0

abbrev pub done_or : Bool → M Watch Bool → M Watch Bool
done_or true rest = pure true
done_or false rest = rest

module _ (env : Env) where
  -- `random.choice(l)`
  unfoldable pub choice : List String → M Watch String
  choice [] = raise (index_error "Cannot choose from an empty sequence")
  choice (x ∷ l) = gets (λ w. env.random_choice w.history (x ∷ l))

  -- `random.randint(low, high)`
  unfoldable pub randint : ℕ → ℕ → M Watch ℕ
  randint low high =
      if leb low high
      then gets (λ w. env.random_between w.history low high)
      else raise (value_error "empty range for randrange()")

module _ (env : Env) (c : Checker) where
  -- The body of the loop over the targets.
  unfoldable pub probe : String → M Watch Bool
  unfolding run choice
  probe endpoint = do
    agent ← choice env c.user_agents
    modify (λ w. record w { last_target = some endpoint })
    result ← act (run env (host (curl c.curl_timeout agent endpoint)))
    pure (succeeded result)

  unfoldable pub check_targets : List String → M Watch Bool
  unfolding probe
  check_targets [] = pure false
  check_targets (t ∷ ts) = probe t >>= λ up. done_or up (check_targets ts)

  unfoldable pub check : M Watch Bool
  unfolding check_targets
  check = do
    targets ←
        gets (λ w. env.random_sample w.history c.targets (smaller c.sample_size (length c.targets)))
    check_targets targets

  abbrev pub verdict : Bool → EventType
  verdict true = health_ok
  verdict false = health_fail

  abbrev pub target_of : Option String → String
  target_of none = "unknown"
  target_of (some t) = t

  -- One round of `run_forever`.
  unfoldable pub round : M Watch (Unit {0})
  unfolding check sleep_ms randint
  round = do
    delay ← randint env c.interval_min c.interval_max
    act (sleep_ms (1000 * delay))
    up ← check
    modify (λ w. record w {
      queue =
          w.queue
          ++ record { type = verdict up; payload = ("target", target_of w.last_target) ∷ [] } ∷ [];
    })
