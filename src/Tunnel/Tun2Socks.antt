-- ===== src/Tunnel/Tun2Socks.antt =====
-- core/tunnel/tun2socks.py: the process that joins tun0 to the proxy. The state is the process id
-- behind `self._handle`.
use virtual_private_network.Prelude.{
  ℕ, String, Bool, true, false, Option, none, some, List, [], ◌∷◌, if◌then◌else◌, is_some, not,
}
use virtual_private_network.Ports.Effect.{M, pure, gets, ◌>>=◌, ◌>>◌, try_except}
use virtual_private_network.Ports.Env.{Env, History, spawn, wait_for, signal, terminate, kill, wait}

-- `terminate`, five seconds, and `kill` where they were not enough.
unfoldable pub end_process : Env → ℕ → M History (Unit {0})
end_process env pid = do
  signal (terminate pid)
  try_except (wait_for env pid 5) (λ _. do signal (kill pid); signal (wait pid))

module _ (env : Env) where
  unfoldable pub is_alive : Option ℕ → M History Bool
  is_alive none = pure false
  is_alive (some pid) = gets (λ h. not (is_some (env.poll h pid)))

  end_old : Option ℕ → Bool → M History (Unit {0})
  end_old (some pid) true = end_process env pid
  end_old _ _ = pure tt

  abbrev pub command_line : String → List String
  command_line proxy_url = "tun2socks" ∷ "-device" ∷ "tun0" ∷ "-proxy" ∷ proxy_url ∷ []

  -- The new handle.
  unfoldable pub start : Option ℕ → String → M History ℕ
  unfolding end_old is_alive end_process
  start handle proxy_url = do
    alive ← is_alive handle
    end_old handle alive
    spawn env (command_line proxy_url)

  -- The handle is dropped only where the process was alive.
  unfoldable pub stop : Option ℕ → M History (Option ℕ)
  unfolding end_old is_alive end_process
  stop handle = do
    alive ← is_alive handle
    end_old handle alive
    pure (if alive then none else handle)
