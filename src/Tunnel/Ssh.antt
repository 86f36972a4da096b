-- ===== src/Tunnel/Ssh.antt =====
-- core/tunnel/ssh_proxy.py: the optional SSH tunnel. The state is the process id behind
-- `self._handle`.
use virtual_private_network.Prelude.{ℕ, String, ◌<>◌, decimal, Option, none, some, List, [], ◌∷◌}
use virtual_private_network.Ports.Effect.{M, pure, ◌>>◌}
use virtual_private_network.Ports.Env.{Env, History, spawn}
use virtual_private_network.Tunnel.Tun2Socks.{end_process}

abbrev pub ssh_command : String → String → ℕ → List String
ssh_command user host port = "ssh" ∷ "-D" ∷ decimal port ∷ "-N" ∷ (user <> "@" <> host) ∷ []

module _ (env : Env) where
  -- A tunnel that is open already is forgotten, not closed.
  unfoldable pub open_tunnel : String → String → ℕ → M History ℕ
  open_tunnel user host port = spawn env (ssh_command user host port)

  unfoldable pub close_tunnel : Option ℕ → M History (Option ℕ)
  unfolding end_process
  close_tunnel none = pure none
  close_tunnel (some pid) = do end_process env pid; pure none
