-- ===== src/Switcher.antt =====
-- core/server_manager/switcher.py: the configuration of a chosen server. What the code reads of the
-- old configuration only goes to the log, and is left out.
use virtual_private_network.Prelude.{String, Bool, true, false}
use virtual_private_network.Ports.Command.{host, pkill}
use virtual_private_network.Ports.Effect.{M, pure, ◌>>=◌, ◌>>◌}
use virtual_private_network.Ports.Env.{Env, Provider, History, file, exec, sleep_ms, write_text}
use virtual_private_network.World.{Daemon, lift, with_profile}

abbrev restart : Bool → M History (Unit {0})
restart false = pure tt
restart true = do exec (host (pkill "sing-box")); sleep_ms 1000

-- The tag of the server. The name is looked up by the provider before anything is written.
unfoldable pub switch : Env → Provider → String → String → Bool → M Daemon String
switch env provider config_dest server_name restart_service = do
  config_json ← with_profile (λ h. provider.build_config h server_name)
  lift (file env (write_text config_dest config_json))
  lift (restart restart_service)
  new_server ← with_profile (λ h. provider.get_server h server_name)
  pure new_server.tag
