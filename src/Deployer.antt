-- ===== src/Deployer.antt =====
-- core/server_manager/deployer.py: the sing-box configuration from the profile.
use virtual_private_network.Prelude.{String, Bool, true, false, Option, none, some}
use virtual_private_network.Ports.Effect.{
  M, value_error, pure, raise, gets, try_except, ◌>>=◌, ◌>>◌,
}
use virtual_private_network.Ports.Env.{
  Env, Provider, History, file, read, makedirs, copy, write_text,
}
use virtual_private_network.Ports.Json.{Json}

module _ (env : Env) (provider : Provider) (profile_path config_dest : String) where
  -- `json.loads`, which raises `ValueError`.
  abbrev decoded : Option Json → M History Json
  decoded none = raise (value_error "invalid JSON")
  decoded (some value) = pure value

  -- The `try` block.
  sanitize_in_place : M History Bool
  sanitize_in_place = do
    text ← read env config_dest
    raw ← decoded (env.loads text)
    sanitized ← (λ h. (provider.sanitize_config h raw, h))
    file env (write_text config_dest (env.dumps sanitized))
    pure true

  sanitize : M History Bool
  unfolding sanitize_in_place
  sanitize = try_except sanitize_in_place (λ _. pure false)

  -- By whether the profile is there, and whether a configuration is there.
  place : Bool → Bool → M History Bool
  unfolding sanitize
  place true _ = do
    file env (makedirs (env.dirname config_dest))
    file env (copy profile_path config_dest)
    sanitize
  place false true = sanitize
  place false false = pure false

  unfoldable pub deploy : M History Bool
  unfolding place
  deploy = do
    profile ← gets (λ h. env.exists h profile_path)
    config ← gets (λ h. env.exists h config_dest)
    place profile config
