-- ===== src/Updater.antt =====
-- src/vpn/core/ru_updater/updater.py: one refresh of the list of Russian subnets.
use virtual_private_network.Prelude.{ℕ, String, Option, none, some, ◌∷◌, splitlines, length}
use virtual_private_network.Ports.Effect.{M, pure, raise, os_error, try_except, ◌>>=◌, ◌>>◌}
use virtual_private_network.Ports.Env.{Env, History, request_url, makedirs, write_text, file}

-- `RU_LIST_URL`
abbrev pub ru_list_url : String
ru_list_url =
    "https://raw.githubusercontent.com/ipverse/country-ip-blocks/master/country/ru/ipv4-aggregated.txt"

abbrev answered : Option String → M History String
answered none = raise (os_error "request failed")
answered (some data') = pure data'

-- `urlopen` and the decoding of what it answers.
abbrev fetched : Env → M History String
fetched env h = answered (env.fetch h ru_list_url) (request_url ru_list_url ∷ h)

unfoldable pub fetch : Env → String → M History ℕ
unfolding file splitlines
fetch env cache_path =
    try_except
      (do
        data' ← fetched env
        file env (makedirs (env.dirname cache_path))
        file env (write_text cache_path data')
        pure (length (splitlines data')))
      (λ e. pure 0)
