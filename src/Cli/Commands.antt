-- ===== src/Cli/Commands.antt =====
-- src/vpn/cli/main.py: the commands `route add`, `route remove` and `config update`. The other
-- commands are one call of the daemon each.
use virtual_private_network.Prelude.{
  String, ◌==◌, Option, none, some, [], ◌∷◌, is_empty, if◌then◌else◌,
}
use virtual_private_network.Ports.Command.{host, download}
use virtual_private_network.Ports.Effect.{
  M, Outcome, ok, raised, subscription_error, system_exit, type_error, attribute_error, value_error,
  pure, raise, try_except, ◌>>=◌, ◌>>◌,
}
use virtual_private_network.Ports.Env.{History, Completed, run, read}
use virtual_private_network.Ports.Json.{Json, Fields, str, obj, end, lookup, truthy}
use virtual_private_network.Config.{load_subscription_config}
use virtual_private_network.Config.Paths.{load_paths_config}
use virtual_private_network.Machine.Replies.{Params}
use virtual_private_network.Subscription.Apply
use virtual_private_network.Subscription.Apply.{Updater, Summary}
use virtual_private_network.Cli.Measure.{Terminal, Tools, ipc_call, outside}

-- An option that is given, and not empty.
abbrev given : Option String → Option String
given none = none
given (some s) = if is_empty s then none else some s

abbrev pub keyed : Option String → Option String → Option String → Option Params
keyed (some d) w s = some (("domain", d) ∷ [])
keyed none (some w) s = some (("wildcard", w) ∷ [])
keyed none none (some s) = some (("subnet", s) ∷ [])
keyed none none none = none

-- The one parameter of the request, or none where no option is given.
unfoldable pub route_params : Option String → Option String → Option String → Option Params
route_params domain wildcard subnet = keyed (given domain) (given wildcard) (given subnet)

-- What `config update` uses beside the tools: `shlex.quote`, and `PROJECT_ROOT / path`.
pub record Project : Type 0 where
  pub root : String
  pub config_dir : String
  pub quote : String → String
  pub join : String → String

module _ (tools : Tools) where
  abbrev asked : String → Option Params → M Terminal (Option Json)
  asked method none = pure none
  asked method (some params) = ipc_call tools method params >>= λ result. pure (some result)

  unfoldable pub route_add :
      Option String → Option String → Option String → M Terminal (Option Json)
  unfolding route_params
  route_add domain wildcard subnet = asked "route.add" (route_params domain wildcard subnet)

  unfoldable pub route_remove :
      Option String → Option String → Option String → M Terminal (Option Json)
  unfolding route_params
  route_remove domain wildcard subnet = asked "route.remove" (route_params domain wildcard subnet)

  module _ (project : Project) where
    -- A URL that is true; `shlex.quote` raises unless it is a text.
    abbrev url_text : Json → M History String
    url_text (str s) = if is_empty s then raise (system_exit 1) else pure s
    url_text v = if truthy v then raise (type_error "expected string") else raise (system_exit 1)

    unfoldable pub subscription_url : M History String
    unfolding load_subscription_config truthy
    subscription_url = do
      config ←
          try_except (load_subscription_config tools.env project.config_dir)
            (λ e. raise (system_exit 1))
      url_text config.url

    abbrev text_of : Option String → M History String
    text_of none = raise (attribute_error "no text")
    text_of (some s) = pure s

    abbrev downloaded : Option Completed → M History String
    downloaded none = raise (system_exit 1)
    downloaded (some res) =
        if res.returncode == 0 then text_of res.stdout else raise (system_exit 1)

    abbrev text_or : String → Option Json → String
    text_or s (some (str t)) = t
    text_or s other = s

    -- `paths.get("profile_keys", "data/profile.json")`
    abbrev profile_path : Json → String
    profile_path (obj fs) = text_or "data/profile.json" (lookup "profile_keys" fs)
    profile_path other = "data/profile.json"

    abbrev parsed : Option Json → M History Fields
    parsed none = raise (value_error "invalid JSON")
    parsed (some (obj fs)) = pure fs
    parsed (some other) = pure end

    -- The baseline is a dict, or an empty one where it cannot be read.
    unfoldable pub read_baseline : M History Fields
    unfolding read
    read_baseline =
        try_except
          (do
            text ← read tools.env (project.join "config/singbox_baseline.json")
            parsed (tools.env.loads text))
          (λ e. pure end)

    abbrev rejected : Outcome Summary → M History Summary
    rejected (raised (subscription_error e)) = raise (system_exit 1)
    rejected (raised e) = raise e
    rejected (ok summary) = pure summary

    abbrev applied : Updater → String → M History Summary
    applied u text h = let (r, h') = Apply.apply tools.env u text h in rejected r h'

    unfoldable pub update_profile : M History Summary
    unfolding subscription_url run load_paths_config read_baseline Apply.apply lookup
    update_profile = do
      url ← subscription_url
      res ← run tools.env (host (download (project.quote url)))
      text ← downloaded res
      paths ← try_except (load_paths_config tools.env project.root) (λ e. pure (obj end))
      baseline ← read_baseline
      applied
          (record {
            target = project.join (profile_path paths);
            legacy =
                project.join "data/profile_keys_*.json" ∷ project.join "data/profile*.json" ∷ [];
            baseline = baseline;
          })
          text

    abbrev ignored : Json → M Terminal (Unit {0})
    ignored result = pure tt

    -- `config update`: the new profile, and then the reload in the daemon, which may fail.
    unfoldable pub config_update : M Terminal Summary
    unfolding update_profile
    config_update = do
      summary ← outside update_profile
      try_except (ipc_call tools "config.reload" [] >>= ignored) (λ e. pure tt)
      pure summary
