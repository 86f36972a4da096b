-- ===== src/Akonit/Provider.antt =====
-- src/vpn/adapters/akonit/provider.py: the provider port, with the profile that is kept after the
-- first read.
pub mod Sanitize
pub mod Kept
use virtual_private_network.Prelude.{
  String, ◌<>◌, Bool, true, false, Option, none, some, List, [], ◌∷◌, str_eq, if◌then◌else◌,
}
use virtual_private_network.Ports.Effect.{
  M, Outcome, ok, raised, pure, raise, os_error, value_error, key_error, attribute_error,
  type_error, ◌>>=◌, ◌>>◌,
}
use virtual_private_network.Ports.Env.{Env, History, Provider, ServerInfo}
use virtual_private_network.Ports.Json.{
  Json, Fields, Items, null, str, arr, obj, nil, cons, end, field, lookup, truthy, elements,
}
use virtual_private_network.Subscription.{put}
use virtual_private_network.Akonit.Catalog.{build_catalog, find_server, items_at}
use virtual_private_network.Akonit.Provider.Sanitize.{sanitize_config, edit, each_item, is_word}

-- The rule's "outbound" is set to the target where it is the automatic group.
abbrev pub aimed : {S : Type 0} → String → Json → M S Json
aimed target (obj fs) =
    if is_word "urltest_out" (lookup "outbound" fs)
    then pure (obj (put "outbound" (str target) fs))
    else pure (obj fs)
aimed target _ = raise (attribute_error "no attribute 'get'")

abbrev final_aimed : {S : Type 0} → String → Json → M S Json
final_aimed target (obj fs) =
    if is_word "urltest_out" (lookup "final" fs)
    then pure (obj (put "final" (str target) fs))
    else pure (obj fs)
final_aimed target _ = raise (attribute_error "no attribute 'get'")

-- `any(ob.get("tag") == target for ob in ...)`
unfoldable pub any_tagged : {S : Type 0} → String → List Json → M S Bool
unfolding lookup
any_tagged target [] = pure false
any_tagged target (obj fs ∷ os) =
    let rest = any_tagged target os in if is_word target (lookup "tag" fs) then pure true else rest
any_tagged target (o ∷ os) = raise (attribute_error "no attribute 'get'")

abbrev require : {S : Type 0} → String → Bool → M S (Unit {0})
require name true = pure tt
require name false = raise (key_error ("Server '" <> name <> "' not found in profile"))

module _ (env : Env) (path : String) where
  abbrev parsed : Option Json → M (Option Json) Json
  parsed none = raise (value_error "invalid JSON")
  parsed (some j) = λ s. (ok j, some j)

  abbrev opened : Option String → M (Option Json) Json
  opened none = raise (os_error "cannot read the profile")
  opened (some text) = parsed (env.loads text)

  abbrev kept_or : M (Option Json) Json → Option Json → Outcome Json × Option Json
  kept_or m none = m none
  kept_or m (some j) = (ok j, some j)

  -- What the disk holds is what the history has left there.
  unfoldable pub load_profile : History → M (Option Json) Json
  load_profile h = kept_or (opened (env.read_text h path))

  module _ (before : String → String → Bool) where
    unfoldable pub list_servers : History → M (Option Json) (List ServerInfo)
    unfolding load_profile build_catalog
    list_servers h = do profile ← load_profile h; build_catalog before env.lower profile

    unfoldable pub get_server : History → String → M (Option Json) ServerInfo
    unfolding list_servers find_server
    get_server h name = do servers ← list_servers h; find_server name servers

    unfoldable pub build_config : History → String → M (Option Json) String
    unfolding get_server any_tagged put lookup sanitize_config
    build_config h name = do
      config ← load_profile h
      server ← get_server h name
      outbounds ← items_at "outbounds" config
      found ← any_tagged server.tag outbounds
      require name found
      ruled ← edit "route" (edit "rules" (each_item (aimed server.tag))) config
      aimed_at ← edit "route" (final_aimed server.tag) ruled
      sanitized ← sanitize_config env h aimed_at
      pure (env.dumps sanitized)

    -- The provider of the program.
    unfoldable pub akonit : Provider
    unfolding build_config
    akonit = record {
      list_servers = list_servers;
      get_server = get_server;
      build_config = build_config;
      sanitize_config = λ h j. (sanitize_config env h {S = Option Json} j none).0;
      reload = λ kept. none;
    }
