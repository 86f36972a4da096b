-- ===== src/Subscription/Apply.antt =====
-- src/vpn/core/subscription.py, `SubscriptionUpdater`: the profile is written, older files are removed.
pub mod Writes
use virtual_private_network.Prelude.{
  ℕ, suc, String, Bool, true, false, Option, none, some, List, [], ◌∷◌, ◌++◌, str_eq, if◌then◌else◌,
}
use virtual_private_network.Ports.Effect.{
  M, Outcome, ok, raised, pure, raise, gets, attribute_error, type_error, try_except, ◌>>=◌, ◌>>◌,
}
use virtual_private_network.Ports.Env.{Env, History, makedirs, write_text, remove_file, file}
use virtual_private_network.Ports.Json.{Json, Fields, Items, obj, arr, nil, cons, lookup, truthy}
use virtual_private_network.Subscription.{validate_profile, merge_profile, is_text}

pub record Updater : Type 0 where
  pub target : String
  pub legacy : List String
  pub baseline : Fields

-- The summary that `apply` returns.
pub record Summary : Type 0 where
  pub target : String
  pub server_count : ℕ
  pub has_inbounds : Bool
  pub removed : List String

abbrev counted : Bool → ℕ → ℕ
counted true n = suc n
counted false n = n

-- The number of dicts with the type "vless".
unfoldable pub count_vless : Items → M History ℕ
unfolding lookup
count_vless nil = pure 0
count_vless (cons (obj fs) rest) = do
  n ← count_vless rest
  pure (counted (is_text "vless" (lookup "type" fs)) n)
count_vless (cons _ rest) = raise (attribute_error "no attribute 'get'")

abbrev count_in : Option Json → M History ℕ
count_in none = pure 0
count_in (some (arr items)) = count_vless items
count_in (some _) = raise (type_error "no list")

abbrev entry_of : String → Json → Option Json
entry_of k (obj fs) = lookup k fs
entry_of k _ = none

abbrev flag : Option Json → Bool
flag none = false
flag (some v) = truthy v

module _ (env : Env) (target : String) where
  -- `os.remove(path)`, with what was removed before it.
  abbrev pub remove_one : String → List String → M History (List String)
  remove_one path removed =
      if str_eq (env.abspath path) target
      then pure removed
      else try_except (file env (remove_file path) >> pure (removed ++ path ∷ []))
          (λ e. pure removed)

  unfoldable pub remove_paths : List String → List String → M History (List String)
  unfolding file
  remove_paths [] removed = pure removed
  remove_paths (p ∷ ps) removed = remove_one p removed >>= remove_paths ps

  unfoldable pub cleanup : List String → List String → M History (List String)
  unfolding remove_paths
  cleanup [] removed = pure removed
  cleanup (pattern' ∷ patterns) removed = do
    paths ← gets (λ h. env.glob h pattern')
    removed' ← remove_paths paths removed
    cleanup patterns removed'

abbrev outcome_of : {A : Type 0} → Outcome A → M History A
outcome_of (ok a) = pure a
outcome_of (raised e) = raise e

abbrev fields_in : Json → Fields → Json
fields_in (obj fs) baseline = merge_profile fs baseline
fields_in other baseline = other

module _ (env : Env) where
  unfoldable pub apply : Updater → String → M History Summary
  unfolding cleanup count_vless validate_profile merge_profile lookup truthy file
  apply u text = do
    subscription ← outcome_of (validate_profile env text)
    let data' = fields_in subscription u.baseline in
        do
          n ← count_in (entry_of "outbounds" data')
          let target = env.abspath u.target in
              do
                file env (makedirs (env.dirname target))
                file env (write_text target (env.dumps data'))
                removed ← cleanup env target u.legacy []
                pure (record {
                  target = target;
                  server_count = n;
                  has_inbounds = flag (entry_of "inbounds" data');
                  removed = removed;
                })
