-- ===== src/Tests.antt =====
-- The theorems applied to concrete inputs.
pub mod Box
pub mod Samples
pub mod Terminal
pub mod Rounds
use virtual_private_network.Prelude.{
  after_prefix, span_word, ℕ, ◌+◌, ◌≤◌, String, ◌≡◌, refl, Bool, true, false, Option, none, some,
  List, [], ◌∷◌, ◌⊎◌, inl, inr, map, All, arith, eq_iff, zero, suc, ◌<◌,
}
use virtual_private_network.Ports.Command.{host, default_route, route, add_route, del_route}
use virtual_private_network.Ports.Effect.{ok, raised, value_error, ◌>>=◌}
use virtual_private_network.Ports.Env.{Env, History, shell, sleep}
use virtual_private_network.Ports.Json.{
  Json, Fields, null, nil, cons, arr, str, obj, end, field, lookup, truthy,
}
use virtual_private_network.Notification.{send}
use virtual_private_network.Notification.Bounds.{Delivery, send-Delivery}
use virtual_private_network.Subscription.{
  merge_profile, replace_refs, validate_profile, normalize_profile, count_items, items_of,
}
use virtual_private_network.Subscription.Merge.{
  Judged, merge_profile-lookup, first_of, validate_profile-Judged,
}
use virtual_private_network.Subscription.References.{refs, values, erased, refs-replace_refs}
use virtual_private_network.Subscription.Settles.{all_settled, normalize_profile-settled}
use virtual_private_network.Routing.Table.{RouteEntry}
use virtual_private_network.Routing.Bypass.{bypass, entry, load_all}
use virtual_private_network.Routing.Bypass.Sound.{distinct, find, OnTargets}
use virtual_private_network.Routing.Bypass.Loads.{Unreadable, load_all_routes, load_all_first}
use virtual_private_network.Topology.Discovery.{discover, exhausted, parse_route}
use virtual_private_network.Topology.Discovery.Retries.{
  waited, found_at, discover_found, discover-exhausted,
}
use virtual_private_network.Topology.Patterns.{is_domain, is_ipv4}
use virtual_private_network.Topology.Resolver.{resolve_ipv4}
use virtual_private_network.Orchestrator.Bootstrap.{wait_for_socks_port}
use virtual_private_network.Orchestrator.Bootstrap.SocksWait.{
  ClockAdvances, Justified, wait_for_socks_port_ends,
}
use virtual_private_network.Orchestrator.Teardown.{teardown_network}
use virtual_private_network.Orchestrator.Teardown.Kernel.{after}
use virtual_private_network.Orchestrator.Teardown.Restores.{Restored, teardown_network-Restored}
use virtual_private_network.Machine.Servers.{apply_server}
use virtual_private_network.Machine.Servers.Commit.{Commits, apply_server-Commits}
use virtual_private_network.Machine.Replies.{texts, single, drop_ips, lookup_ips, param}
use virtual_private_network.Machine.Lists.{
  bypass_add, bypass_remove, add_subnet, remove_subnet, add_domain, remove_domain,
}
use virtual_private_network.Machine.Lists.RoundTrip.{
  shells, bypass_add-bypass_remove, add_subnet-remove_subnet, add_domain-remove_domain,
}
use virtual_private_network.Machine.Power.{stop}
use virtual_private_network.Machine.Power.Stops.{stop-Restored}
use virtual_private_network.Machine.States.{transition_to}
use virtual_private_network.Machine.States.Diagram.{FollowsDiagram, handle-next, next}
use virtual_private_network.Machine.States.Exit.{ExitsClean, handle_exit}
use virtual_private_network.Machine.Loop.{run_bootstrap, bootstraps, here, created, started}
use virtual_private_network.Machine.Loop.Invariant.{Inv}
use virtual_private_network.Machine.Loop.Reachable.{Reach-Inv}
use virtual_private_network.Machine.Loop.Wiring.{Wired}
use virtual_private_network.Machine.Loop.Wired.{Reach-Wired}
use virtual_private_network.Machine.Loop.Checks.{
  process_checks, process_checks_lem, three_in_a_row, last_failures,
}
use virtual_private_network.World.{
  Daemon, starting, on_timeout, bootstrapping, healthy, degraded, restarting, failed, stopped,
  event, health_fail, timeout,
}
use virtual_private_network.Tests.Box.{box, box-IsLinux, used_box}
use virtual_private_network.Tests.Samples.{
  sample_env, dead_env, sample_provider, sample_config, sample_sources, daemon_in,
}

send-Delivery_example :
    let (r, h') = send dead_env 5 (record { token = "t"; chat_id = "c" }) "down" 3 [] in
    (r ≡ ok tt)
    × (((false ≡ true) × (h' ≡ [])) ⊎ ((false ≡ false) × Delivery dead_env 5 "down" 3 [] h'))
send-Delivery_example = send-Delivery dead_env 5 "down" (record { token = "t"; chat_id = "c" }) 3 []

abbrev sample_profile : Fields
sample_profile =
    field "outbounds"
      (arr (
        cons (obj (field "type" (str "urltest") (field "tag" (str "auto") end)))
          (cons (obj (field "type" (str "vless") (field "tag" (str "de-1") end))) nil)))
      (field "route" (obj (field "final" (str "auto") end)) end)

abbrev local_baseline : Fields
local_baseline = field "inbounds" (arr nil) (field "route" null end)

merge_profile-lookup_example :
    (merged : Fields) × (merge_profile sample_profile local_baseline
      ≡ normalize_profile (obj merged))
    × ((k : String)
        → lookup k merged ≡ first_of (lookup k sample_profile) (lookup k local_baseline))
unfolding lookup
merge_profile-lookup_example = merge_profile-lookup sample_profile local_baseline refl

refs-replace_refs_example :
    (refs "auto" (replace_refs "auto" "urltest_out" (obj sample_profile)) ≡ 0)
    × (refs "urltest_out" (replace_refs "auto" "urltest_out" (obj sample_profile)) ≡ 2)
    × (values (replace_refs "auto" "urltest_out" (obj sample_profile))
        ≡ "urltest" ∷ "urltest_out" ∷ "vless" ∷ "de-1" ∷ "urltest_out" ∷ [])
    × (erased (replace_refs "auto" "urltest_out" (obj sample_profile))
        ≡ erased (obj sample_profile))
unfolding refs values
refs-replace_refs_example =
    refs-replace_refs "auto" "urltest_out" (obj sample_profile)
      (λ h. absurd (ground (arith, eq_iff "auto" "urltest_out")))

validate_profile_example :
    Judged (sample_env.loads "no JSON") (validate_profile sample_env "no JSON")
validate_profile_example = validate_profile-Judged sample_env "no JSON"

normalize_profile-settled_example :
    (count_items (items_of (normalize_profile (obj sample_profile))) ≡ 2)
    × (all_settled (items_of (normalize_profile (obj sample_profile))) ≡ true)
unfolding lookup count_items
normalize_profile-settled_example = normalize_profile-settled (obj sample_profile)

-- A group whose tag is the name of its type loses its type.
normalize_type_lost :
    normalize_profile (
      obj (
        field "outbounds"
          (arr (cons (obj (field "type" (str "urltest") (field "tag" (str "urltest") end))) nil))
          end))
    ≡ obj (
        field "outbounds"
          (arr (
            cons
              (obj (field "type" (str "urltest_out") (field "tag" (str "urltest_out") end)))
              nil))
          end)
unfolding normalize_profile lookup replace_refs truthy
normalize_type_lost = refl

abbrev by_length : String → String → Bool
by_length a b = false

abbrev begun : Daemon
begun = started sample_config (created [] [] [] [])

-- The daemon when the first stretch of the bootstrap is over.
abbrev one_phase_on : Daemon
one_phase_on =
    (run_bootstrap sample_env sample_provider sample_config starting
      (record begun { tasks = on_timeout 0 60 ∷ [] })).1

Reach-Inv_example : Inv one_phase_on
unfolding started created transition_to
Reach-Inv_example = Reach-Inv sample_env sample_provider sample_config by_length [] [] [] [] (
    virtual_private_network.Machine.Loop.next here
      (bootstraps starting (on_timeout 0 60 ∷ []) [] refl))

Reach-Wired_example : Wired one_phase_on
unfolding started created transition_to
Reach-Wired_example = Reach-Wired sample_env sample_provider sample_config by_length [] [] [] [] (
    virtual_private_network.Machine.Loop.next here
      (bootstraps starting (on_timeout 0 60 ∷ []) [] refl))

handle-next_example :
    FollowsDiagram sample_config degraded (event health_fail) (daemon_in (some degraded) 2)
handle-next_example =
    handle-next sample_config degraded (event health_fail) (daemon_in (some degraded) 2) refl

abbrev checks : List Bool
checks = false ∷ true ∷ false ∷ false ∷ false ∷ []

process_checks_example :
    (process_checks sample_config checks (daemon_in (some healthy) 0)).state ≡ some restarting
unfolding three_in_a_row last_failures
process_checks_example =
    process_checks_lem sample_config checks (daemon_in (some healthy) 0) refl refl

handle_exit_example :
    ExitsClean sample_config bootstrapping (event timeout) (daemon_in (some bootstrapping) 0)
unfolding next
handle_exit_example =
    handle_exit sample_config bootstrapping (event timeout) (daemon_in (some bootstrapping) 0)
      (λ h. cc) refl

teardown_network_example :
    ((teardown_network sample_config []).0 ≡ ok tt)
    × Restored box sample_config used_box (after box used_box (teardown_network sample_config []).1)
teardown_network_example = teardown_network-Restored box box-IsLinux used_box sample_config []

stop_example :
    let (r, d') = stop sample_config (daemon_in (some restarting) 3) in
    (r ≡ ok (single "status" (str "stopped")))
    × (d'.state ≡ some stopped)
    × (d'.timer ≡ none)
    × Restored box sample_config used_box (after box used_box d'.history)
stop_example = stop-Restored box box-IsLinux used_box sample_config (daemon_in (some restarting) 3)

load_all_routes_example :
    ((es : List RouteEntry) × ((load_all sample_env sample_sources "10.0.0.1" "eth0" "100" []).0
        ≡ ok es)
      × (distinct (map (λ e. e.subnet) es) ≡ true)
      × All (OnTargets "100" (bypass "10.0.0.1" "eth0")) es)
    ⊎ Unreadable sample_env sample_sources []
load_all_routes_example = load_all_routes sample_env sample_sources "100" "10.0.0.1" "eth0" []

load_all_first_example :
    ((es : List RouteEntry) × ((load_all sample_env sample_sources "10.0.0.1" "eth0" "100" []).0
        ≡ ok es)
      × (find "100.64.0.0/10" es ≡ some (entry (bypass "10.0.0.1" "eth0") "100" "100.64.0.0/10")))
    ⊎ Unreadable sample_env sample_sources []
unfolding is_ipv4
load_all_first_example =
    load_all_first sample_env sample_sources "100" "10.0.0.1" "eth0" [] "100.64.0.0/10" refl refl

apply_server_example :
    Commits
      (apply_server sample_env sample_provider sample_config "nl-1")
      "nl-1"
      (daemon_in (some healthy) 0)
apply_server_example =
    apply_server-Commits sample_env sample_provider sample_config "nl-1"
      (daemon_in (some healthy) 0)

sample-ClockAdvances : ClockAdvances sample_env 3066
sample-ClockAdvances h = omega arith

wait_for_socks_port_example :
    (b : Bool) × ((wait_for_socks_port sample_env 3066 30 []).0 ≡ ok (some b))
    × Justified sample_env 3066 30000 b (wait_for_socks_port sample_env 3066 30 []).1
wait_for_socks_port_example = wait_for_socks_port_ends sample_env 3066 30 [] sample-ClockAdvances

first_fails : (i : ℕ) → i < 1 → found_at sample_env 2 [] i ≡ none
unfolding waited parse_route
first_fails zero l = refl
first_fails (suc i) l = absurd (omega arith)

discover_found_example : discover sample_env 3 2 [] ≡ (
  ok (record { gateway = "192.168.1.1"; interface = "eth0" }),
  shell (host default_route) ∷ sleep 2000 ∷ shell (host default_route) ∷ [],
)
unfolding waited parse_route after_prefix span_word
discover_found_example =
    discover_found sample_env 3 2 1 [] (record { gateway = "192.168.1.1"; interface = "eth0" })
      (omega arith) first_fails refl

discover-exhausted_example : discover dead_env 2 5 [] ≡ (
  (exhausted 2 []).0,
  shell (host default_route) ∷ sleep 5000 ∷ shell (host default_route) ∷ [],
)
unfolding waited parse_route
discover-exhausted_example = discover-exhausted dead_env 1 5 [] (λ i l. refl)

abbrev domain_param : List (String × String)
domain_param = ("domain", "vk.com") ∷ []

bypass_round_trip_example :
    (bypass_add domain_param >>= (λ _. bypass_remove domain_param)) (daemon_in (some healthy) 0)
    ≡ (ok (arr (texts ("ya.ru" ∷ []))), daemon_in (some healthy) 0)
unfolding param
bypass_round_trip_example =
    bypass_add-bypass_remove domain_param "vk.com" (daemon_in (some healthy) 0) refl refl

subnet_round_trip_example :
    (add_subnet sample_config "8.8.8.0/24" >>= (λ _. remove_subnet sample_config "8.8.8.0/24"))
      (daemon_in (some healthy) 0)
    ≡ (
      ok (single "subnet" (str "8.8.8.0/24")),
      record (daemon_in (some healthy) 0) {
        history =
            shell (route (del_route "8.8.8.0/24" "100"))
            ∷ shell (route (add_route "8.8.8.0/24" "100"))
            ∷ [];
      },
    )
subnet_round_trip_example =
    add_subnet-remove_subnet sample_config "8.8.8.0/24" (daemon_in (some healthy) 0) refl

abbrev resolved : List String
resolved = "10.1.1.1" ∷ "10.1.1.2" ∷ []

domain_round_trip_example :
    (add_domain sample_env sample_config "vk.com" >>= (λ _. remove_domain sample_config "vk.com"))
      (daemon_in (some healthy) 0)
    ≡ (
      ok (single "domain" (str "vk.com")),
      record (daemon_in (some healthy) 0) {
        history =
            shells
              (λ ip. del_route ip "100")
              resolved
              (shells (λ ip. add_route ip "100") resolved []);
      },
    )
unfolding drop_ips resolve_ipv4 is_domain
domain_round_trip_example =
    add_domain-remove_domain sample_config sample_env "vk.com" (daemon_in (some healthy) 0) resolved
      [] refl refl
