-- ===== src/Tests/Rounds.antt =====
-- The theorems on the health check, the view command and the pruning of profiles at concrete inputs.
use virtual_private_network.Prelude.{
  ℕ, zero, suc, ◌*◌, ◌≤◌, String, ◌≡◌, refl, true, false, none, some, List, [], ◌∷◌, ◌++◌, All,
  arith, ltb, if◌then◌else◌,
}
use virtual_private_network.Ports.Effect.{ok}
use virtual_private_network.Ports.Env.{Env, Act}
use virtual_private_network.Ports.Json.{bool, obj, field, end}
use virtual_private_network.Tests.Samples.{sample_env, dead_env}
use virtual_private_network.Health.{Checker, Watch}
use virtual_private_network.Speedtest.Lock
use virtual_private_network.Speedtest.Store.{Disk, Files, is_running}
use virtual_private_network.Cli.View.{view_speedtest, running_at, view_speedtest-ends}
use virtual_private_network.Subscription.Apply.{cleanup}
use virtual_private_network.Subscription.Apply.Writes.{SparesTarget, cleanup-Spared}

abbrev first : ℕ → List String → List String
first zero l = []
first (suc n) [] = []
first (suc n) (x ∷ l) = x ∷ first n l

-- A host without a network, which samples the first elements.
abbrev sampling_env : Env
sampling_env = record dead_env { random_sample = λ h l n. first n l }

abbrev checker : Checker
checker = record {
  targets = "https://a.example" ∷ "https://b.example" ∷ "https://c.example" ∷ [];
  user_agents = "agent" ∷ [];
  interval_min = 25;
  interval_max = 55;
  curl_timeout = 8;
  sample_size = 2;
}

abbrev watch : Watch
watch = record { history = []; last_target = none; queue = [] }

abbrev two_targets : List String
two_targets = "https://a.example" ∷ "https://b.example" ∷ []

abbrev running_files : Files
running_files = record {
  writable = λ d name. true;
  readable = λ d name. true;
  dumps = λ j. "running";
  loads = λ s. some (obj (field "running" (bool true) end));
  before = λ a b. false;
}

-- The run ends after three seconds.
abbrev disk_at : ℕ → Disk
disk_at n = record {
  root = true;
  files = ("status", "running") ∷ [];
  lock = if ltb n 3 then some 0 else none;
}

view_speedtest-ends_example :
    (view_speedtest running_files disk_at (λ n. 1000 * n) 10 ≤ 3)
    × (running_at running_files disk_at
          (λ n. 1000 * n)
          (view_speedtest running_files disk_at (λ n. 1000 * n) 10)
        ≡ false)
unfolding is_running Lock.is_running
view_speedtest-ends_example =
    view_speedtest-ends running_files disk_at (λ n. 1000 * n) 10 3 (omega arith) refl

abbrev globbing_env : Env
globbing_env = record sample_env {
  glob = λ h pattern'. "/data/profile.json" ∷ "/data/profile_old.json" ∷ [];
}

cleanup-Spared_example :
    (removed : List String) × (acts : List Act) × ((cleanup globbing_env "/data/profile.json"
        ("/data/*" ∷ [])
        []
        []).0
      ≡ ok removed)
    × ((cleanup globbing_env "/data/profile.json" ("/data/*" ∷ []) [] []).1 ≡ acts ++ [])
    × All (SparesTarget globbing_env "/data/profile.json") acts
cleanup-Spared_example = cleanup-Spared globbing_env "/data/profile.json" ("/data/*" ∷ []) [] []
