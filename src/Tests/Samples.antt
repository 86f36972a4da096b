-- ===== src/Tests/Samples.antt =====
-- A sample world, configuration and daemon for the tests.
use Prim.Native.Char.{code}
use virtual_private_network.Prelude.{
  ℕ, ◌+◌, String, true, false, Option, none, some, [], ◌∷◌, leb, ◌&&◌,
}
use virtual_private_network.Ports.Command.{Command, host, default_route, listeners}
use virtual_private_network.Ports.Effect.{ok, raised, os_error}
use virtual_private_network.Ports.Env.{Env, Provider, Completed, History, sleep}
use virtual_private_network.World.{Daemon, Config, State, initial_context}
use virtual_private_network.Routing.Bypass.{Sources}

-- The pauses so far.
abbrev pub elapsed : History → ℕ
elapsed [] = 0
elapsed (sleep n ∷ h) = n + elapsed h
elapsed (_ ∷ h) = elapsed h

abbrev completed : String → Option Completed
completed out = some (record { returncode = 0; stdout = some out; stderr = none })

-- The first question finds no route yet; the port is open from the second probe on.
abbrev answer : History → Command → Option Completed
answer (_ ∷ _) (host default_route) = completed "default via 192.168.1.1 dev eth0 proto dhcp"
answer (_ ∷ _) (host (listeners _)) = completed "LISTEN 0 4096 127.0.0.1:3066"
answer _ _ = none

abbrev pub sample_env : Env
sample_env = record {
  run = answer;
  spawn = λ h args. some 7;
  poll = λ h pid. none;
  ends_within = λ h pid seconds. true;
  exists = λ h path. false;
  read_text = λ h path. none;
  succeeds = λ h a. true;
  temp_path = λ h. "/tmp/routes";
  monotonic = elapsed;
  time = elapsed;
  dirname = λ path. "/etc";
  getaddrinfo = λ h name. some ("10.1.1.1" ∷ "10.1.1.2" ∷ []);
  dns_reachable = λ h. true;
  inet_aton = λ s. false;
  is_decimal = λ c. leb b'0' (code c) && leb (code c) b'9';
  set_order = λ l. l;
  loads = λ s. none;
  dumps = λ j. "{}";
  safe_load = λ s. none;
  random_sample = λ h l n. l;
  random_choice = λ h l. "agent";
  random_between = λ h lo hi. lo;
  fetch = λ h url. none;
  lower = λ s. s;
  glob = λ h pattern. [];
  abspath = λ s. s;
  getenv = λ s. none;
}

-- A host without a network.
abbrev pub dead_env : Env
dead_env = record sample_env { run = λ h c. none; succeeds = λ h a. false }

abbrev pub sample_provider : Provider
sample_provider = record {
  list_servers = λ h p. (ok [], p);
  get_server = λ h name p. (raised (os_error name), p);
  build_config = λ h name p. (ok "tag", p);
  sanitize_config = λ h j. ok j;
  reload = λ p. none;
}

abbrev pub sample_config : Config
sample_config = record {
  table_id = "100";
  chain_name = "VPN_REDIRECT";
  tun = record { address = "10.10.10.1/24"; mtu = 1500 };
  mss_value = 1360;
  dns_servers = "1.1.1.1" ∷ [];
  lan_subnets = "192.168.0.0/16" ∷ [];
  bypass_subnets = "100.64.0.0/10" ∷ [];
  socks5_host = "127.0.0.1";
  socks5_port = 3066;
  profile_path = "/etc/vpn/profile.json";
  config_dest = "/etc/vpn/config.json";
  profile_keys = none;
  ru_subnets = none;
  topology_retries = 3;
  topology_delay = 2;
}

-- A daemon in a given state, after so many failed health checks.
abbrev pub daemon_in : Option State → ℕ → Daemon
daemon_in s streak = record {
  context = record initial_context {
    fail_streak = streak;
    singbox = some 7;
    active_server = some "de-1";
  };
  queue = [];
  state = s;
  timer = none;
  tasks = [];
  next_task = 4;
  tun2socks = some 8;
  profile = none;
  bypass_domains = "ya.ru" ∷ [];
  vpn_domains = "example.com" ∷ [];
  vpn_wildcards = [];
  vpn_subnets = [];
  history = [];
}

abbrev pub sample_sources : Sources
sample_sources = record {
  ru_cache_path = "/var/cache/ru.txt";
  bypass_domains = [];
  bypass_subnets = "100.64.0.0/10" ∷ [];
  vpn_domains = "example.com" ∷ [];
  vpn_wildcards = [];
  vpn_subnets = "100.64.0.0/10" ∷ "8.8.8.0/24" ∷ [];
}
