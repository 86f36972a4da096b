-- ===== src/Tests/Terminal.antt =====
-- The theorems on the speedtest, the command line, the provider and the configuration, applied to
-- concrete inputs.
use virtual_private_network.Prelude.{
  ℕ, zero, suc, ◌<◌, String, is_empty, if◌then◌else◌, ◌≡◌, refl, Bool, true, false, ◌&&◌, Option,
  none, some, List, [], ◌∷◌, map, str_eq, eq_iff, Bool-cases, inl, inr, arith,
}
use virtual_private_network.Ports.Command.{Command}
use virtual_private_network.Ports.Effect.{
  Outcome, ok, raised, for_each, pure, speedtest_error, ◌>>=◌,
}
use virtual_private_network.Ports.Env.{Env, Completed, History, ServerInfo}
use virtual_private_network.Ports.Json.{
  Json, Items, null, num, str, arr, obj, nil, cons, end, field, lookup, truthy, elements,
}
use virtual_private_network.Machine.Rpc.{dispatch}
use virtual_private_network.Machine.Lists.{bypass_list}
use virtual_private_network.Machine.Replies.{texts}
use virtual_private_network.Tests.Samples.{
  sample_env, dead_env, sample_config, sample_provider, daemon_in,
}
use virtual_private_network.Speedtest.Lock.{
  advance, System, Reach, begins, advances, acquire, release, held, idle,
}
use virtual_private_network.Speedtest.Lock.Alone.{acquire_lem}
use virtual_private_network.Speedtest.Lock.Exclusion.{
  start, go_on, careful_begin, careful_advance, held_unique,
}
use virtual_private_network.Speedtest.Lock.Race.{both-held}
use virtual_private_network.Speedtest.Store.{Disk, Files, read_result, all_results, read_status}
use virtual_private_network.Speedtest.Store.Board.{
  Op, writes, reports, acquires, releases, perform, find,
}
use virtual_private_network.Speedtest.Store.Refines.{all_results-refine}
use virtual_private_network.Speedtest.Runner.{
  Numbers, standard, run_speedtest, normalize, parse_stdout,
}
use virtual_private_network.Cli.Measure.{Terminal, Tools, test_all}
use virtual_private_network.Cli.Measure.Complete.{test_all_complete}
use virtual_private_network.Cli.Measure.Reported.{Finished}
use virtual_private_network.Cli.Measure.Targets.{resolve_targets}
use virtual_private_network.Cli.Measure.Targets.Unique.{
  unique, Resolved, words_of, resolve_targets-unique,
}
use virtual_private_network.Cli.Ipc.{Codec, fields_of, request, call, handle_rpc}
use virtual_private_network.Cli.Ipc.Remote.{call-dispatch}
use virtual_private_network.Akonit.Names.{all_plain, one_word, name_of-one_word}
use virtual_private_network.Akonit.Catalog.{
  Entry, entry, entries, name_of, server_of, build_catalog,
}
use virtual_private_network.Akonit.Catalog.Order.{IsOrdered, named, build_catalog-IsOrdered}
use virtual_private_network.Akonit.Provider.Sanitize.{dns_servers}
use virtual_private_network.Akonit.Provider.Kept.{all_dicts, all_supported, dns_servers-supported}
use virtual_private_network.Config.Paths.{marker, marked, find_project_root}
use virtual_private_network.Config.Paths.Root.{Nearest, find_project_root-Nearest}
use virtual_private_network.Speedtest.Store
use virtual_private_network.Speedtest.Runner.Retries.{
  document_at, attempt, tried, run_speedtest_found, run_speedtest-exhausted,
}

held_unique_example : ◌≡◌ {A = ℕ} 0 0
unfolding advance
held_unique_example =
    held_unique 5 _ 0 0
      (go_on
        (go_on (go_on (go_on start (begins 0 refl) careful_begin) (advances 0) careful_advance)
          (begins 1 refl) careful_begin)
        (advances 1) careful_advance)
      refl refl

-- A lock that a run has left behind at the time 0.
abbrev left_behind : System
left_behind = record { now = 900000; lock = some 0; pc = λ i. idle }

both-held_example : (t : System) × Reach left_behind t × (t.pc 0 ≡ held) × (t.pc 1 ≡ held)
both-held_example = both-held left_behind 0 1 0 (λ e. omega (arith, e)) refl (omega arith) refl refl

acquire_lem_example :
    (acquire 900000 (some 0) ≡ (true, some 900000))
    × (acquire 900001 (release (acquire 900000 (some 0)).1) ≡ (true, some 900001))
acquire_lem_example = acquire_lem 900000 900001 (some 0)

-- Values of one field, as their key.
abbrev key_of : Json → String
key_of (obj (field k v end)) = k
key_of _ = ""

abbrev value_of : String → Option Json
value_of k = some (obj (field k null end))

abbrev sample_files : Files
sample_files = record {
  writable = λ d name. true;
  readable = λ d name. true;
  dumps = key_of;
  loads = value_of;
  before = λ a b. false;
}

abbrev entry_with : String → Json
entry_with k = obj (field k null end)

abbrev operations : List Op
operations =
    acquires 5
    ∷ reports 6 (entry_with "running")
    ∷ writes "yauk" (entry_with "ping_ms")
    ∷ writes "yauk" (entry_with "error")
    ∷ releases
    ∷ []

all_results-refine_example :
    let (r, d) =
      for_each
        (perform sample_files)
        operations
        (record { root = false; files = []; lock = none }) in
    (r ≡ ok tt)
    × (read_result sample_files "yauk" d ≡ some (entry_with "error"))
    × (find "yauk" (all_results sample_files d) ≡ some (entry_with "error"))
    × (read_status sample_files d ≡ field "running" null end)
all_results-refine_example =
    all_results-refine sample_files (λ d n. refl) (λ d n. refl) none operations "yauk"
      (tt, (refl, (refl, (refl, (tt, tt))))) refl

abbrev sample_numbers : Numbers
sample_numbers = record { round_mbps = λ j. some j; str_of = λ j. "text"; fixed = λ j. "1.0" }

abbrev printing : History → Command → Option Completed
printing [] c = none
printing (a ∷ h) c = some (record { returncode = 1; stdout = some "document"; stderr = none })

abbrev document : Json
document = obj (field "download" (obj (field "bandwidth" (num 9) end)) end)

abbrev result : Json
result = obj (
    field "download_mbps" (num 9) (
      field "upload_mbps" (num 0) (
        field "ping_ms" null (
          field "jitter_ms" null (
            field "packet_loss_pct" null (
              field "speedtest_server" null (
                field "speedtest_location" null
                  (field "external_ip" null (field "result_url" null end)))))))))

-- The first attempt times out, and the second prints a document and fails.
abbrev flaky_env : Env
flaky_env = record sample_env { run = printing; loads = λ s. some document }

run_speedtest_found_example :
    run_speedtest sample_numbers flaky_env standard []
    ≡ (ok result, attempt standard ∷ tried standard 1 [])
unfolding parse_stdout lookup truthy normalize tried
run_speedtest_found_example =
    run_speedtest_found sample_numbers flaky_env standard 1 [] document result (omega arith)
      first_fails refl refl
  where
    first_fails : (i : ℕ) → i < 1 → document_at sample_numbers flaky_env standard [] i ≡ none
    first_fails zero l = refl
    first_fails (suc i) l = absurd (omega arith)

run_speedtest-exhausted_example :
    (e : String) × (run_speedtest sample_numbers dead_env standard []
      ≡ (raised (speedtest_error e), attempt standard ∷ tried standard 1 []))
run_speedtest-exhausted_example =
    run_speedtest-exhausted sample_numbers dead_env standard [] (λ i l. refl)

abbrev sample_tools : Tools
sample_tools = record {
  env = sample_env;
  files = sample_files;
  numbers = sample_numbers;
  codec = record { dumps = key_of; loads = value_of; repr = λ s. s };
  answer = λ h text. none;
  local_time = λ ms. "noon";
}

abbrev terminal_with : Option ℕ → Terminal
terminal_with l = record { history = []; disk = record { root = false; files = []; lock = l } }

test_all_complete_example :
    (r : Outcome (Unit {0})) × (t' : Terminal) × (test_all sample_tools
        (field "yauk" (obj end) end)
        ("yauk" ∷ [])
        "noon"
        ("yauk" ∷ [])
        (terminal_with none)
      ≡ (r, t'))
    × Finished sample_tools ("yauk" ∷ []) r t'.disk
unfolding lookup
test_all_complete_example =
    test_all_complete sample_tools (λ d n. refl) (λ d n. refl) (λ j. refl)
      (field "yauk" (obj end) end) ("yauk" ∷ []) "noon" (terminal_with none) ((end, refl), tt)

resolve_targets-unique_example :
    let (r, s') =
      resolve_targets {S = Unit {0}} ("yauk, tor,yauk" ∷ "oslo" ∷ []) ("yauk" ∷ "tor" ∷ []) tt in
    Resolved ("yauk" ∷ "tor" ∷ []) ("yauk" ∷ "tor" ∷ "oslo" ∷ []) r × (s' ≡ tt)
unfolding words_of unique
resolve_targets-unique_example =
    resolve_targets-unique ("yauk, tor,yauk" ∷ "oslo" ∷ []) ("yauk" ∷ "tor" ∷ []) tt

-- A request is known by its method, an answer by its result.
abbrev sample_request : Json
sample_request = request "bypass.list" []

abbrev dumped : Json → String
dumped (obj (field k v (field l w end))) = "answer"
dumped (obj (field k v (field l w (field m x end)))) = "answer"
dumped other = "request"

abbrev sample_answer : Json
sample_answer = obj (
    field "jsonrpc" (str "2.0")
      (field "result" (arr (cons (str "ya.ru") nil)) (field "id" (num 1) end)))

abbrev loaded : String → Option Json
loaded s = if str_eq s "request" then some sample_request else some sample_answer

abbrev sample_codec : Codec
sample_codec = record { dumps = dumped; loads = loaded; repr = λ s. s }

call-dispatch_example :
    call sample_codec
      (λ raw.
        handle_rpc sample_env sample_provider sample_config (λ a b. false) sample_codec raw
        >>= λ answer. pure answer)
      "bypass.list"
      []
      (daemon_in none 0)
    ≡ (ok (arr (cons (str "ya.ru") nil)), daemon_in none 0)
unfolding dispatch fields_of texts bypass_list
call-dispatch_example =
    call-dispatch sample_env sample_provider sample_config (λ a b. false) sample_codec (λ s. s)
      "bypass.list" [] (daemon_in none 0) (daemon_in none 0) (ok (arr (cons (str "ya.ru") nil)))
      refl refl refl

abbrev berlin : Entry
berlin = entry (λ s. s) "🇩🇪 Берлин - Германия" end

name_of-one_word_example :
    (all_plain berlin.base ≡ true)
    × (is_empty berlin.base ≡ false)
    × (one_word (name_of (berlin ∷ berlin ∷ []) berlin) ≡ true)
    × (is_empty (name_of (berlin ∷ berlin ∷ []) berlin) ≡ false)
name_of-one_word_example =
    name_of-one_word (λ s. s) "🇩🇪 Берлин - Германия" end (berlin ∷ berlin ∷ [])

abbrev tor_first : String → String → Bool
tor_first a b = str_eq a "tor" && str_eq b "yauk"

tor_first-asymmetric : (a b : String) → tor_first a b ≡ true → tor_first b a ≡ false
tor_first-asymmetric a b h = elim (Bool-cases (str_eq b "tor")) [
  | inr c ↦ rw c refl
  | inl c ↦
      let same : b ≡ "tor" = (eq_iff b "tor").0 c in
      let differs : str_eq b "yauk" ≡ false = rw same refl in
      absurd (excluded (str_eq a "tor") (str_eq b "yauk") h differs)
]
  where
    excluded : (x y : Bool) → (x && y) ≡ true → y ≡ false → ⊥
    excluded true true h e = cc
    excluded true false h e = cc
    excluded false y h e = cc

abbrev outbound_named : String → Json
outbound_named tag = obj (field "type" (str "vless") (field "tag" (str tag) end))

abbrev two_outbounds : Items
two_outbounds = cons (outbound_named "yauk") (cons (outbound_named "tor") nil)

abbrev two_entries : List Entry
two_entries = entry (λ s. s) "yauk" end ∷ entry (λ s. s) "tor" end ∷ []

build_catalog-IsOrdered_example :
    (catalog : List ServerInfo) × (build_catalog tor_first
        (λ s. s)
        (obj (field "outbounds" (arr two_outbounds) end))
        tt
      ≡ (ok catalog, tt))
    × IsOrdered tor_first catalog
    × (named "tor" catalog ≡ named "tor" (map (server_of two_entries) two_entries))
unfolding entries lookup elements
build_catalog-IsOrdered_example =
    build_catalog-IsOrdered tor_first tor_first-asymmetric (λ s. s)
      (field "outbounds" (arr two_outbounds) end) two_outbounds two_entries "tor" tt refl refl

abbrev dns_items : Items
dns_items =
    cons (obj (field "type" (str "predefined") end))
      (cons (obj (field "type" (str "batch") end)) (cons (obj (field "type" (str "udp") end)) nil))

dns_servers-supported_example :
    (kept : Items) × (dns_servers {S = ℕ} dns_items 0 ≡ (ok kept, 0)) × (all_supported kept ≡ true)
unfolding all_dicts
dns_servers-supported_example = dns_servers-supported dns_items 0 refl

abbrev marked_env : Env
marked_env = record sample_env { exists = λ h path. str_eq path (marker "/opt/vpn") }

find_project_root-Nearest_example :
    (find_project_root marked_env ("/opt/vpn/src" ∷ "/opt/vpn" ∷ "/opt" ∷ []) []
      ≡ (ok "/opt/vpn", []))
    × Nearest marked_env [] ("/opt/vpn/src" ∷ "/opt/vpn" ∷ "/opt" ∷ []) (some "/opt/vpn")
unfolding marked
find_project_root-Nearest_example =
    find_project_root-Nearest marked_env [] ("/opt/vpn/src" ∷ "/opt/vpn" ∷ "/opt" ∷ []) "/opt/vpn"
      refl refl
