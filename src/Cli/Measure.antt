-- ===== src/Cli/Measure.antt =====
-- src/vpn/cli/main.py, `vpn server speedtest`: the servers are tested one after the other, each over
-- its own tunnel, and the results are stored.
pub mod Targets
pub mod Lock
pub mod Harmless
pub mod Reported
pub mod Complete
use virtual_private_network.Prelude.{
  ℕ, zero, suc, ◌*◌, ◌==◌, String, ◌<>◌, Bool, true, false, not, ◌&&◌, Option, none, some, List, [],
  ◌∷◌, ◌++◌, map, contains, strip, str_eq, starts_with, if◌then◌else◌,
}
use virtual_private_network.Ports.Command.{host, tunnel_probe}
use virtual_private_network.Ports.Effect.{
  M, Outcome, ok, raised, connection_error, speedtest_error, attribute_error, type_error, key_error,
  pure, raise, try_except, ◌>>=◌, ◌>>◌,
}
use virtual_private_network.Ports.Env.{Env, History, Completed, run, sleep_ms, ask_daemon}
use virtual_private_network.Ports.Json.{
  Json, Fields, Items, null, bool, str, arr, obj, nil, cons, end, field, get, lookup, truthy,
  elements,
}
use virtual_private_network.Machine.Servers.{sorted}
use virtual_private_network.Machine.Replies.{texts}
use virtual_private_network.Speedtest.Runner.{
  Numbers, standard, get_or_none, or_else, run_speedtest, comma_separated,
}
use virtual_private_network.Speedtest.Store
use virtual_private_network.Speedtest.Store.{Disk, Files}
use virtual_private_network.Subscription.{merge_fields, put}
use virtual_private_network.Cli.Ipc.{Codec, message_of, call}
use virtual_private_network.Cli.Measure.Targets.{resolve_targets}

-- A process of the command line: what it has done, and the directory of the store. Another process
-- that changes the directory meanwhile is not in this model.
pub record Terminal : Type 0 where
  pub history : History
  pub disk : Disk

-- What the commands use: the answers of the daemon, none where it cannot be reached, and the local
-- time in words.
pub record Tools : Type 0 where
  pub env : Env
  pub files : Files
  pub numbers : Numbers
  pub codec : Codec
  pub answer : History → String → Option String
  pub local_time : ℕ → String

module _ {A : Type 0} where
  abbrev pub outside : M History A → M Terminal A
  outside m t = let (r, h) = m t.history in (r, record t { history = h })

  abbrev pub stored : M Disk A → M Terminal A
  stored m t = let (r, d) = m t.disk in (r, record t { disk = d })

  abbrev pub after : {B : Type 0} → Outcome A → Outcome B → Outcome A
  after r (ok _) = r
  after r (raised e) = raised e

  -- `try: m  finally: last`
  abbrev pub finally : M Terminal A → M Terminal (Unit {0}) → M Terminal A
  finally m last t = let (r, t') = m t in let (r', t'') = last t' in (after r r', t'')

module _ (tools : Tools) where
  abbrev pub received : String → Option String → M Terminal String
  received text none = λ t. (
    raised (connection_error "connection refused"),
    record t { history = ask_daemon text ∷ t.history },
  )
  received text (some a) = λ t. (ok a, record t { history = ask_daemon text ∷ t.history })

  -- `ipc_call`
  abbrev pub ipc_call : String → List (String × String) → M Terminal Json
  ipc_call = call tools.codec (λ text t. received text (tools.answer t.history text) t)

  -- `time.time()` in milliseconds
  abbrev pub clock : M Terminal ℕ
  clock t = (ok (tools.env.time t.history), t)

  abbrev pub now : M Terminal String
  now = clock >>= λ ms. pure (tools.local_time ms)

  abbrev pub begins_well : Option String → M History Bool
  begins_well none = raise (attribute_error "no attribute 'strip'")
  begins_well (some out) = pure (starts_with (strip out) "200")

  abbrev pub ready : Option Completed → M History Bool
  ready none = pure false
  ready (some res) = if res.returncode == 0 then begins_well res.stdout else pure false

  unfoldable pub tunnel_ready : M History Bool
  tunnel_ready = run tools.env (host tunnel_probe) >>= ready

  abbrev pub wait_more : Bool → M History (Unit {0}) → M History (Unit {0})
  wait_more true again = pure tt
  wait_more false again = do sleep_ms 1000; again

  -- The loop of `_switch_and_wait`, with the attempts that are left.
  unfoldable pub wait_ready : String → ℕ → M History (Unit {0})
  unfolding tunnel_ready
  wait_ready name zero = raise (speedtest_error ("tunnel not ready after switching to " <> name))
  wait_ready name (suc left) = tunnel_ready >>= λ up. wait_more up (wait_ready name left)

  unfoldable pub switch_and_wait : String → M Terminal (Unit {0})
  unfolding wait_ready call
  switch_and_wait name = do
    result ← ipc_call "server.change" (("name", name) ∷ [])
    outside (wait_ready name 25)

  abbrev named : Option Json → M Terminal String
  named (some (str s)) = pure s
  named none = raise (key_error "name")
  named (some _) = raise (type_error "the name is no text")

  abbrev name_of : Json → M Terminal String
  name_of (obj fs) = named (lookup "name" fs)
  name_of _ = raise (type_error "the server is no dict")

  -- `{s["name"]: s for s in servers}`
  unfoldable pub index : List Json → Fields → M Terminal Fields
  unfolding lookup put
  index [] by_name = pure by_name
  index (s ∷ servers) by_name = do name ← name_of s; index servers (put name s by_name)

  abbrev listed : Json → M Terminal (List Json)
  listed (arr items) = pure (elements items)
  listed _ = raise (type_error "no list of servers")

  unfoldable pub keys : Fields → List String
  keys end = []
  keys (field k v fs) = k ∷ keys fs

  abbrev unless_given : List String → List String → M Terminal (Option (List String))
  unless_given known given =
      try_except (resolve_targets given known >>= λ names. pure (some names)) (λ e. pure none)

  -- The names to test: all of them, or those given, or none where a name is not known.
  abbrev pub chosen : Option (List String) → Fields → M Terminal (Option (List String))
  chosen none by_name = pure (some (sorted tools.files.before (keys by_name)))
  chosen (some targets) by_name = unless_given (keys by_name) targets

  abbrev text_in : Json → Option String
  text_in (str s) = some s
  text_in _ = none

  -- `(ipc_call("server.current") or {}).get("server")`, or `None` where that raises.
  abbrev current_server : M Terminal (Option String)
  current_server =
      try_except
        (do
          reply ← ipc_call "server.current" []
          server ← get_or_none "server" (or_else reply (obj end))
          pure (text_in server))
        (λ e. pure none)

  -- `.get("country", "-")`
  abbrev pub or_dash : Option Json → Json
  or_dash none = str "-"
  or_dash (some v) = v

  abbrev pub country_of : Option Json → M Terminal Json
  country_of (some (obj fs)) = pure (or_dash (lookup "country" fs))
  country_of (some _) = raise (attribute_error "no attribute 'get'")
  country_of none = raise (key_error "name")

  abbrev pub running_status : String → List String → String → Json
  running_status name names started = obj (
      field "running" (bool true) (
        field "current" (str name)
          (field "targets" (arr (texts names)) (field "started_at" (str started) end))))

  abbrev pub fields_in : Json → Fields
  fields_in (obj fs) = fs
  fields_in _ = end

  -- The entry of a server: what the test gave, or the error, over what the entry had before.
  abbrev pub measured : String → Fields → M Terminal Fields
  measured name entry =
      try_except
        (do
          switch_and_wait name
          result ← outside (run_speedtest tools.numbers tools.env standard)
          pure (merge_fields entry (fields_in result)))
        (λ e. pure (put "error" (str (message_of tools.codec e)) entry))

  -- `entry.get("error")` where it is true in Python's sense.
  abbrev pub has_error : Option Json → Bool
  has_error none = false
  has_error (some v) = truthy v

  abbrev pub present : String → Option Json → M Terminal (Unit {0})
  present k none = raise (key_error k)
  present k (some v) = pure tt

  -- The values that the line about a result shows, `entry[k]` for each of them.
  unfoldable pub shown : List String → Fields → M Terminal (Unit {0})
  unfolding lookup
  shown [] entry = pure tt
  shown (k ∷ ks) entry = present k (lookup k entry) >> shown ks entry

  abbrev pub shown_keys : List String
  shown_keys = "download_mbps" ∷ "upload_mbps" ∷ "ping_ms" ∷ "jitter_ms" ∷ "external_ip" ∷ []

  abbrev pub report : Fields → M Terminal (Unit {0})
  report entry = if has_error (lookup "error" entry) then pure tt else shown shown_keys entry

  unfoldable pub test_server : Fields → List String → String → String → M Terminal (Unit {0})
  unfolding lookup put merge_fields switch_and_wait run_speedtest texts Store.write_status
      Store.write_result shown truthy
  test_server by_name names started name = do
    country ← country_of (lookup name by_name)
    ms ← clock
    stored (Store.write_status tools.files ms (running_status name names started))
    begun ← now
    entry ← measured name (field "country" country (field "tested_at" (str begun) end))
    ended ← now
    stored (Store.write_result tools.files name (obj (put "tested_at" (str ended) entry)))
    report (put "tested_at" (str ended) entry)

  unfoldable pub test_all : Fields → List String → String → List String → M Terminal (Unit {0})
  unfolding test_server
  test_all by_name names started [] = pure tt
  test_all by_name names started (n ∷ ns) = do
    test_server by_name names started n
    test_all by_name names started ns

  abbrev restored : List String → List String → Option String → M Terminal (Unit {0})
  restored known names none = pure tt
  restored known names (some original) =
      if contains original known && not (contains original names)
      then try_except (switch_and_wait original) (λ e. pure tt)
      else pure tt

  -- The body of the `try`, with the exit code of an early return.
  abbrev tested : Fields → Option (List String) → M Terminal (Option ℕ)
  tested by_name none = pure (some 1)
  tested by_name (some []) = pure (some 1)
  tested by_name (some (n ∷ ns)) = do
    original ← current_server
    started ← now
    test_all by_name (n ∷ ns) started (n ∷ ns)
    restored (keys by_name) (n ∷ ns) original
    pure none

  unfoldable pub measure : Option (List String) → M Terminal (Option ℕ)
  unfolding index keys test_all switch_and_wait call elements sorted resolve_targets
  measure targets = do
    reply ← ipc_call "server.list" []
    servers ← listed reply
    by_name ← index servers end
    names ← chosen targets by_name
    tested by_name names

  abbrev pub over_status : String → Json
  over_status finished =
      obj (
        field "running" (bool false)
          (field "current" null (field "finished_at" (str finished) end)))

  -- The `finally` part.
  unfoldable pub close : M Terminal (Unit {0})
  unfolding Store.write_status Store.release
  close = do
    try_except
        (do
          finished ← now
          ms ← clock
          stored (Store.write_status tools.files ms (over_status finished)))
        (λ e. pure tt)
    stored (Store.release tools.files)

  abbrev pub exit_code : Option ℕ → M Terminal ℕ
  exit_code (some code) = pure code
  exit_code none = pure 0

  abbrev pub claimed : Option (List String) → Bool → M Terminal ℕ
  claimed targets false = pure 1
  claimed targets true = finally (measure targets) close >>= exit_code

  -- `_run_speedtest`: the exit code. The table that is printed at the end is `render_table` of the
  -- results.
  unfoldable pub run_speedtests : Option (List String) → M Terminal ℕ
  unfolding measure close Store.acquire
  run_speedtests targets = do
    ms ← clock
    done ← stored (Store.acquire tools.files ms)
    claimed targets done
