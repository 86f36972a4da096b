-- ===== src/Ports/Env.antt =====
-- The history of what was done through the ports, and the answers of the world behind them.
use virtual_private_network.Prelude.{ℕ, String, Bool, Option, none, some, List, ◌∷◌, if◌then◌else◌}
use Prim.Native.Char.{Char}
use virtual_private_network.Ports.Command.{Command}
use virtual_private_network.Ports.Effect.{Outcome, ok, raised, M, os_error}
use virtual_private_network.Ports.Json.{Json}

-- What has an effect outside the process, one constructor for each port call.
pub data Act : Type 0 where
  shell : Command → Act
  popen : List String → Act
  kill : ℕ → Act
  terminate : ℕ → Act
  wait : ℕ → Act
  sleep : ℕ → Act
  makedirs : String → Act
  copy : String → String → Act
  write_text : String → String → Act
  write_temp : List String → Act
  remove_file : String → Act
  notify : String → Act
  request_url : String → Act
  ask_daemon : String → Act

-- Newest first.
abbrev pub History : Type 0
History = List Act

-- `CompletedProcess`, with `stdout` as `None` where the output was not captured.
pub record Completed : Type 0 where
  pub returncode : ℕ
  pub stdout : Option String
  pub stderr : Option String

pub record ServerInfo : Type 0 where
  pub name : String
  pub tag : String
  pub country : String
  pub host : String
  pub port : ℕ

-- Times are milliseconds. `none` stands for an exception, or for `None` in `shell` and `poll`.
pub record Env : Type 0 where
  pub run : History → Command → Option Completed
  pub spawn : History → List String → Option ℕ
  pub poll : History → ℕ → Option ℕ
  pub ends_within : History → ℕ → ℕ → Bool
  pub exists : History → String → Bool
  pub read_text : History → String → Option String
  pub succeeds : History → Act → Bool
  pub temp_path : History → String
  pub monotonic : History → ℕ
  pub time : History → ℕ
  pub dirname : String → String
  pub getaddrinfo : History → String → Option (List String)
  pub dns_reachable : History → Bool
  pub inet_aton : String → Bool
  -- `\d` of a regular expression: the Unicode decimal digits
  pub is_decimal : Char → Bool
  -- the order in which Python walks through a set with these elements
  pub set_order : List String → List String
  pub loads : String → Option Json
  pub dumps : Json → String
  pub safe_load : String → Option Json
  pub random_sample : History → List String → ℕ → List String
  pub random_choice : History → List String → String
  pub random_between : History → ℕ → ℕ → ℕ
  pub fetch : History → String → Option String
  pub lower : String → String
  pub glob : History → String → List String
  pub abspath : String → String
  pub getenv : String → Option String

-- A command whose result the caller drops.
unfoldable pub exec : Command → M History (Unit {0})
exec c h = (ok tt, shell c ∷ h)

-- `time.sleep`
unfoldable pub sleep_ms : ℕ → M History (Unit {0})
sleep_ms n h = (ok tt, sleep n ∷ h)

-- `handle.kill()`, `handle.terminate()` and `handle.wait(None)`
unfoldable pub signal : Act → M History (Unit {0})
signal a h = (ok tt, a ∷ h)

module _ (env : Env) where
  -- `self._shell.run(cmd, capture=True)`
  unfoldable pub run : Command → M History (Option Completed)
  run c h = (ok (env.run h c), shell c ∷ h)

  -- `self._subprocess.popen(args)`: the process id that stands for the handle.
  unfoldable pub spawn : List String → M History ℕ
  spawn args h = elim (env.spawn h args) [
    | none ↦ (raised (os_error "cannot start the program"), popen args ∷ h)
    | some pid ↦ (ok pid, popen args ∷ h)
  ]

  -- `handle.wait(seconds)`, which raises when the time is over.
  unfoldable pub wait_for : ℕ → ℕ → M History (Unit {0})
  wait_for pid seconds h =
      if env.ends_within h pid seconds
      then (ok tt, wait pid ∷ h)
      else (raised (os_error "timeout expired"), wait pid ∷ h)

  -- A call of the file port, which may fail.
  unfoldable pub file : Act → M History (Unit {0})
  file a h =
      if env.succeeds h a
      then (ok tt, a ∷ h)
      else (raised (os_error "file operation failed"), a ∷ h)

  unfoldable pub read : String → M History String
  read path h = elim (env.read_text h path) [
    | none ↦ (raised (os_error "cannot read"), h)
    | some s ↦ (ok s, h)
  ]

-- core/ports.py, `VpnProviderPort`: a provider may keep its profile, which is the state here. What
-- it reads, it reads from the disk as the history left it.
pub record Provider : Type 0 where
  pub list_servers : History → M (Option Json) (List ServerInfo)
  pub get_server : History → String → M (Option Json) ServerInfo
  pub build_config : History → String → M (Option Json) String
  pub sanitize_config : History → Json → Outcome Json
  pub reload : Option Json → Option Json
