-- ===== src/Lib.antt =====
-- A VPN daemon (src/vpn) that routes a host's traffic through sing-box and tun2socks, modelled with
-- its state machine, its bootstrap, its teardown and the components that configure the network.
--
-- The parts and where they are modelled (paths of the code from the root of the repository):
--
--   Ports          src/vpn/core/ports.py. What the daemon does to the outside is a list of acts, the
--                  History, newest first; Ports/Command has a constructor for each shell command of
--                  the source, with its exact text. What the outside answers is a record Env of
--                  functions of the whole history, so nothing is assumed of it: a command may fail,
--                  a file vanish, the clock stand still. Ports/Effect is the monad of a method that
--                  changes a state and returns or raises; SystemExit is no Exception there.
--   Routing        src/vpn/core/routing: Rules (rule_manager.py), Table (route_table.py), Tun
--                  (tun_interface.py), Bypass (bypass_loader.py, `load_all` and its helpers).
--   Firewall       src/vpn/core/firewall: Nat, Mss and Sysctl, each with the operations of its class.
--   Topology       src/vpn/core/topology/discovery.py: Discovery (the gateway and the retries),
--                  Patterns (the two regular expressions), Resolver (names and server addresses).
--   Tunnel         src/vpn/core/tunnel: Tun2Socks and Ssh.
--   Notification   src/vpn/core/notification/telegram.py: `send`, with its retries.
--   Deployer, Switcher   src/vpn/core/server_manager.
--   Orchestrator   src/vpn/core/orchestrator.py: Bootstrap, cut where the code gives way to other
--                  tasks (`await asyncio.sleep(0)`) into three phases, and Teardown.
--   World          src/vpn/core/events.py, src/vpn/core/state_machine/context.py and the objects
--                  that src/vpn/__main__.py wires: the state of the whole daemon.
--   Machine        src/vpn/core/state_machine: States (entering, leaving and handling in each state,
--                  `transition_to`), Servers (`_apply_server`, `_reload_config`), Power (`stop`,
--                  `start`), Lists (the bypass and route methods), Rpc (`_dispatch`), Loop (`run`,
--                  the tasks of the event loop, and what can happen next as the relation Step).
--   Subscription   src/vpn/core/subscription.py: the checks, the renaming of the selecting group,
--                  the merge, and Apply (`SubscriptionUpdater`); the dicts of the source are lists of fields in order.
--   Config         src/vpn/config: the configuration classes of config/core, each from its parsed
--                  file, Cache (config_loader.py) and Paths (paths.py).
--   Akonit         src/vpn/adapters/akonit: Tags and Catalog (catalog.py), Provider with
--                  Provider/Sanitize (provider.py). `akonit` fills the record Provider.
--   Speedtest      src/vpn/core/speedtest: Lock (`acquire` and `release` of store.py, cut into their
--                  system calls), Store (the files of store.py), Runner (runner.py), Render
--                  (render.py).
--   Cli            src/vpn/cli: Ipc (ipc.py, and `_handle_rpc` of the state machine), Measure
--                  (`vpn server speedtest` of main.py), Measure/Targets (`_resolve_targets`),
--                  View (`_view_speedtest`), Commands (`route_add`, `route_remove`,
--                  `config_update`).
--   Health         src/vpn/core/health/checker.py: a round of its loop.
--   Updater        src/vpn/core/ru_updater/updater.py: `_fetch`.
--   Tests          A sample world, a small host, and the theorems at concrete inputs.
--
-- How the parts meet: a method of Routing, Firewall, Topology or Tunnel acts on the history alone
-- and is lifted into the daemon; the handlers of the states and the methods of the command line act
-- on the daemon; a Step is one event, one call, one stretch of the bootstrap, the end of a timer or
-- of a process, or a signal, in any order, and Reach any number of them.
--
-- The host itself is no part of the program. Where a theorem speaks of it, it takes a Kernel (rules,
-- routes, tun0, NAT jumps and MSS clamps, and what a command does to them) with the laws IsLinux,
-- which say what the manual pages say of `ip` and `iptables`. The provider of servers is the record
-- Provider, JSON texts, name lookups and the iteration order of sets are functions of Env.
--
-- Bounds and fuel: numbers are unbounded, as in Python. Times are milliseconds. The wait for the
-- SOCKS port runs on 4 * seconds + 1 rounds, which is enough where a pause of 250 ms takes that
-- long on the clock. The retries of the discovery, of the speedtest and of the wait for a tunnel
-- count down. All else is structural. A number of JSON that is no natural number is its text.
--
-- The lock of the speedtest is shared by processes: Speedtest/Lock has a step for each system call,
-- and Exclusion and Race speak of any interleaving. The store and the command are modelled for one
-- process; what it asks the daemon is answered by a function of its history, and Cli/Ipc/Remote puts
-- the two ends together.
--
-- Left out: logging and what the commands print, and the commands that only call the daemon and
-- print. The loop of the health check is never started by the program.
-- The state machine's notification, a call of `run_in_executor`, is one act. The bootstrap's
-- own blocking waits keep other tasks out, as they do on the event loop's one thread.
pub mod Prelude
pub mod Ports
pub mod Routing
pub mod Firewall
pub mod Topology
pub mod Tunnel
pub mod World
pub mod Deployer
pub mod Switcher
pub mod Orchestrator
pub mod Machine
pub mod Subscription
pub mod Notification
pub mod Config
pub mod Health
pub mod Updater
pub mod Akonit
pub mod Speedtest
pub mod Cli
pub mod Tests
