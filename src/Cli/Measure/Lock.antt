-- ===== src/Cli/Measure/Lock.antt =====
-- The lock over a whole command `vpn server speedtest`.
use virtual_private_network.Prelude.{
  ℕ, String, ◌≡◌, refl, ap, Bool, true, false, Option, none, some, List, ◌⊎◌,
}
use virtual_private_network.Ports.Effect.{Outcome, ok, raised, os_error}
use virtual_private_network.Speedtest.Lock.Alone.{is_free, after_acquire, acquire_lem}
use virtual_private_network.Ports.Json.{Json}
use virtual_private_network.Speedtest.Lock
use virtual_private_network.Speedtest.Store
use virtual_private_network.Speedtest.Store.{Disk, Files, ensure, lock_file}
use virtual_private_network.Cli.Measure.{Terminal, Tools, claimed, run_speedtests}

module _ (tools : Tools) where
  -- The lock is gone, or an OSError says that it could not be removed.
  abbrev Released : {A : Type 0} → Outcome A × Terminal → Type 0
  Released (r, t) =
      (t.disk.lock ≡ none)
      ⊎ ((reason : String) × (r ≡ raised (os_error reason))
          × (tools.files.writable t.disk lock_file ≡ false))

  claims :
      (ms : ℕ) (d : Disk)
      → tools.files.writable d "" ≡ true
      → Store.acquire tools.files ms d ≡ (
        ok (is_free ms d.lock),
        record d { root = true; lock = after_acquire ms d.lock (is_free ms d.lock) },
      )
  unfolding Store.acquire ensure
  claims ms d w =
      rw w (ap (λ x. (ok x.0, record d { root = true; lock = x.1 })) (acquire_lem ms ms d.lock).0)

  run_from :
      (targets : Option (List String)) (t : Terminal) (b : Bool)
      → tools.files.writable t.disk "" ≡ true
      → is_free (tools.env.time t.history) t.disk.lock ≡ b
      → run_speedtests tools targets t
        ≡ claimed tools targets b (record t {
          disk = record t.disk {
            root = true;
            lock = after_acquire (tools.env.time t.history) t.disk.lock b;
          };
        })
  unfolding run_speedtests
  run_from targets t b w free = rw (claims (tools.env.time t.history) t.disk w) (rw free refl)

  locked_at : Terminal → Terminal
  locked_at t = record t {
    disk = record t.disk { root = true; lock = some (tools.env.time t.history) };
  }

  -- A command that finds the lock taken does nothing but make the directory, and its exit code is 1.
  pub run_speedtests-refused :
      (targets : Option (List String)) (t : Terminal)
      → tools.files.writable t.disk "" ≡ true
      → is_free (tools.env.time t.history) t.disk.lock ≡ false
      → run_speedtests tools targets t ≡ (ok 1, record t { disk = record t.disk { root = true } })
  run_speedtests-refused targets t w busy = run_from targets t false w busy
