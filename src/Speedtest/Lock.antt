-- ===== src/Speedtest/Lock.antt =====
-- src/vpn/core/speedtest/store.py, `acquire`, `release` and `is_running`. The lock is a file; what is
-- kept of it is the time of its last change, in milliseconds. `acquire` is cut into its system calls,
-- since other processes run between them.
pub mod Exclusion
pub mod Race
pub mod Alone
use virtual_private_network.Prelude.{
  ℕ, zero, suc, ◌+◌, ◌-◌, Bool, true, false, ◌&&◌, not, Option, none, some, ltb, if◌then◌else◌,
  ◌==◌, ◌≡◌,
}

-- `STALE_TTL`
abbrev pub stale_ttl : ℕ
stale_ttl = 900000

-- Where a process stands: before each system call of `acquire`, or after its `return`. A process
-- that was killed while it held the lock is `dead`.
pub data Pc : Type 0 where
  idle opening checking removing reopening held refused dead : Pc

-- `os.open(lock, O_CREAT | O_EXCL)`
abbrev open_new : ℕ → Option ℕ → Pc → Pc × Option ℕ
open_new now none otherwise = (held, some now)
open_new now (some m) otherwise = (otherwise, some m)

-- `lock.stat().st_mtime` and the test of the age
abbrev pub check_age : ℕ → Option ℕ → Pc × Option ℕ
check_age now none = (refused, none)
check_age now (some m) = (if ltb (now - m) stale_ttl then refused else removing, some m)

-- `lock.unlink()`
abbrev unlink : Option ℕ → Pc × Option ℕ
unlink none = (refused, none)
unlink (some m) = (reopening, none)

-- The next system call of `acquire`, at a time of the clock.
unfoldable pub advance : ℕ → Pc → Option ℕ → Pc × Option ℕ
advance now opening lock = open_new now lock checking
advance now checking lock = check_age now lock
advance now removing lock = unlink lock
advance now reopening lock = open_new now lock refused
advance now pc lock = (pc, lock)

abbrev again : ℕ → Pc × Option ℕ → Pc × Option ℕ
again now (pc, lock) = advance now pc lock

abbrev pub has_lock : Pc → Bool
has_lock held = true
has_lock _ = false

-- `acquire` with no other process between its calls.
unfoldable pub acquire : ℕ → Option ℕ → Bool × Option ℕ
unfolding advance
acquire now lock =
    let (pc, lock') = again now (again now (again now (again now (opening, lock)))) in
    (has_lock pc, lock')

-- `(self.root / LOCK_FILE).unlink(missing_ok=True)`
abbrev pub release : Option ℕ → Option ℕ
release lock = none

-- The end of `write_status`: a lock that is there is touched.
abbrev pub touch : ℕ → Option ℕ → Option ℕ
touch now none = none
touch now (some m) = some now

-- `is_running`, from the "running" entry of the status.
unfoldable pub is_running : ℕ → Option ℕ → Bool → Bool
is_running now none running = false
is_running now (some m) running = not (ltb stale_ttl (now - m)) && running

-- Many processes on one lock file.
pub record System : Type 0 where
  pub now : ℕ
  pub lock : Option ℕ
  pub pc : ℕ → Pc

abbrev pub update : ℕ → Pc → (ℕ → Pc) → ℕ → Pc
update i p f j = if i == j then p else f j

abbrev pub placed : ℕ → System → Pc × Option ℕ → System
placed i s (p, lock) = record s { pc = update i p s.pc; lock = lock }

-- What can happen: a process begins to ask for the lock, goes on by one call, touches or releases the
-- lock that it holds, or is killed; time passes.
pub data Step (s : System) : System → Type 0 where
  begins : (i : ℕ) → s.pc i ≡ idle → Step s (record s { pc = update i opening s.pc })
  advances : (i : ℕ) → Step s (placed i s (advance s.now (s.pc i) s.lock))
  touches : (i : ℕ) → s.pc i ≡ held → Step s (record s { lock = touch s.now s.lock })
  releases :
      (i : ℕ) → s.pc i ≡ held → Step s (record s { pc = update i idle s.pc; lock = release s.lock })
  dies : (i : ℕ) → s.pc i ≡ held → Step s (record s { pc = update i dead s.pc })
  passes : (ms : ℕ) → Step s (record s { now = s.now + ms })

pub data Reach (s : System) : System → Type 0 where
  here : Reach s s
  next : {t u : System} → Reach s t → Step t u → Reach s u

-- No lock file, and nobody has asked for it.
abbrev pub initial : ℕ → System
initial time = record { now = time; lock = none; pc = λ i. idle }
