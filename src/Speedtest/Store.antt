-- ===== src/Speedtest/Store.antt =====
-- src/vpn/core/speedtest/store.py, the files of the results and of the run status.
pub mod Board
pub mod Refines
use virtual_private_network.Prelude.{
  ℕ, String, ◌<>◌, Bool, true, false, Option, none, some, List, [], ◌∷◌, str_eq, if◌then◌else◌, map,
}
use virtual_private_network.Ports.Effect.{
  M, ok, raised, os_error, pure, gets, modify, ◌>>=◌, ◌>>◌, Outcome,
}
use virtual_private_network.Ports.Json.{Json, Fields, obj, end, lookup, truthy}
use virtual_private_network.Machine.Servers.{sorted}
use virtual_private_network.Speedtest.Lock
use virtual_private_network.Speedtest.Lock.{touch}

-- The directory of the store. `files` has the text of each "<stem>.json" by its stem, and the status
-- file is the one with the stem "status"; the lock is the time of its last change. Other files are
-- never made. A name stands for a file of its own: names that are empty or contain a slash, which
-- a path reads otherwise, are not modelled.
pub record Disk : Type 0 where
  pub root : Bool
  pub files : List (String × String)
  pub lock : Option ℕ

-- What of the system and of `json` the store uses: whether a file can be written (or the lock be
-- removed) or read, which holds of the directory as well (""), and the translation of values into texts and back.
pub record Files : Type 0 where
  pub writable : Disk → String → Bool
  pub readable : Disk → String → Bool
  pub dumps : Json → String
  pub loads : String → Option Json
  pub before : String → String → Bool

-- `STATUS_FILE`
abbrev pub status_file : String
status_file = "status"

abbrev pub text_of : String → List (String × String) → Option String
text_of name [] = none
text_of name ((n, text) ∷ fs) = if str_eq n name then some text else text_of name fs

unfoldable pub put_text : String → String → List (String × String) → List (String × String)
put_text name text [] = (name, text) ∷ []
put_text name text ((n, t) ∷ fs) =
    let rest = put_text name text fs in if str_eq n name then (name, text) ∷ fs else (n, t) ∷ rest

-- `shutil.rmtree(self.root, ignore_errors=True)`, the lock included. Nothing is said of a part that
-- cannot be removed.
unfoldable pub clear : M Disk (Unit {0})
clear d = (ok tt, record { root = false; files = []; lock = none })

-- `LOCK_FILE`
abbrev pub lock_file : String
lock_file = ".lock"

module _ (fs : Files) where
  -- A lock that is missing is no error; one that cannot be removed stays, and the error is raised.
  abbrev pub remove_lock : Option ℕ → M Disk (Unit {0})
  remove_lock none d = (ok tt, d)
  remove_lock (some since) d =
      if fs.writable d lock_file
      then (ok tt, record d { lock = Lock.release d.lock })
      else (raised (os_error "cannot remove the lock"), d)

  unfoldable pub release : M Disk (Unit {0})
  release d = remove_lock d.lock d

  unfoldable pub ensure : M Disk (Unit {0})
  ensure d =
      if fs.writable d ""
      then (ok tt, record d { root = true })
      else (raised (os_error "cannot make the directory"), d)

  -- `path.write_text(text)`
  unfoldable pub write_file : String → String → M Disk (Unit {0})
  unfolding put_text
  write_file name text d =
      if fs.writable d name
      then (ok tt, record d { files = put_text name text d.files })
      else (raised (os_error "cannot write"), d)

  unfoldable pub write_result : String → Json → M Disk (Unit {0})
  unfolding ensure write_file
  write_result name payload = do ensure; write_file name (fs.dumps payload)

  abbrev pub parsed : Bool → Option String → Option Json
  parsed true (some text) = fs.loads text
  parsed _ _ = none

  unfoldable pub read_result : String → Disk → Option Json
  read_result name d = parsed (fs.readable d name) (text_of name d.files)

  -- A file that cannot be read or parsed is left out.
  abbrev pub entry : String → Option Json → List (String × Json) → List (String × Json)
  entry name none rest = rest
  entry name (some j) rest = (name, j) ∷ rest

  unfoldable pub results_from : Disk → List String → List (String × Json)
  unfolding read_result
  results_from d [] = []
  results_from d (name ∷ names) =
      let rest = results_from d names in
      if str_eq name status_file then rest else entry name (read_result name d) rest

  -- `sorted(self.root.glob("*.json"))` orders the names of the files, the ending included.
  unfoldable pub all_results : Disk → List (String × Json)
  unfolding results_from sorted
  all_results d =
      if d.root
      then results_from d
          (sorted (λ a b. fs.before (a <> ".json") (b <> ".json")) (map (λ f. f.0) d.files))
      else []

  unfoldable pub write_status : ℕ → Json → M Disk (Unit {0})
  unfolding ensure write_file
  write_status now status = do
    ensure
    write_file status_file (fs.dumps status)
    modify (λ d. record d { lock = touch now d.lock })

  abbrev dict_or_empty : Option Json → Fields
  dict_or_empty (some (obj fields)) = fields
  dict_or_empty _ = end

  unfoldable pub read_status : Disk → Fields
  unfolding read_result
  read_status d = dict_or_empty (read_result status_file d)

  abbrev flag : Option Json → Bool
  flag none = false
  flag (some v) = truthy v

  unfoldable pub is_running : ℕ → Disk → Bool
  unfolding read_status lookup truthy
  is_running now d = Lock.is_running now d.lock (flag (lookup "running" (read_status d)))

  unfoldable pub acquire : ℕ → M Disk Bool
  unfolding ensure Lock.acquire
  acquire now = do
    ensure
    λ d. let (done, lock') = Lock.acquire now d.lock in (ok done, record d { lock = lock' })
