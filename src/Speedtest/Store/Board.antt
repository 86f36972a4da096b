-- ===== src/Speedtest/Store/Board.antt =====
-- The board that the store stands for: a result for some names, and one status. With the lemmas on
-- lists that relate the two.
use virtual_private_network.Prelude.{
  ℕ, String, ◌<>◌, ◌≡◌, refl, ◌∙◌, Bool, true, false, Option, none, some, List, [], ◌∷◌, str_eq,
  eq_iff, if◌then◌else◌, map, contains, arith,
}
use virtual_private_network.Ports.Effect.{M, pure, ◌>>=◌}
use virtual_private_network.Ports.Json.{Json}
use virtual_private_network.Machine.Servers.{sorted, insert_sorted}
use virtual_private_network.Speedtest.Store.{
  Disk, Files, status_file, text_of, put_text, clear, write_result, read_result, entry,
  write_status, acquire, release,
}

-- The operations that change the store.
pub data Op : Type 0 where
  clears releases : Op
  writes : String → Json → Op
  reports : ℕ → Json → Op
  acquires : ℕ → Op

pub record Board : Type 0 where
  pub results : String → Option Json
  pub status : Option Json

abbrev pub blank : Board
blank = record { results = λ n. none; status = none }

abbrev pub posted : String → Json → Board → Board
posted name j b =
    if str_eq name status_file
    then record b { status = some j }
    else record b { results = λ n. if str_eq name n then some j else b.results n }

-- What each operation means: the lock is not on the board, and a result under the name "status" is
-- the status.
abbrev pub on_board : Op → Board → Board
on_board clears b = blank
on_board releases b = b
on_board (acquires now) b = b
on_board (writes name j) b = posted name j b
on_board (reports now j) b = record b { status = some j }

abbrev pub board_after : List Op → Board → Board
board_after [] b = b
board_after (op ∷ ops) b = board_after ops (on_board op b)

abbrev pub find : String → List (String × Json) → Option Json
find name [] = none
find name ((n, j) ∷ rest) = if str_eq n name then some j else find name rest

abbrev pub order : Files → String → String → Bool
order fs a b = fs.before (a <> ".json") (b <> ".json")

abbrev pub found_or : Option Json → Option Json → Option Json
found_or none rest = rest
found_or (some j) rest = some j

module _ (fs : Files) where
  pub find-entry :
      (name n : String) (o : Option Json) (rest : List (String × Json))
      → find name (entry fs n o rest)
        ≡ (if str_eq n name then found_or o (find name rest) else find name rest)
  find-entry name n none rest = ground arith
  find-entry name n (some j) rest = refl

  abbrev pub perform : Op → M Disk (Unit {0})
  perform clears = clear
  perform releases = release fs
  perform (acquires now) = acquire fs now >>= λ done. pure tt
  perform (writes name j) = write_result fs name j
  perform (reports now j) = write_status fs now j

  -- A text that the operation writes is read back as the value.
  abbrev pub ReadBack : Op → Type 0
  ReadBack (writes name j) = fs.loads (fs.dumps j) ≡ some j
  ReadBack (reports now j) = fs.loads (fs.dumps j) ≡ some j
  ReadBack op = Unit

  -- A directory that is not there has no files, and the files are what the board says.
  abbrev pub rooted : Bool → List (String × String) → Bool
  rooted true files = true
  rooted false [] = true
  rooted false (f ∷ files) = false

  pub record Implements (d : Disk) (b : Board) : Type 0 where
    pub has_root : rooted d.root d.files ≡ true
    pub has_results :
        (name : String) → str_eq name status_file ≡ false → read_result fs name d ≡ b.results name
    pub has_status : read_result fs status_file d ≡ b.status

pub text_of-put_text :
    (name other text : String) (files : List (String × String))
    → text_of other (put_text name text files)
      ≡ (if str_eq name other then some text else text_of other files)
unfolding put_text
text_of-put_text name other text [] = refl
text_of-put_text name other text ((n, t) ∷ files) = ground (
  arith,
  text_of-put_text name other text files,
  eq_iff n name,
  eq_iff n other,
  eq_iff name other,
)

contains-insert_sorted :
    (before : String → String → Bool) (x y : String) (ys : List String)
    → contains x (insert_sorted before y ys) ≡ contains x (y ∷ ys)
unfolding insert_sorted
contains-insert_sorted before x y [] = refl
contains-insert_sorted before x y (z ∷ zs) = ground (arith, contains-insert_sorted before x y zs)

pub contains-sorted :
    (before : String → String → Bool) (x : String) (xs : List String)
    → contains x (sorted before xs) ≡ contains x xs
unfolding sorted
contains-sorted before x [] = refl
contains-sorted before x (y ∷ ys) =
    contains-insert_sorted before x y (sorted before ys) ∙ rw (contains-sorted before x ys) refl

pub text_of-missing :
    (x : String) (files : List (String × String))
    → contains x (map (λ f. f.0) files) ≡ false
    → text_of x files ≡ none
text_of-missing x [] h = refl
text_of-missing x ((n, t) ∷ files) h = ground (arith, text_of-missing x files)
