-- ===== src/Speedtest/Store/Refines.antt =====
-- The store implements a board that has a result for some names and one status.
use virtual_private_network.Prelude.{
  ℕ, String, ◌≡◌, refl, sym, ◌∙◌, ap, Bool, true, false, ◌||◌, Option, none, some, List, [], ◌∷◌,
  str_eq, eq_iff, if◌then◌else◌, Bool-cases, ◌⊎◌, inl, inr, map, contains, All, arith,
}
use virtual_private_network.Ports.Effect.{ok, for_each}
use virtual_private_network.Ports.Json.{Json}
use virtual_private_network.Machine.Servers.{sorted}
use virtual_private_network.Speedtest.Lock.{touch}
use virtual_private_network.Speedtest.Store.{
  Disk, Files, status_file, text_of, put_text, clear, ensure, write_file, write_result, read_result,
  results_from, all_results, parsed, write_status, read_status, dict_or_empty, acquire, release,
  remove_lock, lock_file,
}
use virtual_private_network.Speedtest.Store.Board.{
  Op, clears, releases, writes, reports, acquires, Board, blank, posted, on_board, board_after,
  find, order, found_or, find-entry, perform, ReadBack, rooted, Implements, text_of-put_text,
  contains-sorted, text_of-missing,
}

-- Of a system without failures.
module _ (fs : Files) (can_write : (d : Disk) (n : String) → fs.writable d n ≡ true)
    (can_read : (d : Disk) (n : String) → fs.readable d n ≡ true) where
  read_as :
      (d : Disk) (name : String) (found : Option String)
      → text_of name d.files ≡ found
      → read_result fs name d ≡ parsed fs true found
  unfolding read_result
  read_as d name found e = rw (can_read d name, e) refl

  read_result-put :
      (d : Disk) (name other : String) (j : Json) (root' : Bool) (lock' : Option ℕ)
      → fs.loads (fs.dumps j) ≡ some j
      → read_result fs other
          (record { root = root'; files = put_text name (fs.dumps j) d.files; lock = lock' })
        ≡ (if str_eq name other then some j else read_result fs other d)
  unfolding read_result
  read_result-put d name other j root' lock' law =
      rw (can_read d other, can_read _ other, text_of-put_text name other (fs.dumps j) d.files)
        (elim (Bool-cases (str_eq name other)) [ inl c ↦ rw c law | inr c ↦ rw c refl ])

  same_files :
      (d e : Disk) (name : String)
      → e.files ≡ d.files
      → read_result fs name e ≡ read_result fs name d
  unfolding read_result
  same_files d e name h = rw (can_read d name, can_read e name, h) refl

  wiped :
      (name : String)
      → read_result fs name (record { root = false; files = []; lock = none }) ≡ none
  unfolding read_result
  wiped name = rw (can_read _ name) refl

  written :
      (name : String) (j : Json) (lock' : Option ℕ) (d : Disk) (b : Board)
      → fs.loads (fs.dumps j) ≡ some j
      → Implements fs d b
      → Implements fs
          (record { root = true; files = put_text name (fs.dumps j) d.files; lock = lock' })
          (posted name j b)
  written name j lock' d b law h = elim (Bool-cases (str_eq name status_file)) [
    | inl c ↦ rw c (record {
      has_root = refl;
      has_results = λ n e.
          read_result-put d name n j true lock' law
          ∙ rw (other_name name n c e) (h.has_results n e);
      has_status = read_result-put d name status_file j true lock' law ∙ rw c refl;
    })
    | inr c ↦ rw c (record {
      has_root = refl;
      has_results = λ n e. read_result-put d name n j true lock' law ∙ rw (h.has_results n e) refl;
      has_status = read_result-put d name status_file j true lock' law ∙ rw c h.has_status;
    })
  ]
    where
      other_name :
          (m n : String)
          → str_eq m status_file ≡ true
          → str_eq n status_file ≡ false
          → str_eq m n ≡ false
      other_name m n x y = ground (arith, eq_iff m n, eq_iff m status_file, eq_iff n status_file)

  kept :
      (d e : Disk) (b : Board)
      → rooted fs e.root e.files ≡ true
      → e.files ≡ d.files
      → Implements fs d b
      → Implements fs e b
  kept d e b r f h = record {
    has_root = r;
    has_results = λ n x. same_files d e n f ∙ h.has_results n x;
    has_status = same_files d e status_file f ∙ h.has_status;
  }

  perform-Implements :
      (op : Op) (d : Disk) (b : Board)
      → ReadBack fs op
      → Implements fs d b
      → ((perform fs op d).0 ≡ ok tt) × Implements fs (perform fs op d).1 (on_board op b)
  unfolding clear release ensure write_file write_result write_status acquire
  perform-Implements clears d b law h = (
    refl,
    record { has_root = refl; has_results = λ n e. wiped n; has_status = wiped status_file },
  )
  perform-Implements releases d b law h = released d.lock
    where
      released :
          (l : Option ℕ) → ((remove_lock fs l d).0 ≡ ok tt) × Implements fs (remove_lock fs l d).1 b
      released none = (refl, h)
      released (some since) = rw (can_write d lock_file) (refl, kept d _ b h.has_root refl h)
  perform-Implements (acquires now) d b law h = rw (can_write d "") (refl, kept d _ b refl refl h)
  perform-Implements (writes name j) d b law h =
      rw (can_write d "", can_write _ name) (refl, written name j d.lock d b law h)
  perform-Implements (reports now j) d b law h =
      rw (can_write d "", can_write _ status_file)
        (refl, written status_file j (touch now d.lock) d b law h)

  own : (o : Option Json) (b : Bool) → found_or o (if b then o else none) ≡ o
  own none b = ground arith
  own (some j) b = refl

  find-results_from :
      (d : Disk) (name : String) (names : List String)
      → str_eq name status_file ≡ false
      → find name (results_from fs d names)
        ≡ (if contains name names then read_result fs name d else none)
  unfolding results_from
  find-results_from d name [] h = refl
  find-results_from d name (n ∷ names) h = elim (Bool-cases (str_eq n status_file)) [
    | inl c ↦ rw (c, others n c) (find-results_from d name names h)
    | inr c ↦
        rw
          (
            c,
            find-entry fs name n (read_result fs n d) (results_from fs d names),
            find-results_from d name names h,
          )
          (at_head (Bool-cases (str_eq n name)))
  ]
    where
      others : (n : String) → str_eq n status_file ≡ true → str_eq n name ≡ false
      others m c = ground (arith, eq_iff m name, eq_iff m status_file, eq_iff name status_file)

      at_head :
          (str_eq n name ≡ true) ⊎ (str_eq n name ≡ false)
          → (if str_eq n name
              then found_or
                  (read_result fs n d)
                  (if contains name names then read_result fs name d else none)
              else if contains name names
              then read_result fs name d
              else none)
            ≡ (if str_eq n name || contains name names then read_result fs name d else none)
      at_head (inl c) =
          let same : n ≡ name = (eq_iff n name).0 c in
          rw (c, same) (own (read_result fs name d) (contains name names))
      at_head (inr c) = rw c refl

  present :
      (d : Disk) (name : String)
      → (contains name (map (λ f. f.0) d.files) ≡ true)
        ⊎ (contains name (map (λ f. f.0) d.files) ≡ false)
      → (if contains name (map (λ f. f.0) d.files) then read_result fs name d else none)
        ≡ read_result fs name d
  present d name (inl c) = rw c refl
  present d name (inr c) = rw c (sym (read_as d name none (text_of-missing name d.files c)))

  chosen :
      (b : Bool) (name : String) (results : List (String × Json)) (o : Option Json)
      → find name results ≡ o
      → (b ≡ false → o ≡ none)
      → find name (if b then results else []) ≡ o
  chosen true name results o h n = h
  chosen false name results o h n = sym (n refl)

  no_files :
      (name : String) (b : Bool) (files : List (String × String))
      → b ≡ false
      → rooted fs b files ≡ true
      → text_of name files ≡ none
  no_files name b [] e r = refl
  no_files name true (f ∷ files) e r = cc
  no_files name false (f ∷ files) e r = cc

  find-all_results :
      (d : Disk) (name : String)
      → rooted fs d.root d.files ≡ true
      → str_eq name status_file ≡ false
      → find name (all_results fs d) ≡ read_result fs name d
  unfolding all_results
  find-all_results d name r h =
      chosen d.root name _ (read_result fs name d)
        (find-results_from d name (sorted (order fs) (map (λ f. f.0) d.files)) h
          ∙ rw (contains-sorted (order fs) name (map (λ f. f.0) d.files))
              (present d name (Bool-cases (contains name (map (λ f. f.0) d.files)))))
        (λ c. read_as d name none (no_files name d.root d.files c r))

  runs-Implements :
      (ops : List Op) (d : Disk) (b : Board)
      → All (ReadBack fs) ops
      → Implements fs d b
      → (for_each (perform fs) ops d).0 ≡ ok tt
        × Implements fs (for_each (perform fs) ops d).1 (board_after ops b)
  unfolding for_each
  runs-Implements [] d b laws h = (refl, h)
  runs-Implements (op ∷ ops) d b (law, laws) h =
      let (e, h') = perform-Implements op d b law h in rw e (runs-Implements ops _ _ laws h')

-- If no file operation fails, and what the operations write is read back as the value it was written
-- from: whatever operations are done on a store that is empty, none of them raises; then a result
-- that is read by its name, the same result in the list of all results, and the status are those of
-- the board on which the operations mean what they are for. What is written under the name "status"
-- is the status and no result.
pub all_results-refine :
    (fs : Files) (can_write : (d : Disk) (n : String) → fs.writable d n ≡ true)
    (can_read : (d : Disk) (n : String) → fs.readable d n ≡ true) (lock : Option ℕ) (ops : List Op)
    (name : String)
    → All (ReadBack fs) ops
    → str_eq name status_file ≡ false
    → let (r, d) = for_each (perform fs) ops (record { root = false; files = []; lock = lock }) in
      let b = board_after ops blank in
      (r ≡ ok tt)
      × (read_result fs name d ≡ b.results name)
      × (find name (all_results fs d) ≡ b.results name)
      × (read_status fs d ≡ dict_or_empty fs b.status)
unfolding read_status
all_results-refine fs can_write can_read lock ops name laws h =
    let (e, i) = runs-Implements fs can_write can_read ops _ blank laws (record {
      has_root = refl;
      has_results = λ n e. nothing n;
      has_status = nothing status_file;
    }) in
    (
      e,
      i.has_results name h,
      find-all_results fs can_write can_read _ name i.has_root h ∙ i.has_results name h,
      ap (dict_or_empty fs) i.has_status,
    )
  where
    nothing :
        (n : String) → read_result fs n (record { root = false; files = []; lock = lock }) ≡ none
    nothing n = read_as fs can_write can_read _ n none refl
