-- ===== src/Cli/Measure/Complete.antt =====
-- The loop over the servers: each of them ends with a result, whatever fails on the way.
use virtual_private_network.Prelude.{
  ℕ, String, ◌≡◌, refl, ◌∙◌, Bool, true, false, ◌||◌, Option, some, List, [], ◌∷◌, ap, inl, inr,
  Bool-cases, str_eq, eq_iff, All, if◌then◌else◌,
}
use virtual_private_network.Ports.Effect.{Outcome, ok, raised}
use virtual_private_network.Ports.Json.{Json, Fields, str, obj, field, end, lookup}
use virtual_private_network.Speedtest.Lock.{touch}
use virtual_private_network.Speedtest.Store.{
  Disk, status_file, text_of, put_text, read_result, ensure, write_file, write_result, write_status,
}
use virtual_private_network.Speedtest.Store.Board.{text_of-put_text}
use virtual_private_network.Subscription.{put}
use virtual_private_network.Cli.Measure.{
  Terminal, Tools, running_status, or_dash, test_server, test_all, report,
}
use virtual_private_network.Cli.Measure.Reported.{
  is_some, has_result, Passed, report_lem, Finished, Finished-cons,
}
use virtual_private_network.Cli.Measure.Harmless.{measured_lem}

or_both : (a b c : Bool) → (if a then true else (if b then true else c)) ≡ (a || b || c)
or_both true b c = refl
or_both false true c = refl
or_both false false c = refl

or_true : (a b : Bool) → (a || b || true) ≡ true
or_true true b = refl
or_true false true = refl
or_true false false = refl

same : (n : String) → str_eq n n ≡ true
same n = (eq_iff n n).1 refl

module _ (tools : Tools) where
  module _ (can_write : (d : Disk) (n : String) → tools.files.writable d n ≡ true)
      (can_read : (d : Disk) (n : String) → tools.files.readable d n ≡ true)
      (readable : (j : Json) → is_some (tools.files.loads (tools.files.dumps j)) ≡ true) where
    has_result-put :
        (d : Disk) (name other : String) (j : Json) (lock' : Option ℕ)
        → has_result tools
            (record {
              root = true;
              files = put_text name (tools.files.dumps j) d.files;
              lock = lock';
            })
            other
          ≡ (if str_eq name other then true else has_result tools d other)
    unfolding read_result
    has_result-put d name other j lock' =
        rw
          (
            can_read d other,
            can_read
                (record {
                  root = true;
                  files = put_text name (tools.files.dumps j) d.files;
                  lock = lock';
                })
                other,
            text_of-put_text name other (tools.files.dumps j) d.files,
          )
          (elim (Bool-cases (str_eq name other)) [ inl c ↦ rw c (readable j) | inr c ↦ rw c refl ])

    write_status_lem :
        (ms : ℕ) (j : Json) (d : Disk)
        → write_status tools.files ms j d ≡ (
          ok tt,
          record {
            root = true;
            files = put_text status_file (tools.files.dumps j) d.files;
            lock = touch ms d.lock;
          },
        )
    unfolding write_status ensure write_file
    write_status_lem ms j d =
        rw (can_write d "", can_write (record d { root = true }) status_file) refl

    write_result_lem :
        (name : String) (j : Json) (d : Disk)
        → write_result tools.files name j d ≡ (
          ok tt,
          record {
            root = true;
            files = put_text name (tools.files.dumps j) d.files;
            lock = d.lock;
          },
        )
    unfolding write_result ensure write_file
    write_result_lem name j d = rw (can_write d "", can_write (record d { root = true }) name) refl

    tested :
        (by_name fs : Fields) (names : List String) (started name : String) (t : Terminal)
        → lookup name by_name ≡ some (obj fs)
        → (r : Outcome (Unit {0})) × (t' : Terminal) × (test_server tools by_name names started name
              t
            ≡ (r, t'))
          × Passed tools name r t'.disk
          × ((n : String)
              → has_result tools t'.disk n
                ≡ (str_eq name n || str_eq status_file n || has_result tools t.disk n))
    unfolding test_server
    tested by_name fs names started name t e =
        let ms = tools.env.time t.history in
        let status = running_status tools name names started in
        let d : Disk = record {
          root = true;
          files = put_text status_file (tools.files.dumps status) t.disk.files;
          lock = touch ms t.disk.lock;
        } in
        let start : Fields =
          field "country" (or_dash tools (lookup "country" fs))
            (field "tested_at" (str (tools.local_time ms)) end) in
        let (entry, h, m) = measured_lem tools name start (record t { disk = d }) in
        let final = put "tested_at" (str (tools.local_time (tools.env.time h))) entry in
        let u : Terminal = record {
          history = h;
          disk = record {
            root = true;
            files = put_text name (tools.files.dumps (obj final)) d.files;
            lock = d.lock;
          };
        } in
        let there : text_of name u.disk.files ≡ some (tools.files.dumps (obj final)) =
          text_of-put_text name name (tools.files.dumps (obj final)) d.files
          ∙ rw (same name) refl in
        let (kept, passed) = report_lem tools name final u there in
        (
          (report tools final u).0,
          u,
          rw e (
              rw (write_status_lem ms status t.disk) (
                rw m (
                  rw (write_result_lem name (obj final) d)
                    (ap (λ v. ((report tools final u).0, v)) kept)))),
          passed,
          λ n.
              has_result-put d name n (obj final) d.lock
              ∙ rw (has_result-put t.disk status_file n status d.lock)
                  (or_both (str_eq name n) (str_eq status_file n) (has_result tools t.disk n)),
        )

    Kept : Disk → Disk → Type 0
    Kept d d' = (n : String) → has_result tools d n ≡ true → has_result tools d' n ≡ true

    test_all_lem :
        (by_name : Fields) (names : List String) (started : String) (ns : List String)
        (t : Terminal)
        → All (λ n. (fs : Fields) × (lookup n by_name ≡ some (obj fs))) ns
        → (r : Outcome (Unit {0})) × (t' : Terminal) × (test_all tools by_name names started ns t
            ≡ (r, t'))
          × Kept t.disk t'.disk
          × Finished tools ns r t'.disk
    unfolding test_all Kept
    test_all_lem by_name names started [] t h = (ok tt, t, refl, λ n e. e, tt)
    test_all_lem by_name names started (n ∷ ns) t ((fs, e), h) =
        let (r, u, runs, passed, has) = tested by_name fs names started n t e in
        from r u runs passed (has n ∙ rw (same n) refl)
          (λ k x. has k ∙ rw x (or_true (str_eq n k) (str_eq status_file k)))
          (test_all_lem by_name names started ns u h)
      where
        Ends : Terminal → List String → Terminal → Type 0
        Ends t ns u =
            (r : Outcome (Unit {0})) × (t' : Terminal) × (test_all tools by_name names started ns u
              ≡ (r, t'))
            × Kept t.disk t'.disk
            × Finished tools ns r t'.disk

        from :
            (r : Outcome (Unit {0})) (u : Terminal)
            → test_server tools by_name names started n t ≡ (r, u)
            → Passed tools n r u.disk
            → has_result tools u.disk n ≡ true
            → Kept t.disk u.disk
            → Ends u ns u
            → Ends t (n ∷ ns) t
        from (raised x) u runs mute here kept rest =
            (raised x, u, rw runs refl, kept, ([], n, ns, refl, (here, tt), mute))
        from (ok v) u runs passed here kept (r', w, rest, keeps, end') = (
          r',
          w,
          rw runs rest,
          λ k x. keeps k (kept k x),
          Finished-cons tools n ns r' w.disk (keeps n here) end',
        )

    -- If the files can be written and read, and each server to test is a dict under its name: the
    -- loop over the servers runs to its end, and then a result can be read for each of them, whatever
    -- the daemon, the tunnels and the speedtest program do; or it ends behind a server with the
    -- KeyError of a value that its result lacks, which then says no error either, and a result can be
    -- read for each server up to that one.
    pub test_all_complete :
        (by_name : Fields) (names : List String) (started : String) (t : Terminal)
        → All (λ n. (fs : Fields) × (lookup n by_name ≡ some (obj fs))) names
        → (r : Outcome (Unit {0})) × (t' : Terminal) × (test_all tools by_name names started names t
            ≡ (r, t'))
          × Finished tools names r t'.disk
    test_all_complete by_name names started t h =
        let (r, t', runs, keeps, end') = test_all_lem by_name names started names t h in
        (r, t', runs, end')
