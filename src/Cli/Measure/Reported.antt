-- ===== src/Cli/Measure/Reported.antt =====
-- How the loop over the servers can end: the line about a result, and what it finds in it.
use virtual_private_network.Prelude.{
  String, ◌≡◌, refl, ap, Bool, true, false, Option, none, some, List, [], ◌∷◌, ◌++◌, ◌⊎◌, inl, inr,
  Bool-cases, All,
}
use virtual_private_network.Ports.Effect.{Outcome, Exn, ok, raised, key_error, ◌>>◌}
use virtual_private_network.Ports.Json.{Json, Fields, obj, lookup}
use virtual_private_network.Speedtest.Store.{Disk, text_of, read_result}
use virtual_private_network.Cli.Measure.{
  Terminal, Tools, has_error, present, shown, shown_keys, report,
}

abbrev pub is_some : Option Json → Bool
is_some none = false
is_some (some j) = true

module _ (tools : Tools) where
  -- A result of that name can be read.
  abbrev pub has_result : Disk → String → Bool
  has_result d name = is_some (read_result tools.files name d)

  -- The result of a server says neither an error nor one of the values that are shown: what the
  -- KeyError of the line about the result is raised for.
  abbrev pub Mute : String → Exn → Disk → Type 0
  Mute name e d =
      (fs : Fields) × (k : String) × (e ≡ key_error k)
      × (lookup k fs ≡ none)
      × (has_error tools (lookup "error" fs) ≡ false)
      × (text_of name d.files ≡ some (tools.files.dumps (obj fs)))

  abbrev pub Passed : String → Outcome (Unit {0}) → Disk → Type 0
  Passed name (ok u) d = Unit
  Passed name (raised e) d = Mute name e d

  shown_lem :
      (ks : List String) (fs : Fields) (t : Terminal)
      → ((shown tools ks fs t).1 ≡ t)
        × (((shown tools ks fs t).0 ≡ ok tt)
            ⊎ ((k : String) × ((shown tools ks fs t).0 ≡ raised (key_error k))
                × (lookup k fs ≡ none)))
  unfolding shown
  shown_lem [] fs t = (refl, inl refl)
  shown_lem (k ∷ ks) fs t = from (lookup k fs) refl (shown_lem ks fs t)
    where
      Ends : Outcome (Unit {0}) × Terminal → Type 0
      Ends (r, u) =
          (u ≡ t)
          × ((r ≡ ok tt) ⊎ ((j : String) × (r ≡ raised (key_error j)) × (lookup j fs ≡ none)))

      from :
          (o : Option Json)
          → lookup k fs ≡ o
          → Ends (shown tools ks fs t)
          → Ends ((present tools k o >> shown tools ks fs) t)
      from none e later = (refl, inr (k, refl, e))
      from (some v) e later = later

  pub report_lem :
      (name : String) (fs : Fields) (t : Terminal)
      → text_of name t.disk.files ≡ some (tools.files.dumps (obj fs))
      → ((report tools fs t).1 ≡ t) × Passed name (report tools fs t).0 t.disk
  report_lem name fs t h = elim (Bool-cases (has_error tools (lookup "error" fs))) [
    | inl c ↦ rw c (refl, tt)
    | inr c ↦
        let (same, ends) = shown_lem (shown_keys tools) fs t in
        rw c (same, from (shown tools (shown_keys tools) fs t).0 ends c)
  ]
    where
      from :
          (r : Outcome (Unit {0}))
          → (r ≡ ok tt) ⊎ ((k : String) × (r ≡ raised (key_error k)) × (lookup k fs ≡ none))
          → has_error tools (lookup "error" fs) ≡ false
          → Passed name r t.disk
      from r (inl e) c = rw e tt
      from r (inr (k, e, l)) c = rw e (fs, k, refl, l, c, h)

  -- How the loop ends: after all servers, or behind one of them.
  abbrev pub Finished : List String → Outcome (Unit {0}) → Disk → Type 0
  Finished names (ok u) d = All (λ n. has_result d n ≡ true) names
  Finished names (raised e) d =
      (done : List String) × (n : String) × (left : List String) × (names ≡ done ++ n ∷ left)
      × All (λ m. has_result d m ≡ true) (done ++ n ∷ [])
      × Mute n e d

  pub Finished-cons :
      (n : String) (ns : List String) (r : Outcome (Unit {0})) (d : Disk)
      → has_result d n ≡ true
      → Finished ns r d
      → Finished (n ∷ ns) r d
  Finished-cons n ns (ok v) d here all = (here, all)
  Finished-cons n ns (raised x) d here (done, m, left, e, all, mute) =
      (n ∷ done, m, left, ap (λ l. n ∷ l) e, (here, all), mute)
