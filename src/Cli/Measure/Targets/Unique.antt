-- ===== src/Cli/Measure/Targets/Unique.antt =====
-- The names of the command line against a definition without an accumulator.
use virtual_private_network.Prelude.{
  String, ◌<>◌, ◌≡◌, refl, sym, ◌∙◌, ap, Bool, true, false, ◌||◌, ◌==◌, All, Bool-cases, inl, inr,
  List, [], ◌∷◌, ◌++◌, contains, contains-append, strip, is_empty, str_eq, eq_iff, arith,
  if◌then◌else◌,
}
use Prim.Native.Char.{Char, code}
use Prim.Native.String.append
use virtual_private_network.Ports.Effect.{Outcome, ok, raised, speedtest_error}
use virtual_private_network.Cli.Measure.Targets.{
  cons_first, split_commas, add_parts, add_items, unknown_in, checked, resolve_targets,
}

-- The parts between the commas, with the part that is being read.
unfoldable pub pieces : String → String → List String
pieces word String.[] = word ∷ []
pieces word (String.◌∷◌ c s) =
    let here = word ∷ pieces "" s in
    let more = pieces (word <> String.◌∷◌ c String.[]) s in if code c == 44 then here else more

-- The parts of an item, stripped, without the empty ones.
unfoldable pub clean : List String → List String
unfolding strip
clean [] = []
clean (p ∷ ps) = let rest = clean ps in if is_empty (strip p) then rest else strip p ∷ rest

unfoldable pub words_of : List String → List String
unfolding clean pieces
words_of [] = []
words_of (item ∷ items) = clean (pieces "" item) ++ words_of items

unfoldable pub without : List String → List String → List String
without seen [] = []
without seen (x ∷ xs) = let rest = without seen xs in if contains x seen then rest else x ∷ rest

-- The first occurrence of each name.
unfoldable pub unique : List String → List String
unfolding without
unique [] = []
unique (x ∷ xs) = x ∷ without (x ∷ []) (unique xs)

append_empty : (a : String) → a <> "" ≡ a
append_empty String.[] = refl
append_empty (String.◌∷◌ c s) = append.cons c s "" ∙ ap (String.◌∷◌ c) (append_empty s)

append_char :
    (a : String) (c : Char) (b : String) → (a <> String.◌∷◌ c String.[]) <> b ≡ a <> String.◌∷◌ c b
append_char String.[] c b =
    rw (append.nil (String.◌∷◌ c String.[]), append.nil (String.◌∷◌ c b))
      (append.cons c String.[] b ∙ ap (String.◌∷◌ c) (append.nil b))
append_char (String.◌∷◌ d a) c b =
    rw (append.cons d a (String.◌∷◌ c String.[]), append.cons d a (String.◌∷◌ c b))
      (append.cons d (a <> String.◌∷◌ c String.[]) b ∙ ap (String.◌∷◌ d) (append_char a c b))

prefixed : String → List String → List String
prefixed w [] = w ∷ []
prefixed w (l ∷ ls) = (w <> l) ∷ ls

split-prefixed : (s : String) → prefixed "" (split_commas s) ≡ split_commas s
unfolding prefixed split_commas
split-prefixed String.[] = refl
split-prefixed (String.◌∷◌ c s) = elim (Bool-cases (code c == 44)) [
  | inl e ↦ rw e refl
  | inr e ↦ rw e (from (split_commas s))
]
  where
    from : (ls : List String) → prefixed "" (cons_first c ls) ≡ cons_first c ls
    from [] = ap (λ x. x ∷ []) (append.nil (String.◌∷◌ c String.[]))
    from (l ∷ ls) = ap (λ x. x ∷ ls) (append.nil (String.◌∷◌ c l))

prefixed-cons_first :
    (w : String) (c : Char) (ls : List String)
    → prefixed (w <> String.◌∷◌ c String.[]) ls ≡ prefixed w (cons_first c ls)
unfolding prefixed
prefixed-cons_first w c [] = refl
prefixed-cons_first w c (l ∷ ls) = ap (λ x. x ∷ ls) (append_char w c l)

pieces-prefixed : (w s : String) → pieces w s ≡ prefixed w (split_commas s)
unfolding prefixed split_commas pieces
pieces-prefixed w String.[] = ap (λ x. x ∷ []) (sym (append_empty w))
pieces-prefixed w (String.◌∷◌ c s) = elim (Bool-cases (code c == 44)) [
  | inl e ↦ rw e (rw (pieces-prefixed "" s, split-prefixed s, append_empty w) refl)
  | inr e ↦
      rw e
        (pieces-prefixed (w <> String.◌∷◌ c String.[]) s ∙ prefixed-cons_first w c (split_commas s))
]

pieces-split_commas : (s : String) → pieces "" s ≡ split_commas s
pieces-split_commas s = pieces-prefixed "" s ∙ split-prefixed s

without-seen :
    (x : String) (seen xs : List String)
    → contains x seen ≡ true
    → without seen (without (x ∷ []) xs) ≡ without seen xs
unfolding without
without-seen x seen [] h = refl
without-seen x seen (y ∷ ys) h = elim (Bool-cases (str_eq x y)) [
  | inl c ↦ let same : x ≡ y = (eq_iff x y).0 c in rw (c, sym same, h) (without-seen x seen ys h)
  | inr c ↦ rw c (elim (Bool-cases (contains y seen)) [
    | inl e ↦ rw e (without-seen x seen ys h)
    | inr e ↦ rw e (ap (λ r. y ∷ r) (without-seen x seen ys h))
  ])
]

without-append :
    (x : String) (seen xs : List String)
    → without (seen ++ x ∷ []) xs ≡ without seen (without (x ∷ []) xs)
unfolding without
without-append x seen [] = refl
without-append x seen (y ∷ ys) =
    ground (arith, without-append x seen ys, contains-append y seen (x ∷ []))

append_assoc : (xs ys zs : List String) → (xs ++ ys) ++ zs ≡ xs ++ (ys ++ zs)
append_assoc [] ys zs = refl
append_assoc (x ∷ xs) ys zs = ap (λ r. x ∷ r) (append_assoc xs ys zs)

append-nil : (xs : List String) → xs ++ [] ≡ xs
append-nil [] = refl
append-nil (x ∷ xs) = ap (λ r. x ∷ r) (append-nil xs)

without-nothing : (xs : List String) → without [] xs ≡ xs
unfolding without
without-nothing [] = refl
without-nothing (x ∷ xs) = ap (λ r. x ∷ r) (without-nothing xs)

add_words : List String → List String → List String
add_words [] seen = seen
add_words (w ∷ ws) seen = add_words ws (if contains w seen then seen else seen ++ w ∷ [])

add_words_lem : (ws seen : List String) → add_words ws seen ≡ seen ++ without seen (unique ws)
unfolding add_words without unique
add_words_lem [] seen = sym (append-nil seen)
add_words_lem (w ∷ ws) seen = elim (Bool-cases (contains w seen)) [
  | inl c ↦
      rw c (add_words_lem ws seen ∙ ap (λ r. seen ++ r) (sym (without-seen w seen (unique ws) c)))
  | inr c ↦ rw c (
      add_words_lem ws (seen ++ w ∷ [])
      ∙ append_assoc seen (w ∷ []) (without (seen ++ w ∷ []) (unique ws))
      ∙ ap (λ r. seen ++ w ∷ r) (without-append w seen (unique ws)))
]

add_words-append :
    (us vs seen : List String) → add_words (us ++ vs) seen ≡ add_words vs (add_words us seen)
unfolding add_words
add_words-append [] vs seen = refl
add_words-append (u ∷ us) vs seen = add_words-append us vs _

add_parts_words : (ps seen : List String) → add_parts ps seen ≡ add_words (clean ps) seen
unfolding add_parts add_words clean
add_parts_words [] seen = refl
add_parts_words (p ∷ ps) seen = elim (Bool-cases (is_empty (strip p))) [
  | inl c ↦ rw c (add_parts_words ps seen)
  | inr c ↦ rw c (add_parts_words ps _)
]

add_items_words :
    (items seen : List String) → add_items items seen ≡ add_words (words_of items) seen
unfolding add_items add_words words_of
add_items_words [] seen = refl
add_items_words (item ∷ items) seen =
    add_items_words items _
    ∙ ap (add_words (words_of items)) (add_parts_words (split_commas item) seen)
    ∙ ap (λ l. add_words (words_of items) (add_words (clean l) seen))
        (sym (pieces-split_commas item))
    ∙ sym (add_words-append (clean (pieces "" item)) (words_of items) seen)

-- What a command that names these servers gets: the names if all of them are known, else a
-- SpeedtestError, and one of them is not known.
abbrev pub Resolved : List String → List String → Outcome (List String) → Type 0
Resolved known names (ok resolved) = (resolved ≡ names) × All (λ n. contains n known ≡ true) names
Resolved known names (raised e) =
    (n : String) × (contains n names ≡ true)
    × (contains n known ≡ false)
    × (reason : String) × (e ≡ speedtest_error reason)

unknown_in-known :
    (known names : List String)
    → unknown_in known names ≡ []
    → All (λ n. contains n known ≡ true) names
unfolding unknown_in
unknown_in-known known [] h = tt
unknown_in-known known (n ∷ ns) h = elim (Bool-cases (contains n known)) [
  | inl c ↦ let rest : unknown_in known ns ≡ [] = rw c at h in (c, unknown_in-known known ns rest)
  | inr c ↦ let more : n ∷ unknown_in known ns ≡ [] = rw c at h in cc
]

unknown_in-found :
    (known names : List String) (u : String) (us : List String)
    → unknown_in known names ≡ u ∷ us
    → (contains u names ≡ true) × (contains u known ≡ false)
unfolding unknown_in
unknown_in-found known [] u us h = cc
unknown_in-found known (n ∷ ns) u us h = elim (Bool-cases (contains n known)) [
  | inl c ↦
      let rest : unknown_in known ns ≡ u ∷ us = rw c at h in
      let (a, b) = unknown_in-found known ns u us rest in (rw a (or_true (str_eq n u)), b)
  | inr c ↦
      let more : n ∷ unknown_in known ns ≡ u ∷ us = rw c at h in
      let same : n ≡ u = cc in (at_head ns same, ap (λ x. contains x known) (sym same) ∙ c)
]
  where
    or_true : (b : Bool) → (b || true) ≡ true
    or_true true = refl
    or_true false = refl

    at_head : {x y : String} (xs : List String) → y ≡ x → contains x (y ∷ xs) ≡ true
    at_head {x} {y} xs e = rw ((eq_iff y x).1 e) refl

checked-Resolved :
    {S : Type 0} (known names : List String) (s : S)
    → let (r, s') = checked names (unknown_in known names) s in Resolved known names r × (s' ≡ s)
checked-Resolved known names s = from (unknown_in known names) refl
  where
    from :
        (us : List String)
        → unknown_in known names ≡ us
        → Resolved known names (checked names us s).0 × ((checked names us s).1 ≡ s)
    from [] e = ((refl, unknown_in-known known names e), refl)
    from (u ∷ us) e = let (a, b) = unknown_in-found known names u us e in ((u, a, b, _, refl), refl)

-- The names of the command line are the parts between the commas of all items, stripped and not
-- empty, each where it first occurs. They are returned if all of them are known; if not, the call
-- raises SpeedtestError.
pub resolve_targets-unique :
    {S : Type 0} (items known : List String) (s : S)
    → let (r, s') = resolve_targets items known s in
      Resolved known (unique (words_of items)) r × (s' ≡ s)
unfolding resolve_targets
resolve_targets-unique items known s =
    rw
      (add_items_words items []
        ∙ add_words_lem (words_of items) []
        ∙ without-nothing (unique (words_of items)))
      (checked-Resolved known (unique (words_of items)) s)
