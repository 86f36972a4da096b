-- ===== src/Akonit/Names.antt =====
-- What the names of the servers are made of.
use virtual_private_network.Prelude.{
  ℕ, String, ◌<>◌, ◌≡◌, refl, Bool, true, false, ◌&&◌, List, [], ◌∷◌, is_empty, strip, split_words,
  Bool-cases, inl, inr, arith, zero, suc, ◌-◌, not, ◌||◌, leb, Option, none, some, All,
}
use Prim.Native.Char.{Char, code}
use Prim.Native.String.append
use virtual_private_network.Akonit.Tags.{
  is_plain, plain, transliterated, translit, normalize_tag, before_first, first_or, slug, slugify,
  base_name, or_text, char_at, flag_letters, flag_country, flag_or, first_two, after_last,
  named_country, find_country, country_by_name, country,
}
use virtual_private_network.Ports.Json.{Fields}
use virtual_private_network.Akonit.Catalog.{Entry, entry, count, more_than_one, name_of}

-- The ASCII digits, capital letters and small letters, by the codes of the first and the last.
abbrev letters_and_digits : List (ℕ × ℕ)
letters_and_digits = (48, 57) ∷ (65, 90) ∷ (97, 122) ∷ []

abbrev in_ranges : List (ℕ × ℕ) → ℕ → Bool
in_ranges [] n = false
in_ranges ((first, last) ∷ rest) n = (leb first n && leb n last) || in_ranges rest n

-- Every character is an ASCII letter or digit.
unfoldable pub all_plain : String → Bool
all_plain String.[] = true
all_plain (String.◌∷◌ c s) = in_ranges letters_and_digits (code c) && all_plain s

-- Every character is an ASCII letter, a digit or an underscore.
unfoldable pub one_word : String → Bool
one_word String.[] = true
one_word (String.◌∷◌ c s) = in_ranges ((95, 95) ∷ letters_and_digits) (code c) && one_word s

all_plain-append :
    (a b : String) → all_plain a ≡ true → all_plain b ≡ true → all_plain (a <> b) ≡ true
unfolding all_plain
all_plain-append String.[] b h k = rw (append.nil b) k
all_plain-append (String.◌∷◌ c s) b h k =
    rw (append.cons c s b)
      (both (in_ranges letters_and_digits (code c)) (all_plain s) h (all_plain-append s b))
  where
    both :
        (x y : Bool) {z : Bool}
        → (x && y) ≡ true
        → (y ≡ true → all_plain b ≡ true → z ≡ true)
        → (x && z) ≡ true
    both true true e f = f refl k
    both true false e f = cc
    both false y e f = cc

in_ranges_lem : (n : ℕ) → is_plain n ≡ true → in_ranges letters_and_digits n ≡ true
in_ranges_lem n h = ground arith

plain_lem : (c : Char) → all_plain (plain c) ≡ true
unfolding all_plain
plain_lem c = elim (Bool-cases (is_plain (code c))) [
  | inl e ↦ rw e (rw (in_ranges_lem (code c) e) refl)
  | inr e ↦ rw e refl
]

-- The texts of a table.
abbrev table_plain : List (ℕ × String) → Bool
table_plain [] = true
table_plain ((n, latin) ∷ rest) = all_plain latin && table_plain rest

transliterated-plain :
    (table : List (ℕ × String)) (c : Char)
    → table_plain table ≡ true
    → all_plain (transliterated table c) ≡ true
unfolding transliterated
transliterated-plain [] c h = plain_lem c
transliterated-plain ((n, latin) ∷ rest) c h = ground (arith, transliterated-plain rest c)

slug-plain : (s : String) → all_plain (slug s) ≡ true
unfolding slug all_plain
slug-plain String.[] = refl
slug-plain (String.◌∷◌ c s) =
    all_plain-append (transliterated translit c) (slug s) (transliterated-plain translit c refl)
      (slug-plain s)

or_text-plain :
    (a b : String)
    → all_plain a ≡ true
    → all_plain b ≡ true × (is_empty b ≡ false)
    → (all_plain (or_text a b) ≡ true) × (is_empty (or_text a b) ≡ false)
or_text-plain a b h (k, e) = elim (Bool-cases (is_empty a)) [
  | inl c ↦ rw c (k, e)
  | inr c ↦ rw c (h, c)
]

named-plain :
    (x y : String)
    → (all_plain (or_text (slug x) (or_text (slug y) "server")) ≡ true)
      × (is_empty (or_text (slug x) (or_text (slug y) "server")) ≡ false)
unfolding all_plain
named-plain x y =
    or_text-plain (slug x) (or_text (slug y) "server") (slug-plain x)
      (or_text-plain (slug y) "server" (slug-plain y) (refl, refl))

base_name-plain :
    (lower : String → String) (tag : String)
    → (all_plain (base_name lower tag) ≡ true) × (is_empty (base_name lower tag) ≡ false)
unfolding base_name slugify
base_name-plain lower tag =
    let norm = normalize_tag tag in
    let label = or_text (strip (before_first " - " norm)) norm in
    named-plain (lower (first_or label (split_words label))) (lower norm)

char_at-plain : (n : ℕ) (s : String) → all_plain s ≡ true → all_plain (char_at n s) ≡ true
unfolding char_at all_plain
char_at-plain zero String.[] h = refl
char_at-plain (suc n) String.[] h = refl
char_at-plain zero (String.◌∷◌ c s) h = ground arith
char_at-plain (suc n) (String.◌∷◌ c s) h = char_at-plain n s (ground arith)

flag_letters-plain : (s : String) → All (λ l. all_plain l ≡ true) (flag_letters s)
unfolding flag_letters all_plain
flag_letters-plain String.[] = tt
flag_letters-plain (String.◌∷◌ c s) =
    elim (Bool-cases (leb 127462 (code c) && leb (code c) 127487)) [
      | inl e ↦
          rw e (
            char_at-plain (code c - 127462) "abcdefghijklmnopqrstuvwxyz" refl,
            flag_letters-plain s,
          )
      | inr e ↦ rw e (flag_letters-plain s)
    ]

-- The codes of a table of countries.
abbrev codes_plain : List (String × String) → Bool
codes_plain [] = true
codes_plain ((n, c) ∷ rest) = all_plain c && codes_plain rest

find_country-plain :
    (name : String) (table : List (String × String))
    → codes_plain table ≡ true
    → all_plain (find_country name table) ≡ true
unfolding all_plain
find_country-plain name [] h = refl
find_country-plain name ((n, c) ∷ rest) h = ground (arith, find_country-plain name rest)

country-plain : (lower : String → String) (tag : String) → all_plain (country lower tag) ≡ true
unfolding country flag_country all_plain
country-plain lower tag =
    from (flag_letters tag) (flag_letters-plain tag) (after_last " - " (normalize_tag tag))
  where
    by_table : (o : Option String) → all_plain (named_country lower o) ≡ true
    by_table none = refl
    by_table (some name) = find_country-plain (lower (strip name)) country_by_name refl

    from :
        (letters : List String)
        → All (λ l. all_plain l ≡ true) letters
        → (o : Option String)
        → all_plain (flag_or (first_two letters) (named_country lower o)) ≡ true
    from [] h o = by_table o
    from (a ∷ []) h o = by_table o
    from (a ∷ b ∷ rest) (p, (q, r)) o = all_plain-append a b p q

all_plain-one_word : (s : String) → all_plain s ≡ true → one_word s ≡ true
unfolding all_plain one_word
all_plain-one_word String.[] h = refl
all_plain-one_word (String.◌∷◌ c s) h = ground (arith, all_plain-one_word s)

one_word-append : (a b : String) → one_word a ≡ true → one_word b ≡ true → one_word (a <> b) ≡ true
unfolding one_word
one_word-append String.[] b h k = rw (append.nil b) k
one_word-append (String.◌∷◌ c s) b h k =
    rw (append.cons c s b) (ground (arith, one_word-append s b))

is_empty-append : (a b : String) → is_empty a ≡ false → is_empty (a <> b) ≡ false
is_empty-append String.[] b h = cc
is_empty-append (String.◌∷◌ c s) b h = rw (append.cons c s b) refl

-- Whatever the tag of an outbound is, and however texts are lowered: the base name made of it is not
-- empty and consists of ASCII letters and digits, and the name of the server, among any entries, is
-- not empty and consists of ASCII letters, digits and underscores.
pub name_of-one_word :
    (lower : String → String) (tag : String) (fs : Fields) (all : List Entry)
    → let e = entry lower tag fs in
      (all_plain e.base ≡ true)
      × (is_empty e.base ≡ false)
      × (one_word (name_of all e) ≡ true)
      × (is_empty (name_of all e) ≡ false)
unfolding name_of one_word
name_of-one_word lower tag fs all =
    let (p, n) = base_name-plain lower tag in
    let base = base_name lower tag in
    let c = country lower tag in
    let word = all_plain-one_word base p in
    (
      p,
      n,
      elim (Bool-cases (more_than_one (count base all) && not (is_empty c))) [
        | inl e ↦ rw e (
            one_word-append base _ word
              (one_word-append "_" c refl (all_plain-one_word c (country-plain lower tag))))
        | inr e ↦ rw e word
      ],
      elim (Bool-cases (more_than_one (count base all) && not (is_empty c))) [
        | inl e ↦ rw e (is_empty-append base _ n)
        | inr e ↦ rw e n
      ],
    )
