-- ===== src/Akonit/Tags.antt =====
-- src/vpn/adapters/akonit/catalog.py: names and countries from the tags of a profile.
use virtual_private_network.Prelude.{
  ◌≡◌, refl, ℕ, zero, suc, ◌-◌, String, ◌<>◌, Bool, ◌&&◌, ◌||◌, ◌==◌, leb, Option, none, some, List,
  [], ◌∷◌, is_empty, strip, split_words, after_prefix, starts_with, str_eq, if◌then◌else◌,
}
use Prim.Native.Char.{Char, code}

-- `_EMOJI_RE`, which matches runs of these characters.
abbrev is_emoji : Char → Bool
is_emoji c =
    let n = code c in
    (leb 127456 n && leb n 127487)
    || (leb 127744 n && leb n 128511)
    || (leb 128512 n && leb n 128591)
    || (leb 128640 n && leb n 128767)
    || (leb 129280 n && leb n 129535)
    || (leb 9728 n && leb n 10175)
    || n == 8205
    || n == 65039
    || n == 169
    || n == 174
    || (leb 10240 n && leb n 10495)

-- `_EMOJI_RE.sub("", tag)`
unfoldable pub without_emoji : String → String
without_emoji String.[] = String.[]
without_emoji (String.◌∷◌ c s) =
    let rest = without_emoji s in if is_emoji c then rest else String.◌∷◌ c rest

-- `text.replace(part, "")` for a part of so many characters, where the number counts the characters
-- of an occurrence that are still to be left out.
unfoldable pub cut : String → ℕ → ℕ → String → String
cut part size zero String.[] = String.[]
cut part size (suc n) String.[] = String.[]
cut part size (suc n) (String.◌∷◌ c s) = cut part size n s
cut part size zero (String.◌∷◌ c s) =
    let gone = cut part size (size - 1) s in
    let rest = cut part size 0 s in
    if starts_with (String.◌∷◌ c s) part then gone else String.◌∷◌ c rest

unfoldable pub spaced : List String → String
spaced [] = ""
spaced (w ∷ []) = w
spaced (w ∷ v ∷ ws) = w <> " " <> spaced (v ∷ ws)

unfoldable pub normalize_tag : String → String
unfolding without_emoji cut spaced split_words strip
normalize_tag tag = strip (spaced (split_words (cut "(Без рекламы)" 13 0 (without_emoji tag))))

unfoldable pub char_at : ℕ → String → String
char_at zero String.[] = ""
char_at (suc n) String.[] = ""
char_at zero (String.◌∷◌ c s) = String.◌∷◌ c String.[]
char_at (suc n) (String.◌∷◌ c s) = char_at n s

-- `chr(n + ord("a"))` for a letter's number.
abbrev letter : ℕ → String
letter n = char_at n "abcdefghijklmnopqrstuvwxyz"

-- The regional indicators of a text, as letters.
unfoldable pub flag_letters : String → List String
unfolding char_at
flag_letters String.[] = []
flag_letters (String.◌∷◌ c s) =
    let rest = flag_letters s in
    if leb 127462 (code c) && leb (code c) 127487 then letter (code c - 127462) ∷ rest else rest

abbrev pub first_two : List String → Option String
first_two (a ∷ b ∷ rest) = some (a <> b)
first_two _ = none

unfoldable pub flag_country : String → Option String
unfolding flag_letters
flag_country tag = first_two (flag_letters tag)

-- What follows the last occurrence, or what stands before the first.
abbrev or_here : Option String → Option String → Option String
or_here none here = here
or_here (some later) here = some later

unfoldable pub after_last : String → String → Option String
unfolding after_prefix
after_last part String.[] = none
after_last part (String.◌∷◌ c s) = or_here (after_last part s) (after_prefix part (String.◌∷◌ c s))

unfoldable pub before_first : String → String → String
before_first part String.[] = String.[]
before_first part (String.◌∷◌ c s) =
    let rest = before_first part s in
    if starts_with (String.◌∷◌ c s) part then "" else String.◌∷◌ c rest

abbrev pub country_by_name : List (String × String)
country_by_name =
    ("германия", "de")
    ∷ ("нидерланды", "nl")
    ∷ ("эстония", "ee")
    ∷ ("финляндия", "fi")
    ∷ ("сша", "us")
    ∷ ("япония", "jp")
    ∷ ("турция", "tr")
    ∷ ("швейцария", "ch")
    ∷ ("польша", "pl")
    ∷ ("россия", "ru")
    ∷ ("латвия", "lv")
    ∷ ("казахстан", "kz")
    ∷ ("литва", "lt")
    ∷ ("швеция", "se")
    ∷ ("норвегия", "no")
    ∷ ("дания", "dk")
    ∷ ("великобритания", "gb")
    ∷ ("англия", "gb")
    ∷ ("франция", "fr")
    ∷ ("испания", "es")
    ∷ ("италия", "it")
    ∷ ("австрия", "at")
    ∷ ("бельгия", "be")
    ∷ ("чехия", "cz")
    ∷ ("румыния", "ro")
    ∷ ("болгария", "bg")
    ∷ ("украина", "ua")
    ∷ ("молдова", "md")
    ∷ ("сербия", "rs")
    ∷ ("венгрия", "hu")
    ∷ ("канада", "ca")
    ∷ ("бразилия", "br")
    ∷ ("индия", "in")
    ∷ ("сингапур", "sg")
    ∷ ("гонконг", "hk")
    ∷ ("корея", "kr")
    ∷ ("австралия", "au")
    ∷ ("ирландия", "ie")
    ∷ ("португалия", "pt")
    ∷ ("греция", "gr")
    ∷ []

abbrev pub find_country : String → List (String × String) → String
find_country name [] = ""
find_country name ((n, code') ∷ rest) = if str_eq n name then code' else find_country name rest

abbrev pub named_country : (String → String) → Option String → String
named_country lower none = ""
named_country lower (some name) = find_country (lower (strip name)) country_by_name

abbrev pub flag_or : Option String → String → String
flag_or none name = name
flag_or (some flag) name = flag

unfoldable pub country : (String → String) → String → String
unfolding flag_country normalize_tag after_last strip
country lower tag =
    flag_or (flag_country tag) (named_country lower (after_last " - " (normalize_tag tag)))

-- `_TRANSLIT`, by the codes of the characters.
abbrev pub translit : List (ℕ × String)
translit =
    (1072, "a")
    ∷ (1073, "b")
    ∷ (1074, "v")
    ∷ (1075, "g")
    ∷ (1076, "d")
    ∷ (1077, "e")
    ∷ (1105, "e")
    ∷ (1078, "zh")
    ∷ (1079, "z")
    ∷ (1080, "i")
    ∷ (1081, "y")
    ∷ (1082, "k")
    ∷ (1083, "l")
    ∷ (1084, "m")
    ∷ (1085, "n")
    ∷ (1086, "o")
    ∷ (1087, "p")
    ∷ (1088, "r")
    ∷ (1089, "s")
    ∷ (1090, "t")
    ∷ (1091, "u")
    ∷ (1092, "f")
    ∷ (1093, "h")
    ∷ (1094, "ts")
    ∷ (1095, "ch")
    ∷ (1096, "sh")
    ∷ (1097, "shch")
    ∷ (1098, "")
    ∷ (1099, "y")
    ∷ (1100, "")
    ∷ (1101, "e")
    ∷ (1102, "yu")
    ∷ (1103, "ya")
    ∷ []

-- A letter of the table, an ASCII letter or digit as it is, and nothing for any other character.
abbrev pub is_plain : ℕ → Bool
is_plain n = (leb 48 n && leb n 57) || (leb 65 n && leb n 90) || (leb 97 n && leb n 122)

abbrev pub plain : Char → String
plain c = if is_plain (code c) then String.◌∷◌ c String.[] else ""

unfoldable pub transliterated : List (ℕ × String) → Char → String
transliterated [] c = plain c
transliterated ((n, latin) ∷ rest) c =
    let other = transliterated rest c in if n == code c then latin else other

unfoldable pub slug : String → String
unfolding transliterated
slug String.[] = ""
slug (String.◌∷◌ c s) = transliterated translit c <> slug s

abbrev pub or_text : String → String → String
or_text a b = if is_empty a then b else a

abbrev pub first_or : String → List String → String
first_or label [] = label
first_or label (p ∷ ps) = p

module _ (lower : String → String) where
  unfoldable pub slugify : String → String
  unfolding slug
  slugify text = slug (lower text)

  unfoldable pub base_name : String → String
  unfolding normalize_tag before_first split_words strip slugify
  base_name tag =
      let norm = normalize_tag tag in
      let label = or_text (strip (before_first " - " norm)) norm in
      or_text (slugify (first_or label (split_words label))) (or_text (slugify norm) "server")

tags_test :
    (base_name (λ s. s) "хёллентэлер 🇩🇪 - германия (Без рекламы)" ≡ "hellenteler")
    × (country (λ s. s) "yauk - польша" ≡ "pl")
    × (country (λ s. s) "🇳🇱 yauk" ≡ "nl")
unfolding base_name country
tags_test = (refl, refl, refl)
