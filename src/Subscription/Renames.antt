-- ===== src/Subscription/Renames.antt =====
-- What the renaming of a tag does to the tags and types of the outbounds.
use virtual_private_network.Prelude.{
  String, ◌≡◌, refl, ap, ◌∙◌, Bool, true, false, not, ◌||◌, Option, none, some, arith, str_eq,
  eq_iff, if◌then◌else◌, Bool-cases, inl, inr,
}
use virtual_private_network.Ports.Json.{
  Json, Fields, null, bool, num, real, str, arr, obj, nil, cons, end, field, lookup, truthy,
}
use virtual_private_network.Subscription.{
  switch_tag, is_text, foreign_of, foreign_tag, set_tag, items_in, items_of, replace_refs,
  replace_items, replace_fields,
}
use virtual_private_network.Subscription.Merge.{lookup-put}

-- What the renaming makes of a value in a dict, and of what is found under a key.
abbrev value_after : String → Json → Json
value_after old (str s) = str (if str_eq s old then switch_tag else s)
value_after old v = replace_refs old switch_tag v

abbrev found_after : String → Option Json → Option Json
found_after old none = none
found_after old (some v) = some (value_after old v)

replace_fields-step :
    (old k : String) (v : Json) (fs : Fields)
    → replace_fields old switch_tag (field k v fs)
      ≡ field k (value_after old v) (replace_fields old switch_tag fs)
unfolding replace_refs
replace_fields-step old k (str s) fs = refl
replace_fields-step old k (obj gs) fs = refl
replace_fields-step old k (arr xs) fs = refl
replace_fields-step old k null fs = refl
replace_fields-step old k (bool b) fs = refl
replace_fields-step old k (num n) fs = refl
replace_fields-step old k (real n) fs = refl

lookup-replace_end : (k old : String) → lookup k (replace_fields old switch_tag end) ≡ none
unfolding lookup replace_refs
lookup-replace_end k old = refl

lookup-replace_fields :
    (k old : String) (fs : Fields)
    → lookup k (replace_fields old switch_tag fs) ≡ found_after old (lookup k fs)
unfolding lookup
lookup-replace_fields k old end = lookup-replace_end k old
lookup-replace_fields k old (field j v fs) =
    ap (lookup k) (replace_fields-step old j v fs) ∙ elim (Bool-cases (str_eq j k)) [
      | inl c ↦ rw c refl
      | inr c ↦ rw c (lookup-replace_fields k old fs)
    ]

items_in_after :
    (old : String) (o : Option Json)
    → items_in (found_after old o) ≡ replace_items old switch_tag (items_in o)
unfolding replace_refs
items_in_after old none = refl
items_in_after old (some (str s)) = refl
items_in_after old (some (obj gs)) = refl
items_in_after old (some (arr xs)) = refl
items_in_after old (some null) = refl
items_in_after old (some (bool b)) = refl
items_in_after old (some (num n)) = refl
items_in_after old (some (real n)) = refl

pub items_of-replace_refs :
    (old : String) (j : Json)
    → items_of (replace_refs old switch_tag j) ≡ replace_items old switch_tag (items_of j)
unfolding replace_refs
items_of-replace_refs old (obj fs) =
    ap items_in (lookup-replace_fields "outbounds" old fs)
    ∙ items_in_after old (lookup "outbounds" fs)
items_of-replace_refs old (str s) = refl
items_of-replace_refs old (arr xs) = refl
items_of-replace_refs old null = refl
items_of-replace_refs old (bool b) = refl
items_of-replace_refs old (num n) = refl
items_of-replace_refs old (real n) = refl

is_switch-not_group :
    (s : String) → str_eq s switch_tag ≡ true → (str_eq s "urltest" || str_eq s "selector") ≡ false
is_switch-not_group s h =
    let same : s ≡ switch_tag = ground (arith, eq_iff s switch_tag) in rw same refl

is_group : Option Json → Bool
is_group kind = is_text "urltest" kind || is_text "selector" kind

-- What is no group that selects does not become one, and a settled tag stays settled.
is_group_after :
    (old : String) (kind : Option Json)
    → is_group kind ≡ false
    → is_group (found_after old kind) ≡ false
unfolding is_group replace_refs
is_group_after old none h = refl
is_group_after old (some (str s)) h = elim (Bool-cases (str_eq s old)) [
  | inl c ↦ rw c refl
  | inr c ↦ rw c h
]
is_group_after old (some (obj gs)) h = refl
is_group_after old (some (arr xs)) h = refl
is_group_after old (some null) h = refl
is_group_after old (some (bool b)) h = refl
is_group_after old (some (num n)) h = refl
is_group_after old (some (real n)) h = refl

-- The tag is false in Python's sense, or the switcher's.
quiet : Json → Bool
quiet tag = not (truthy tag) || is_text switch_tag (some tag)

quiet_after :
    (old : String) (tag : Json)
    → str_eq old switch_tag ≡ false
    → quiet tag ≡ true
    → quiet (value_after old tag) ≡ true
unfolding quiet replace_refs truthy
quiet_after old (str s) d h = elim (Bool-cases (str_eq s old)) [
  | inl c ↦ rw c refl
  | inr c ↦ rw c h
]
quiet_after old (obj end) d h = refl
quiet_after old (obj (field k v fs)) d h = cc
quiet_after old (arr nil) d h = refl
quiet_after old (arr (cons x xs)) d h = cc
quiet_after old null d h = refl
quiet_after old (bool b) d h = h
quiet_after old (num n) d h = h
quiet_after old (real n) d h = h

settled_of : Option Json → Option Json → Bool
settled_of kind none = true
settled_of kind (some tag) = not (is_group kind) || quiet tag

-- The outbound is no group that selects, or has no other tag than the switcher's.
unfoldable pub settled : Json → Bool
unfolding settled_of is_group quiet
settled (obj fs) = settled_of (lookup "type" fs) (lookup "tag" fs)
settled _ = true

settled_of-none : (kind tag : Option Json) → foreign_of kind tag ≡ none → settled_of kind tag ≡ true
unfolding settled_of is_group quiet
settled_of-none kind none h = refl
settled_of-none kind (some tag) h = ground arith

pub settled-none : (o : Json) → foreign_tag o ≡ none → settled o ≡ true
unfolding settled
settled-none (obj fs) h = settled_of-none (lookup "type" fs) (lookup "tag" fs) h
settled-none (arr xs) h = refl
settled-none null h = refl
settled-none (bool b) h = refl
settled-none (num n) h = refl
settled-none (real n) h = refl
settled-none (str s) h = refl

pub settled-set_tag : (o : Json) → settled (set_tag o) ≡ true
unfolding settled
settled-set_tag (obj fs) = rw (lookup-put "tag" "tag" (str switch_tag) fs) (ground arith)
settled-set_tag (arr xs) = refl
settled-set_tag null = refl
settled-set_tag (bool b) = refl
settled-set_tag (num n) = refl
settled-set_tag (real n) = refl
settled-set_tag (str s) = refl

settled_of_after :
    (old : String) (kind tag : Option Json)
    → str_eq old switch_tag ≡ false
    → settled_of kind tag ≡ true
    → settled_of (found_after old kind) (found_after old tag) ≡ true
unfolding settled_of
settled_of_after old kind none d h = refl
settled_of_after old kind (some tag) d h =
    ground (arith, is_group_after old kind, quiet_after old tag)

pub settled-replace_refs :
    (old : String) (o : Json)
    → str_eq old switch_tag ≡ false
    → settled o ≡ true
    → settled (replace_refs old switch_tag o) ≡ true
unfolding settled replace_refs
settled-replace_refs old (obj fs) d h =
    rw (lookup-replace_fields "type" old fs, lookup-replace_fields "tag" old fs)
      (settled_of_after old (lookup "type" fs) (lookup "tag" fs) d h)
settled-replace_refs old (arr xs) d h = refl
settled-replace_refs old null d h = refl
settled-replace_refs old (bool b) d h = refl
settled-replace_refs old (num n) d h = refl
settled-replace_refs old (real n) d h = refl
settled-replace_refs old (str s) d h = refl
