-- ===== src/Subscription.antt =====
-- core/subscription.py: the checks on a downloaded profile, its merge onto the local baseline, and
-- the renaming of the group that selects a server. A dict is the list of its fields in order.
pub mod Merge
pub mod Apply
pub mod References
pub mod Renames
pub mod Settles
use virtual_private_network.Prelude.{
  ℕ, zero, suc, ◌+◌, String, Bool, true, false, not, ◌&&◌, ◌||◌, Option, none, some, str_eq,
  if◌then◌else◌,
}
use virtual_private_network.Ports.Effect.{Outcome, ok, raised, attribute_error, subscription_error}
use virtual_private_network.Ports.Env.{Env}
use virtual_private_network.Ports.Json
use virtual_private_network.Ports.Json.{
  Json, Items, Fields, null, bool, num, real, str, arr, obj, nil, cons, end, field, lookup, truthy,
}

abbrev pub switch_tag : String
switch_tag = "urltest_out"

abbrev pub is_text : String → Option Json → Bool
is_text k (some (str s)) = str_eq s k
is_text k _ = false

-- `isinstance(o, dict) and o.get("type") == kind`
abbrev pub has_type : String → Json → Bool
has_type kind (obj fs) = is_text kind (lookup "type" fs)
has_type kind _ = false

unfoldable pub has_vless : Items → Bool
has_vless nil = false
has_vless (cons o rest) = has_type "vless" o || has_vless rest

abbrev pub checked_list : Json → Option Json → Outcome Json
checked_list data' (some (arr (cons o rest))) =
    if has_vless (cons o rest)
    then ok data'
    else raised (subscription_error "subscription has no vless outbounds")
checked_list data' _ = raised (subscription_error "subscription has no outbounds")

-- What is no dict has no method `get`.
abbrev pub checked : Json → Outcome Json
checked (obj fs) = checked_list (obj fs) (lookup "outbounds" fs)
checked _ = raised (attribute_error "get")

abbrev pub validated : Option Json → Outcome Json
validated none = raised (subscription_error "subscription is not valid JSON")
validated (some data') = checked data'

unfoldable pub validate_profile : Env → String → Outcome Json
unfolding has_vless
validate_profile env text = validated (env.loads text)

-- A text in a dict is replaced; a text that stands in a list is not.
unfoldable mutual
  pub replace_refs : String → String → Json → Json
  replace_refs old new (obj fs) = obj (replace_fields old new fs)
  replace_refs old new (arr xs) = arr (replace_items old new xs)
  replace_refs old new null = null
  replace_refs old new (bool b) = bool b
  replace_refs old new (num n) = num n
  replace_refs old new (real n) = real n
  replace_refs old new (str s) = str s

  pub replace_items : String → String → Items → Items
  replace_items old new nil = nil
  replace_items old new (cons x xs) = cons (replace_refs old new x) (replace_items old new xs)

  pub replace_fields : String → String → Fields → Fields
  replace_fields old new end = end
  replace_fields old new (field k (str s) fs) =
      field k (str (if str_eq s old then new else s)) (replace_fields old new fs)
  replace_fields old new (field k v fs) =
      field k (replace_refs old new v) (replace_fields old new fs)

-- `d[key] = value`: in place, or at the end.
unfoldable pub put : String → Json → Fields → Fields
put k v end = field k v end
put k v (field j w fs) = if str_eq j k then field j v fs else field j w (put k v fs)

-- The tag of a group that selects a server, where it is neither missing nor the right one: from the
-- values of "type" and "tag".
abbrev pub foreign_of : Option Json → Option Json → Option Json
foreign_of kind none = none
foreign_of kind (some tag) =
    if (is_text "urltest" kind || is_text "selector" kind)
      && truthy tag
      && not (is_text switch_tag (some tag))
    then some tag
    else none

abbrev pub foreign_tag : Json → Option Json
foreign_tag (obj fs) = foreign_of (lookup "type" fs) (lookup "tag" fs)
foreign_tag _ = none

abbrev pub set_tag : Json → Json
set_tag (obj fs) = obj (put "tag" (str switch_tag) fs)
set_tag j = j

unfoldable pub nth : ℕ → Items → Option Json
nth i nil = none
nth zero (cons x xs) = some x
nth (suc i) (cons x xs) = nth i xs

unfoldable pub set_tag_at : ℕ → Items → Items
unfolding put
set_tag_at i nil = nil
set_tag_at zero (cons x xs) = cons (set_tag x) xs
set_tag_at (suc i) (cons x xs) = cons x (set_tag_at i xs)

-- A tag that is no text is not found by the search for references.
abbrev pub replace_tag : Json → Json → Json
replace_tag (str tag) data' = replace_refs tag switch_tag data'
replace_tag _ data' = data'

abbrev pub items_in : Option Json → Items
items_in (some (arr xs)) = xs
items_in _ = nil

abbrev pub items_of : Json → Items
items_of (obj fs) = items_in (lookup "outbounds" fs)
items_of _ = nil

abbrev pub with_items : Items → Json → Json
with_items xs (obj fs) = obj (put "outbounds" (arr xs) fs)
with_items xs j = j

abbrev pub renamed : ℕ → Json → Option Json → Json
renamed i data' none = data'
renamed i data' (some tag) = replace_tag tag (with_items (set_tag_at i (items_of data')) data')

abbrev pub round : ℕ → Json → Option Json → Json
round i data' none = data'
round i data' (some outbound) = renamed i data' (foreign_tag outbound)

-- The body of the loop for the outbound at a position; the dicts are changed in place, so each
-- round sees what the ones before have renamed.
unfoldable pub normalize_at : ℕ → Json → Json
unfolding nth set_tag_at put
normalize_at i data' = round i data' (nth i (items_of data'))

unfoldable pub normalize_from : ℕ → ℕ → Json → Json
unfolding normalize_at
normalize_from zero i data' = data'
normalize_from (suc left) i data' = normalize_from left (suc i) (normalize_at i data')

unfoldable pub count_items : Items → ℕ
count_items nil = 0
count_items (cons x xs) = suc (count_items xs)

-- The list of outbounds keeps its length, so it has that many rounds.
unfoldable pub normalize_profile : Json → Json
unfolding normalize_from count_items
normalize_profile data' = normalize_from (count_items (items_of data')) 0 data'

-- `{**baseline, **subscription}`
unfoldable pub merge_fields : Fields → Fields → Fields
unfolding put
merge_fields baseline end = baseline
merge_fields baseline (field k v fs) = merge_fields (put k v baseline) fs

unfoldable pub merge_profile : Fields → Fields → Json
unfolding merge_fields normalize_profile
merge_profile subscription baseline = normalize_profile (obj (merge_fields baseline subscription))
