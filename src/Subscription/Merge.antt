-- ===== src/Subscription/Merge.antt =====
-- What the merge of two dicts holds, and which payloads pass the checks.
use virtual_private_network.Prelude.{
  ℕ, zero, suc, ap, String, ◌≡◌, refl, ◌∙◌, Bool, true, false, not, ◌&&◌, Option, none, some, arith,
  str_eq, eq_iff, if◌then◌else◌, Bool-cases, inl, inr, is_some,
}
use virtual_private_network.Ports.Env.{Env}
use virtual_private_network.Ports.Effect.{
  Exn, Outcome, ok, raised, subscription_error, attribute_error,
}
use virtual_private_network.Ports.Json.{
  Json, Items, Fields, null, bool, num, real, str, arr, obj, nil, cons, end, field, lookup,
}
use virtual_private_network.Subscription.{
  put, merge_fields, merge_profile, normalize_profile, has_vless, has_type, is_text, nth, items_in,
  items_of, checked_list, validated, validate_profile,
}

-- A dict has no key twice.
abbrev pub distinct_keys : Fields → Bool
distinct_keys end = true
distinct_keys (field k v fs) = not (is_some (lookup k fs)) && distinct_keys fs

abbrev pub first_of : Option Json → Option Json → Option Json
first_of none o = o
first_of (some v) o = some v

pub lookup-put :
    (k j : String) (v : Json) (fs : Fields)
    → lookup k (put j v fs) ≡ (if str_eq j k then some v else lookup k fs)
unfolding lookup put
lookup-put k j v end = refl
lookup-put k j v (field i w fs) =
    ground (arith, lookup-put k j v fs, eq_iff i j, eq_iff i k, eq_iff j k)

lookup-merge_fields :
    (k : String) (baseline subscription : Fields)
    → distinct_keys subscription ≡ true
    → lookup k (merge_fields baseline subscription)
      ≡ first_of (lookup k subscription) (lookup k baseline)
unfolding lookup merge_fields
lookup-merge_fields k baseline end h = refl
lookup-merge_fields k baseline (field j v fs) h =
    lookup-merge_fields k (put j v baseline) fs (ground arith) ∙ elim (Bool-cases (str_eq j k)) [
      | inl e ↦
          let same : j ≡ k = ground (arith, eq_iff j k) in
          let absent : is_some (lookup j fs) ≡ false = ground arith in
          let gone : lookup k fs ≡ none = missing (lookup k fs) (rw same at absent) in
          rw (lookup-put k j v baseline, gone, e) refl
      | inr e ↦ rw (lookup-put k j v baseline, e) refl
    ]
  where
    missing : (o : Option Json) → is_some o ≡ false → o ≡ none
    missing none p = refl
    missing (some x) p = cc

-- The merge renames the groups of a dict that holds, under every key, the subscription's value, and
-- the baseline's where the subscription has none. The subscription has no key twice.
pub merge_profile-lookup :
    (subscription baseline : Fields)
    → distinct_keys subscription ≡ true
    → (merged : Fields) × (merge_profile subscription baseline ≡ normalize_profile (obj merged))
      × ((k : String) → lookup k merged ≡ first_of (lookup k subscription) (lookup k baseline))
unfolding merge_profile
merge_profile-lookup subscription baseline h =
    (merge_fields baseline subscription, refl, λ k. lookup-merge_fields k baseline subscription h)

-- Somewhere among the outbounds is a dict of the type vless.
abbrev pub HasVless : Items → Type 0
HasVless xs =
    (i : ℕ) × (fs : Fields) × (nth i xs ≡ some (obj fs)) × (lookup "type" fs ≡ some (str "vless"))

-- A dict is refused with a SubscriptionError, all else has no method `get`.
abbrev pub Refused : Json → Exn → Type 0
Refused (obj fs) e = (reason : String) × (e ≡ subscription_error reason)
Refused _ e = e ≡ attribute_error "get"

-- What the checks make of a profile with these outbounds.
abbrev pub Listed : Json → Items → Outcome Json → Type 0
Listed j xs (ok data') = (data' ≡ j) × HasVless xs
Listed j xs (raised e) = ¬ HasVless xs × Refused j e

-- And of a payload that was parsed, or is no JSON.
abbrev pub Judged : Option Json → Outcome Json → Type 0
Judged (some j) r = Listed j (items_of j) r
Judged none r = r ≡ raised (subscription_error "subscription is not valid JSON")

text_vless : (o : Option Json) → is_text "vless" o ≡ true → o ≡ some (str "vless")
text_vless (some (str s)) h = ap (λ t. some (str t)) ((eq_iff s "vless").0 h)
text_vless none h = cc
text_vless (some null) h = cc
text_vless (some (bool b)) h = cc
text_vless (some (num n)) h = cc
text_vless (some (real n)) h = cc
text_vless (some (arr xs)) h = cc
text_vless (some (obj gs)) h = cc

type_vless :
    (o : Json)
    → has_type "vless" o ≡ true
    → (fs : Fields) × (o ≡ obj fs) × (lookup "type" fs ≡ some (str "vless"))
type_vless (obj fs) h = (fs, refl, text_vless (lookup "type" fs) h)
type_vless (arr xs) h = cc
type_vless null h = cc
type_vless (bool b) h = cc
type_vless (num n) h = cc
type_vless (real n) h = cc
type_vless (str s) h = cc

has_vless-found : (xs : Items) → has_vless xs ≡ true → HasVless xs
unfolding has_vless nth
has_vless-found nil h = cc
has_vless-found (cons o rest) h = elim (Bool-cases (has_type "vless" o)) [
  | inl c ↦ let (fs, e, t) = type_vless o c in (zero, fs, ap some e, t)
  | inr c ↦
      let later : has_vless rest ≡ true = rw c at h in
      let (i, fs, e, t) = has_vless-found rest later in (suc i, fs, e, t)
]

has_vless-none :
    (xs : Items) (i : ℕ) (fs : Fields)
    → has_vless xs ≡ false
    → nth i xs ≡ some (obj fs)
    → ¬ (lookup "type" fs ≡ some (str "vless"))
unfolding has_vless nth
has_vless-none nil i fs h n t = cc
has_vless-none (cons o rest) zero fs h n t =
    let same : o ≡ obj fs = cc in
    let typed : has_type "vless" o ≡ true = rw (same, t) refl in ground (arith, typed)
has_vless-none (cons o rest) (suc i) fs h n t = elim (Bool-cases (has_vless rest)) [
  | inr c ↦ has_vless-none rest i fs c n t
  | inl c ↦ ground (arith, c)
]

none_listed : ¬ HasVless nil
unfolding nth
none_listed (i, fs, n, t) = cc

judge_list :
    (fs : Fields) (o : Option Json) → Listed (obj fs) (items_in o) (checked_list (obj fs) o)
judge_list fs none = (none_listed, (_, refl))
judge_list fs (some null) = (none_listed, (_, refl))
judge_list fs (some (bool b)) = (none_listed, (_, refl))
judge_list fs (some (num n)) = (none_listed, (_, refl))
judge_list fs (some (real n)) = (none_listed, (_, refl))
judge_list fs (some (str s)) = (none_listed, (_, refl))
judge_list fs (some (obj gs)) = (none_listed, (_, refl))
judge_list fs (some (arr nil)) = (none_listed, (_, refl))
judge_list fs (some (arr (cons x xs))) = elim (Bool-cases (has_vless (cons x xs))) [
  | inl c ↦ rw c (refl, has_vless-found (cons x xs) c)
  | inr c ↦ rw c (λ (i, gs, n, t). has_vless-none (cons x xs) i gs c n t, (_, refl))
]

judge : (o : Option Json) → Judged o (validated o)
judge none = refl
judge (some (obj fs)) = judge_list fs (lookup "outbounds" fs)
judge (some null) = (none_listed, refl)
judge (some (bool b)) = (none_listed, refl)
judge (some (num n)) = (none_listed, refl)
judge (some (real n)) = (none_listed, refl)
judge (some (str s)) = (none_listed, refl)
judge (some (arr xs)) = (none_listed, refl)

-- A payload that is no JSON is refused with a SubscriptionError. One that is JSON is returned as it
-- was parsed if one of its outbounds, at any position, is a dict of the type vless. If none is, a
-- dict is refused with a SubscriptionError and any other value with an AttributeError.
pub validate_profile-Judged :
    (env : Env) (text : String) → Judged (env.loads text) (validate_profile env text)
unfolding validate_profile
validate_profile-Judged env text = judge (env.loads text)
