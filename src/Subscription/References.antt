-- ===== src/Subscription/References.antt =====
-- What the renaming of a tag does to the references in the dicts of a profile.
use virtual_private_network.Prelude.{
  ℕ, ◌+◌, String, ◌≡◌, ◌≢◌, refl, ap, arith, str_eq, eq_iff, if◌then◌else◌, List, [], ◌∷◌, ◌++◌,
  map,
}
use virtual_private_network.Ports.Json.{
  Json, Items, Fields, null, bool, num, real, str, arr, obj, nil, cons, end, field,
}
use virtual_private_network.Subscription.{replace_refs, replace_items, replace_fields}

-- How often a text stands as a value in a dict, anywhere in the profile.
unfoldable mutual
  pub refs : String → Json → ℕ
  refs t (obj fs) = refs_fields t fs
  refs t (arr xs) = refs_items t xs
  refs t null = 0
  refs t (bool b) = 0
  refs t (num n) = 0
  refs t (real n) = 0
  refs t (str s) = 0

  pub refs_items : String → Items → ℕ
  refs_items t nil = 0
  refs_items t (cons x xs) = refs t x + refs_items t xs

  pub refs_fields : String → Fields → ℕ
  refs_fields t end = 0
  refs_fields t (field k (str s) fs) = (if str_eq s t then 1 else 0) + refs_fields t fs
  refs_fields t (field k v fs) = refs t v + refs_fields t fs

abbrev Moved : ℕ → ℕ → ℕ → ℕ → Type 0
Moved old new old' new' = (old' ≡ 0) × (new' ≡ new + old)

module _ (old new : String) (distinct : old ≢ new) where
  mutual
    unfolding refs replace_refs

    replace_refs-Moved :
        (j : Json)
        → Moved
            (refs old j)
            (refs new j)
            (refs old (replace_refs old new j))
            (refs new (replace_refs old new j))
    replace_refs-Moved (obj fs) = replace_fields-Moved fs
    replace_refs-Moved (arr xs) = replace_items-Moved xs
    replace_refs-Moved null = (refl, refl)
    replace_refs-Moved (bool b) = (refl, refl)
    replace_refs-Moved (num n) = (refl, refl)
    replace_refs-Moved (real n) = (refl, refl)
    replace_refs-Moved (str s) = (refl, refl)

    replace_items-Moved :
        (xs : Items)
        → Moved
            (refs_items old xs)
            (refs_items new xs)
            (refs_items old (replace_items old new xs))
            (refs_items new (replace_items old new xs))
    replace_items-Moved nil = (refl, refl)
    replace_items-Moved (cons x xs) =
        let (a, b) = replace_refs-Moved x in
        let (c, d) = replace_items-Moved xs in (omega arith, omega arith)

    replace_fields-Moved :
        (fs : Fields)
        → Moved
            (refs_fields old fs)
            (refs_fields new fs)
            (refs_fields old (replace_fields old new fs))
            (refs_fields new (replace_fields old new fs))
    replace_fields-Moved end = (refl, refl)
    replace_fields-Moved (field k (str s) fs) =
        let (c, d) = replace_fields-Moved fs in
        (
          ground (arith, eq_iff s old, eq_iff s new, eq_iff new old, eq_iff new new),
          ground (arith, eq_iff s old, eq_iff s new, eq_iff new old, eq_iff new new),
        )
    replace_fields-Moved (field k (obj gs) fs) =
        let (a, b) = replace_fields-Moved gs in
        let (c, d) = replace_fields-Moved fs in (omega arith, omega arith)
    replace_fields-Moved (field k (arr xs) fs) =
        let (a, b) = replace_items-Moved xs in
        let (c, d) = replace_fields-Moved fs in (omega arith, omega arith)
    replace_fields-Moved (field k null fs) =
        let (c, d) = replace_fields-Moved fs in (omega arith, omega arith)
    replace_fields-Moved (field k (bool b) fs) =
        let (c, d) = replace_fields-Moved fs in (omega arith, omega arith)
    replace_fields-Moved (field k (num n) fs) =
        let (c, d) = replace_fields-Moved fs in (omega arith, omega arith)
    replace_fields-Moved (field k (real n) fs) =
        let (c, d) = replace_fields-Moved fs in (omega arith, omega arith)

-- The texts that stand as values in the dicts, in their order.
unfoldable mutual
  pub values : Json → List String
  values (obj fs) = values_fields fs
  values (arr xs) = values_items xs
  values null = []
  values (bool b) = []
  values (num n) = []
  values (real n) = []
  values (str s) = []

  values_items : Items → List String
  values_items nil = []
  values_items (cons x xs) = values x ++ values_items xs

  values_fields : Fields → List String
  values_fields end = []
  values_fields (field k (str s) fs) = s ∷ values_fields fs
  values_fields (field k v fs) = values v ++ values_fields fs

-- The profile with an empty text in the place of each of these.
unfoldable mutual
  pub erased : Json → Json
  erased (obj fs) = obj (erased_fields fs)
  erased (arr xs) = arr (erased_items xs)
  erased null = null
  erased (bool b) = bool b
  erased (num n) = num n
  erased (real n) = real n
  erased (str s) = str s

  erased_items : Items → Items
  erased_items nil = nil
  erased_items (cons x xs) = cons (erased x) (erased_items xs)

  erased_fields : Fields → Fields
  erased_fields end = end
  erased_fields (field k (str s) fs) = field k (str "") (erased_fields fs)
  erased_fields (field k v fs) = field k (erased v) (erased_fields fs)

map-append : (f : String → String) (xs ys : List String) → map f (xs ++ ys) ≡ map f xs ++ map f ys
map-append f [] ys = refl
map-append f (x ∷ xs) ys = ap (λ l. f x ∷ l) (map-append f xs ys)

module _ (old new : String) where
  abbrev pub new_text : String → String
  new_text s = if str_eq s old then new else s

  mutual
    unfolding values replace_refs

    values-replace_refs : (j : Json) → values (replace_refs old new j) ≡ map new_text (values j)
    values-replace_refs (obj fs) = values-replace_fields fs
    values-replace_refs (arr xs) = values-replace_items xs
    values-replace_refs null = refl
    values-replace_refs (bool b) = refl
    values-replace_refs (num n) = refl
    values-replace_refs (real n) = refl
    values-replace_refs (str s) = refl

    values-replace_items :
        (xs : Items) → values_items (replace_items old new xs) ≡ map new_text (values_items xs)
    values-replace_items nil = refl
    values-replace_items (cons x xs) =
        rw
          (
            values-replace_refs x,
            values-replace_items xs,
            map-append new_text (values x) (values_items xs),
          )
          refl

    values-replace_fields :
        (fs : Fields) → values_fields (replace_fields old new fs) ≡ map new_text (values_fields fs)
    values-replace_fields end = refl
    values-replace_fields (field k (str s) fs) = ap (λ l. new_text s ∷ l) (values-replace_fields fs)
    values-replace_fields (field k (obj gs) fs) =
        rw
          (
            values-replace_fields gs,
            values-replace_fields fs,
            map-append new_text (values_fields gs) (values_fields fs),
          )
          refl
    values-replace_fields (field k (arr xs) fs) =
        rw
          (
            values-replace_items xs,
            values-replace_fields fs,
            map-append new_text (values_items xs) (values_fields fs),
          )
          refl
    values-replace_fields (field k null fs) = values-replace_fields fs
    values-replace_fields (field k (bool b) fs) = values-replace_fields fs
    values-replace_fields (field k (num n) fs) = values-replace_fields fs
    values-replace_fields (field k (real n) fs) = values-replace_fields fs

  mutual
    unfolding erased replace_refs

    erased-replace_refs : (j : Json) → erased (replace_refs old new j) ≡ erased j
    erased-replace_refs (obj fs) = ap obj (erased-replace_fields fs)
    erased-replace_refs (arr xs) = ap arr (erased-replace_items xs)
    erased-replace_refs null = refl
    erased-replace_refs (bool b) = refl
    erased-replace_refs (num n) = refl
    erased-replace_refs (real n) = refl
    erased-replace_refs (str s) = refl

    erased-replace_items : (xs : Items) → erased_items (replace_items old new xs) ≡ erased_items xs
    erased-replace_items nil = refl
    erased-replace_items (cons x xs) = rw (erased-replace_refs x, erased-replace_items xs) refl

    erased-replace_fields :
        (fs : Fields) → erased_fields (replace_fields old new fs) ≡ erased_fields fs
    erased-replace_fields end = refl
    erased-replace_fields (field k (str s) fs) = ap (field k (str "")) (erased-replace_fields fs)
    erased-replace_fields (field k (obj gs) fs) =
        rw (erased-replace_fields gs, erased-replace_fields fs) refl
    erased-replace_fields (field k (arr xs) fs) =
        rw (erased-replace_items xs, erased-replace_fields fs) refl
    erased-replace_fields (field k null fs) = ap (field k null) (erased-replace_fields fs)
    erased-replace_fields (field k (bool b) fs) = ap (field k (bool b)) (erased-replace_fields fs)
    erased-replace_fields (field k (num n) fs) = ap (field k (num n)) (erased-replace_fields fs)
    erased-replace_fields (field k (real n) fs) = ap (field k (real n)) (erased-replace_fields fs)

-- The renaming of a tag leaves no dict with the old tag as a value, at any depth. The texts in the
-- dicts, in their order, are those of before with the new tag for the old one, and all else, the
-- texts in lists and the keys included, is as before.
pub refs-replace_refs :
    (old new : String) (j : Json)
    → old ≢ new
    → (refs old (replace_refs old new j) ≡ 0)
      × (refs new (replace_refs old new j) ≡ refs new j + refs old j)
      × (values (replace_refs old new j) ≡ map (new_text old new) (values j))
      × (erased (replace_refs old new j) ≡ erased j)
refs-replace_refs old new j h =
    let (a, b) = replace_refs-Moved old new h j in
    (a, b, values-replace_refs old new j, erased-replace_refs old new j)
