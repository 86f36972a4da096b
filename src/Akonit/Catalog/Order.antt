-- ===== src/Akonit/Catalog/Order.antt =====
-- The order of the catalog, and what is found in it.
use virtual_private_network.Prelude.{
  suc, String, ◌≡◌, refl, sym, ap, ◌∙◌, Bool, true, false, some, List, [], ◌∷◌, map, length, str_eq,
  eq_iff, Bool-cases, inl, inr, arith, if◌then◌else◌,
}
use virtual_private_network.Ports.Env.{ServerInfo}
use virtual_private_network.Ports.Effect.{ok}
use virtual_private_network.Ports.Json.{Fields, Items, arr, obj, lookup, elements}
use virtual_private_network.Akonit.Catalog.{
  Entry, entries, server_of, insert_server, by_name, build_catalog,
}

-- No server stands directly after one with a greater name.
module _ (before : String → String → Bool) where
  abbrev FirstFits : ServerInfo → List ServerInfo → Type 0
  FirstFits x [] = Unit
  FirstFits x (y ∷ ys) = before y.name x.name ≡ false

  pub data IsOrdered : List ServerInfo → Type 0 where
    none_ordered : IsOrdered []
    next_ordered :
        {x : ServerInfo} {xs : List ServerInfo} → FirstFits x xs → IsOrdered xs → IsOrdered (x ∷ xs)

  module _ (asymmetric : (a b : String) → before a b ≡ true → before b a ≡ false) where
    FirstFits-insert :
        (x y : ServerInfo) (ys : List ServerInfo)
        → before y.name x.name ≡ true
        → FirstFits y ys
        → FirstFits y (insert_server before x ys)
    unfolding insert_server
    FirstFits-insert x y [] h f = asymmetric y.name x.name h
    FirstFits-insert x y (z ∷ zs) h f = elim (Bool-cases (before z.name x.name)) [
      | inl c ↦ rw c f
      | inr c ↦ rw c (asymmetric y.name x.name h)
    ]

    insert_server-IsOrdered :
        (x : ServerInfo) (ys : List ServerInfo)
        → IsOrdered ys
        → IsOrdered (insert_server before x ys)
    unfolding insert_server
    insert_server-IsOrdered x [] o = next_ordered tt none_ordered
    insert_server-IsOrdered x (y ∷ ys) (next_ordered f o) =
        elim (Bool-cases (before y.name x.name)) [
          | inl c ↦
              rw c (next_ordered (FirstFits-insert x y ys c f) (insert_server-IsOrdered x ys o))
          | inr c ↦ rw c (next_ordered c (next_ordered f o))
        ]

    IsOrdered-by_name : (xs : List ServerInfo) → IsOrdered (by_name before xs)
    unfolding by_name
    IsOrdered-by_name [] = none_ordered
    IsOrdered-by_name (x ∷ xs) =
        insert_server-IsOrdered x (by_name before xs) (IsOrdered-by_name xs)

  length-insert_server :
      (x : ServerInfo) (ys : List ServerInfo) → length (insert_server before x ys) ≡ suc (length ys)
  unfolding insert_server
  length-insert_server x [] = refl
  length-insert_server x (y ∷ ys) = ground (arith, length-insert_server x ys)

-- The servers of a name, in their order.
unfoldable pub named : String → List ServerInfo → List ServerInfo
named name [] = []
named name (s ∷ servers) =
    let rest = named name servers in if str_eq s.name name then s ∷ rest else rest

false_ne_true : ¬ (false ≡ true)
false_ne_true h = cc

clash :
    (before : String → String → Bool)
    → ((a : String) → before a a ≡ false)
    → {a b : String} → a ≡ b
    → before a b ≡ true
    → ⊥
clash before irreflexive {a} same c = false_ne_true (sym (irreflexive a) ∙ ap (before a) same ∙ c)

named-insert_server :
    (before : String → String → Bool)
    → ((a : String) → before a a ≡ false)
    → (name : String) (x : ServerInfo) (ys : List ServerInfo)
    → named name (insert_server before x ys) ≡ named name (x ∷ ys)
unfolding named insert_server
named-insert_server before irreflexive name x [] = refl
named-insert_server before irreflexive name x (y ∷ ys) = elim (Bool-cases (before y.name x.name)) [
  | inr c ↦ rw c refl
  | inl c ↦ rw c (
      rw (named-insert_server before irreflexive name x ys)
        (elim (Bool-cases (str_eq x.name name)) [
          | inr e ↦ rw e refl
          | inl e ↦ rw e (rw (differs c e) refl)
        ]))
]
  where
    differs : before y.name x.name ≡ true → str_eq x.name name ≡ true → str_eq y.name name ≡ false
    differs c e = elim (Bool-cases (str_eq y.name name)) [
      | inr f ↦ f
      | inl f ↦
          let same : y.name ≡ x.name = (eq_iff y.name name).0 f ∙ sym ((eq_iff x.name name).0 e) in
          absurd (clash before irreflexive same c)
    ]

named-by_name :
    (before : String → String → Bool)
    → ((a : String) → before a a ≡ false)
    → (name : String) (xs : List ServerInfo) → named name (by_name before xs) ≡ named name xs
unfolding named by_name
named-by_name before irreflexive name [] = refl
named-by_name before irreflexive name (x ∷ xs) =
    named-insert_server before irreflexive name x (by_name before xs)
    ∙ rw (named-by_name before irreflexive name xs) refl

-- For a profile whose outbounds give these entries, in an asymmetric order of texts: the catalog is
-- returned, it is sorted by the names, and under each name it has the servers of the entries, in the
-- order of the profile.
pub build_catalog-IsOrdered :
    {S : Type 0} (before : String → String → Bool)
    → ((a b : String) → before a b ≡ true → before b a ≡ false)
    → (lower : String → String) (fs : Fields) (items : Items) (all : List Entry) (name : String)
      (s : S)
    → lookup "outbounds" fs ≡ some (arr items)
    → entries lower (elements items) s ≡ (ok all, s)
    → (catalog : List ServerInfo) × (build_catalog before lower (obj fs) s ≡ (ok catalog, s))
      × IsOrdered before catalog
      × (named name catalog ≡ named name (map (server_of all) all))
unfolding build_catalog
build_catalog-IsOrdered before asymmetric lower fs items all name s listed read =
    let servers = map (server_of all) all in
    (
      by_name before servers,
      rw listed (rw read refl),
      IsOrdered-by_name before asymmetric servers,
      named-by_name before irreflexive name servers,
    )
  where
    irreflexive : (a : String) → before a a ≡ false
    irreflexive a = elim (Bool-cases (before a a)) [ inl c ↦ asymmetric a a c | inr c ↦ c ]
