-- ===== src/Subscription/Settles.antt =====
-- After the renaming no group that selects a server has another tag than the switcher's.
use virtual_private_network.Prelude.{
  ℕ, zero, suc, ◌+◌, ◌<◌, String, ◌≡◌, refl, ap, ◌∙◌, sym, Bool, ◌&&◌, true, false, Option, none,
  some, arith, str_eq, eq_iff,
}
use native.Mathlib.Decide.{ℕ_discrete}
use virtual_private_network.Ports.Json.{
  Json, Items, Fields, null, bool, num, real, str, arr, obj, nil, cons, lookup,
}
use virtual_private_network.Subscription.{
  switch_tag, foreign_of, foreign_tag, set_tag, nth, set_tag_at, items_of, with_items, replace_refs,
  replace_items, renamed, round, normalize_at, normalize_from, normalize_profile, count_items,
}
use virtual_private_network.Subscription.Renames.{
  settled, settled-none, settled-set_tag, settled-replace_refs, items_of-replace_refs,
}
use virtual_private_network.Subscription.Merge.{lookup-put}

-- The outbounds before a position are settled.
Upto : ℕ → Items → Type 0
Upto i xs = (j : ℕ) (o : Json) → j < i → nth j xs ≡ some o → settled o ≡ true

Upto-replace_items :
    (old : String) (i : ℕ) (xs : Items)
    → str_eq old switch_tag ≡ false
    → Upto i xs
    → Upto i (replace_items old switch_tag xs)
unfolding Upto nth replace_refs
Upto-replace_items old i nil d u j o l h = cc
Upto-replace_items old i (cons x xs) d u zero o l h =
    let same : replace_refs old switch_tag x ≡ o = cc in
    rw (sym same) (settled-replace_refs old x d (u zero x l refl))
Upto-replace_items old (suc i) (cons x xs) d u (suc j) o l h =
    Upto-replace_items old i xs d (λ k p m e. u (suc k) p (omega arith) e) j o (omega arith) h
Upto-replace_items old zero (cons x xs) d u (suc j) o l h = absurd (omega arith)

Upto-set_tag_at : (i : ℕ) (xs : Items) → Upto i xs → Upto (suc i) (set_tag_at i xs)
unfolding Upto nth set_tag_at
Upto-set_tag_at i nil u j o l h = cc
Upto-set_tag_at zero (cons x xs) u zero o l h =
    let same : set_tag x ≡ o = cc in rw (sym same) (settled-set_tag x)
Upto-set_tag_at zero (cons x xs) u (suc j) o l h = absurd (omega arith)
Upto-set_tag_at (suc i) (cons x xs) u zero o l h = u zero o (omega arith) h
Upto-set_tag_at (suc i) (cons x xs) u (suc j) o l h =
    Upto-set_tag_at i xs (λ k p m e. u (suc k) p (omega arith) e) j o (omega arith) h

count-replace_items :
    (old : String) (xs : Items) → count_items (replace_items old switch_tag xs) ≡ count_items xs
unfolding count_items replace_refs
count-replace_items old nil = refl
count-replace_items old (cons x xs) = ap suc (count-replace_items old xs)

count-set_tag_at : (i : ℕ) (xs : Items) → count_items (set_tag_at i xs) ≡ count_items xs
unfolding count_items set_tag_at
count-set_tag_at i nil = refl
count-set_tag_at zero (cons x xs) = refl
count-set_tag_at (suc i) (cons x xs) = ap suc (count-set_tag_at i xs)

nth-below : (i : ℕ) (xs : Items) (o : Json) → nth i xs ≡ some o → i < count_items xs
unfolding nth count_items
nth-below i nil o h = cc
nth-below zero (cons x xs) o h = omega arith
nth-below (suc i) (cons x xs) o h = omega (arith, nth-below i xs o h)

items_of-with_items : (fs : Fields) (xs : Items) → items_of (with_items xs (obj fs)) ≡ xs
items_of-with_items fs xs = rw (lookup-put "outbounds" "outbounds" (arr xs) fs) refl

-- One round settles its position, and keeps the number of outbounds.
record Round (i : ℕ) (before after : Items) : Type 0 where
  pub settles : Upto i before → Upto (suc i) after
  pub count : count_items after ≡ count_items before

foreign_text : (o : Json) (s : String) → foreign_tag o ≡ some (str s) → str_eq s switch_tag ≡ false
foreign_text (obj fs) s h = from_values (lookup "type" fs) (lookup "tag" fs) h
  where
    from_values :
        (kind tag : Option Json) → foreign_of kind tag ≡ some (str s) → str_eq s switch_tag ≡ false
    from_values kind none e = cc
    from_values kind (some (str t)) e = ground (arith, eq_iff s switch_tag, eq_iff t switch_tag)
    from_values kind (some (obj gs)) e = ground arith
    from_values kind (some (arr xs)) e = ground arith
    from_values kind (some null) e = ground arith
    from_values kind (some (bool b)) e = ground arith
    from_values kind (some (num n)) e = ground arith
    from_values kind (some (real n)) e = ground arith
foreign_text (arr xs) s h = cc
foreign_text null s h = cc
foreign_text (bool b) s h = cc
foreign_text (num n) s h = cc
foreign_text (real n) s h = cc
foreign_text (str t) s h = cc

with_items-Round :
    (i : ℕ) (fs : Fields)
    → Round i
        (items_of (obj fs))
        (items_of (with_items (set_tag_at i (items_of (obj fs))) (obj fs)))
with_items-Round i fs =
    let same = items_of-with_items fs (set_tag_at i (items_of (obj fs))) in
    record {
      settles = λ u. rw same (Upto-set_tag_at i (items_of (obj fs)) u);
      count = rw same (count-set_tag_at i (items_of (obj fs)));
    }

replace_refs-Round :
    (i : ℕ) (old : String) (xs : Items) (j : Json)
    → str_eq old switch_tag ≡ false
    → Round i xs (items_of j)
    → Round i xs (items_of (replace_refs old switch_tag j))
replace_refs-Round i old xs j d r =
    let same = items_of-replace_refs old j in
    record {
      settles = λ u. rw same (Upto-replace_items old (suc i) (items_of j) d (r.settles u));
      count = rw same (count-replace_items old (items_of j) ∙ r.count);
    }

renamed-Round :
    (i : ℕ) (fs : Fields) (o : Json) (tag : Option Json)
    → nth i (items_of (obj fs)) ≡ some o
    → foreign_tag o ≡ tag
    → Round i (items_of (obj fs)) (items_of (renamed i (obj fs) tag))
unfolding Upto
renamed-Round i fs o none n f = record {
  settles = λ u j p l h. elim (ℕ_discrete j i) [
    | yes e ↦
        let here : nth i (items_of (obj fs)) ≡ some p = rw e at h in
        let same : o ≡ p = cc in rw (sym same) (settled-none o f)
    | no e ↦ u j p (omega arith) h
  ];
  count = refl;
}
renamed-Round i fs o (some (str s)) n f =
    replace_refs-Round i s (items_of (obj fs)) _ (foreign_text o s f) (with_items-Round i fs)
renamed-Round i fs o (some (obj gs)) n f = with_items-Round i fs
renamed-Round i fs o (some (arr xs)) n f = with_items-Round i fs
renamed-Round i fs o (some null) n f = with_items-Round i fs
renamed-Round i fs o (some (bool b)) n f = with_items-Round i fs
renamed-Round i fs o (some (num k)) n f = with_items-Round i fs
renamed-Round i fs o (some (real k)) n f = with_items-Round i fs

past_end : (i : ℕ) (xs : Items) → nth i xs ≡ none → Round i xs xs
unfolding Upto
past_end i xs n = record {
  settles = λ u j p l h. elim (ℕ_discrete j i) [
    | yes e ↦ let here : nth i xs ≡ some p = rw e at h in cc
    | no e ↦ u j p (omega arith) h
  ];
  count = refl;
}

round-Round :
    (i : ℕ) (data' : Json) (o : Option Json)
    → nth i (items_of data') ≡ o
    → Round i (items_of data') (items_of (round i data' o))
unfolding nth
round-Round i data' none n = past_end i (items_of data') n
round-Round i (obj fs) (some o) n = renamed-Round i fs o (foreign_tag o) n refl
round-Round i (arr xs) (some o) n = cc
round-Round i null (some o) n = cc
round-Round i (bool b) (some o) n = cc
round-Round i (num k) (some o) n = cc
round-Round i (real k) (some o) n = cc
round-Round i (str s) (some o) n = cc

normalize_at-Round :
    (i : ℕ) (data' : Json) → Round i (items_of data') (items_of (normalize_at i data'))
unfolding normalize_at
normalize_at-Round i data' = round-Round i data' (nth i (items_of data')) refl

normalize_from-Upto :
    (left i : ℕ) (data' : Json)
    → Upto i (items_of data')
    → Upto (left + i) (items_of (normalize_from left i data'))
      × (count_items (items_of (normalize_from left i data')) ≡ count_items (items_of data'))
unfolding normalize_from
normalize_from-Upto zero i data' u = let same : 0 + i ≡ i = omega arith in (rw same u, refl)
normalize_from-Upto (suc left) i data' u =
    let r = normalize_at-Round i data' in
    let (v, c) = normalize_from-Upto left (suc i) (normalize_at i data') (r.settles u) in
    let same : left + suc i ≡ suc left + i = omega arith in (rw same at v, c ∙ r.count)

nothing_before : (xs : Items) → Upto 0 xs
unfolding Upto
nothing_before xs j o l h = absurd (omega arith)

-- Every outbound of the list is settled.
unfoldable pub all_settled : Items → Bool
all_settled nil = true
all_settled (cons x xs) = settled x && all_settled xs

Upto-all_settled : (xs : Items) → Upto (count_items xs) xs → all_settled xs ≡ true
unfolding all_settled Upto nth count_items
Upto-all_settled nil u = refl
Upto-all_settled (cons x xs) u =
    rw (u zero x (omega arith) refl)
      (Upto-all_settled xs (λ j o l h. u (suc j) o (omega (arith, l)) h))

-- After the renaming there are as many outbounds as before, and every one that selects a server (a
-- urltest or selector group) has the switcher's tag, or none that is true in Python's sense.
pub normalize_profile-settled :
    (data' : Json)
    → (count_items (items_of (normalize_profile data')) ≡ count_items (items_of data'))
      × (all_settled (items_of (normalize_profile data')) ≡ true)
unfolding normalize_profile
normalize_profile-settled data' =
    let n = count_items (items_of data') in
    let (u, c) = normalize_from-Upto n 0 data' (nothing_before (items_of data')) in
    let same : n + 0 ≡ n = omega arith in
    let bound : n + 0 ≡ count_items (items_of (normalize_from n 0 data')) = same ∙ sym c in
    (c, Upto-all_settled (items_of (normalize_from n 0 data')) (rw bound at u))
