-- ===== src/Speedtest/Lock/Exclusion.antt =====
-- Runs whose holders touch the lock in time and are not killed: at most one of them is active.
use virtual_private_network.Prelude.{
  ℕ, ◌+◌, ◌-◌, ◌<◌, ◌≡◌, refl, sym, ◌∙◌, ap, Bool, true, false, Option, none, some, ltb, Bool-cases,
  ◌⊎◌, inl, inr, arith, ◌==◌,
}
use virtual_private_network.Speedtest.Lock.{
  Pc, idle, opening, checking, removing, reopening, held, refused, dead, advance, System, Step,
  begins, advances, touches, releases, passes, update, placed, touch, stale_ttl, initial,
}
use mathlib.Core.Option.{some-injective}

-- The step is nobody's death, and if time passes, a lock that is there stays younger than 900 seconds.
pub data Careful {s : System} : (t : System) → Step s t → Type 0 where
  careful_begin : {i : ℕ} {h : s.pc i ≡ idle} → Careful _ (begins i h)
  careful_advance : {i : ℕ} → Careful _ (advances i)
  careful_touch : {i : ℕ} {h : s.pc i ≡ held} → Careful _ (touches i h)
  careful_release : {i : ℕ} {h : s.pc i ≡ held} → Careful _ (releases i h)
  careful_pass :
      {ms : ℕ} → ((m : ℕ) → s.lock ≡ some m → s.now + ms - m < stale_ttl) → Careful _ (passes ms)

pub data Run (s : System) : System → Type 0 where
  start : Run s s
  go_on : {t u : System} → Run s t → (step : Step t u) → Careful u step → Run s u

abbrev calm : Pc → Bool
calm removing = false
calm reopening = false
calm dead = false
calm _ = true

record Sound (s : System) : Type 0 where
  quiet : (i : ℕ) → calm (s.pc i) ≡ true
  alone : (i j : ℕ) → s.pc i ≡ held → s.pc j ≡ held → i ≡ j
  free : s.lock ≡ none → (i : ℕ) → ¬ (s.pc i ≡ held)
  fresh : (m : ℕ) → s.lock ≡ some m → s.now - m < stale_ttl

update-at :
    (i j : ℕ) (p : Pc) (f : ℕ → Pc) → ((i ≡ j) × (update i p f j ≡ p)) ⊎ (update i p f j ≡ f j)
update-at i j p f = elim (Bool-cases (i == j)) [
  | inl c ↦ inl (ground arith, rw c refl)
  | inr c ↦ inr (rw c refl)
]

replaced :
    (s : System) (i : ℕ) (p : Pc)
    → calm p ≡ true
    → (p ≡ held → s.pc i ≡ held)
    → Sound s
    → Sound (record s { pc = update i p s.pc })
replaced s i p c back sound = record {
  quiet = λ j. elim (update-at i j p s.pc) [ inl (e, h) ↦ rw h c | inr h ↦ rw h (sound.quiet j) ];
  alone = λ j k a b. sound.alone j k (was j a) (was k b);
  free = λ none_there j a. sound.free none_there j (was j a);
  fresh = sound.fresh;
}
  where
    was : (j : ℕ) → update i p s.pc j ≡ held → s.pc j ≡ held
    was j a = elim (update-at i j p s.pc) [
      | inl (e, h) ↦ rw (sym e) (back (sym h ∙ a))
      | inr h ↦ sym h ∙ a
    ]

young : (now m : ℕ) → now - m < stale_ttl → ltb (now - m) stale_ttl ≡ true
young now m h = ground arith

update-same : (i : ℕ) (p : Pc) (f : ℕ → Pc) → update i p f i ≡ p
update-same i p f = ground arith

false_ne_true : ¬ (false ≡ true)
false_ne_true h = cc

-- A call of a calm process on a lock that is fresh: it claims a lock that is free, or leaves the lock
-- and does not come to hold it.
advance-cases :
    (now : ℕ) (p : Pc) (lock : Option ℕ)
    → calm p ≡ true
    → ((m : ℕ) → lock ≡ some m → now - m < stale_ttl)
    → ((lock ≡ none) × (advance now p lock ≡ (held, some now)))
      ⊎ ((calm (advance now p lock).0 ≡ true)
          × ((advance now p lock).1 ≡ lock)
          × ((advance now p lock).0 ≡ held → p ≡ held))
unfolding advance
advance-cases now idle lock c fresh = inr (refl, refl, λ h. h)
advance-cases now held lock c fresh = inr (refl, refl, λ h. h)
advance-cases now refused lock c fresh = inr (refl, refl, λ h. h)
advance-cases now opening none c fresh = inl (refl, refl)
advance-cases now opening (some m) c fresh = inr (refl, refl, λ h. cc)
advance-cases now checking none c fresh = inr (refl, refl, λ h. cc)
advance-cases now removing lock c fresh = absurd (false_ne_true c)
advance-cases now reopening lock c fresh = absurd (false_ne_true c)
advance-cases now dead lock c fresh = absurd (false_ne_true c)
advance-cases now checking (some m) c fresh =
    rw (young now m (fresh m refl)) (inr (refl, refl, λ h. cc))

claimed :
    (s : System) (i : ℕ)
    → s.lock ≡ none
    → Sound s
    → Sound (record s { pc = update i held s.pc; lock = some s.now })
claimed s i e sound = record {
  quiet =
      λ j. elim (update-at i j held s.pc) [ inl (x, h) ↦ rw h refl | inr h ↦ rw h (sound.quiet j) ];
  alone = λ j k a b. sym (only j a) ∙ only k b;
  free = λ h. cc;
  fresh = λ m h. younger m (some-injective s.now m h);
}
  where
    only : (j : ℕ) → update i held s.pc j ≡ held → i ≡ j
    only j a = elim (update-at i j held s.pc) [
      | inl (x, h) ↦ x
      | inr h ↦ absurd (sound.free e j (sym h ∙ a))
    ]

    younger : (m : ℕ) → s.now ≡ m → s.now - m < stale_ttl
    younger m h = ground arith

advanced : (s : System) (i : ℕ) → Sound s → Sound (placed i s (advance s.now (s.pc i) s.lock))
advanced s i sound = elim (advance-cases s.now (s.pc i) s.lock (sound.quiet i) sound.fresh) [
  | inl (e, h) ↦ rw h (claimed s i e sound)
  | inr (c, same, back) ↦ rw same (replaced s i _ c back sound)
]

touched :
    (s : System) (lock : Option ℕ)
    → s.lock ≡ lock
    → Sound s
    → Sound (record s { lock = touch s.now lock })
touched s none e sound = record {
  quiet = sound.quiet;
  alone = sound.alone;
  free = λ h. sound.free e;
  fresh = λ m h. cc;
}
touched s (some l) e sound = record {
  quiet = sound.quiet;
  alone = sound.alone;
  free = λ h. cc;
  fresh = λ m h. younger m (some-injective s.now m h);
}
  where
    younger : (m : ℕ) → s.now ≡ m → s.now - m < stale_ttl
    younger m h = ground arith

released :
    (s : System) (i : ℕ)
    → s.pc i ≡ held
    → Sound s
    → Sound (record s { pc = update i idle s.pc; lock = none })
released s i h sound = record {
  quiet = freed.quiet;
  alone = freed.alone;
  free = λ e. nobody;
  fresh = λ m e. cc;
}
  where
    freed : Sound (record s { pc = update i idle s.pc })
    freed = replaced s i idle refl (λ a. h) sound

    differ : {x y : Pc} → y ≡ held → x ≡ idle → x ≡ y → ⊥
    differ a b c = cc

    nobody : (j : ℕ) → ¬ (update i idle s.pc j ≡ held)
    nobody j a = elim (update-at i j idle s.pc) [
      | inl (x, e) ↦ differ a e refl
      | inr e ↦
          differ a (update-same i idle s.pc)
            (ap (update i idle s.pc) (sound.alone i j h (sym e ∙ a)))
    ]

step-Sound : {s t : System} (step : Step s t) → Careful t step → Sound s → Sound t
step-Sound {s} _ (careful_begin {i}) sound = replaced s i opening refl (λ h. cc) sound
step-Sound {s} _ (careful_advance {i}) sound = advanced s i sound
step-Sound {s} _ (careful_touch {i} {h}) sound = touched s s.lock refl sound
step-Sound {s} _ (careful_release {i} {h}) sound = released s i h sound
step-Sound {s} _ (careful_pass {ms} h) sound = record {
  quiet = sound.quiet;
  alone = sound.alone;
  free = sound.free;
  fresh = h;
}

initial-Sound : (time : ℕ) → Sound (initial time)
initial-Sound time = record {
  quiet = λ i. refl;
  alone = λ i j a b. cc;
  free = λ h i a. cc;
  fresh = λ m h. cc;
}

run-Sound : {s t : System} → Run s t → Sound s → Sound t
run-Sound start sound = sound
run-Sound (go_on run step careful) sound = step-Sound step careful (run-Sound run sound)

-- From a moment without a lock file, whatever the processes do: if nobody who holds the lock is
-- killed and the lock never gets 900 seconds old without a touch, at most one process holds it.
pub held_unique :
    (time : ℕ) (s : System) (i j : ℕ) → Run (initial time) s → s.pc i ≡ held → s.pc j ≡ held → i ≡ j
held_unique time s i j run a b = (run-Sound run (initial-Sound time)).alone i j a b
