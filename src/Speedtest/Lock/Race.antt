-- ===== src/Speedtest/Lock/Race.antt =====
-- What `acquire` permits once a lock is stale.
use virtual_private_network.Prelude.{
  ℕ, ◌+◌, ◌-◌, ◌≤◌, ◌≡◌, refl, sym, ◌∙◌, false, Option, some, ltb, ◌≢◌, arith,
}
use virtual_private_network.Speedtest.Lock.{
  Pc, idle, opening, removing, held, check_age, advance, System, Reach, begins, advances, here,
  next, update, placed, stale_ttl,
}

-- Two processes stand at given places, over a given lock, at the time of the start.
abbrev At : ℕ → ℕ → ℕ → System → Pc → Pc → Option ℕ → Type 0
At now i j t p q lock = (t.pc i ≡ p) × (t.pc j ≡ q) × (t.lock ≡ lock) × (t.now ≡ now)

abbrev Reached : System → ℕ → ℕ → Pc → Pc → Option ℕ → Type 0
Reached s i j p q lock = (t : System) × Reach s t × At s.now i j t p q lock

update-same : (i : ℕ) (p : Pc) (f : ℕ → Pc) → update i p f i ≡ p
update-same i p f = ground arith

update-other : (i j : ℕ) (p : Pc) (f : ℕ → Pc) → i ≢ j → update i p f j ≡ f j
update-other i j p f h = ground arith

moved :
    (now i j : ℕ) (t : System) {p q p' : Pc} {lock lock' : Option ℕ}
    → i ≢ j
    → advance now p lock ≡ (p', lock')
    → At now i j t p q lock
    → At now i j (placed i t (advance t.now (t.pc i) t.lock)) p' q lock'
moved now i j t {p} {q} {p'} {lock} {lock'} distinct e (a, b, l, n) =
    (rw called (update-same i p' t.pc), update-other i j _ t.pc distinct ∙ b, rw called refl, n)
  where
    called : advance t.now (t.pc i) t.lock ≡ (p', lock')
    called = rw (n, a, l) e

swapped :
    (now i j : ℕ) (t : System) {p q : Pc} {lock : Option ℕ}
    → At now i j t p q lock
    → At now j i t q p lock
swapped now i j t (a, b, l, n) = (b, a, l, n)

module _ (s : System) (i j : ℕ) (distinct : i ≢ j) where
  swap : {p q : Pc} {lock : Option ℕ} → Reached s i j p q lock → Reached s j i q p lock
  swap (t, run, at) = (t, run, swapped s.now i j t at)

  goes :
      {p q p' : Pc} {lock lock' : Option ℕ}
      → advance s.now p lock ≡ (p', lock')
      → Reached s i j p q lock
      → Reached s i j p' q lock'
  goes e (t, run, at) = (
    placed i t (advance t.now (t.pc i) t.lock),
    next run (advances i),
    moved s.now i j t distinct e at,
  )

  asks : {q : Pc} {lock : Option ℕ} → Reached s i j idle q lock → Reached s i j opening q lock
  asks (t, run, (a, b, l, n)) = (
    record t { pc = update i opening t.pc },
    next run (begins i a),
    (update-same i opening t.pc, update-other i j opening t.pc distinct ∙ b, l, n),
  )

-- A lock that nobody has touched for 900 seconds can be taken over twice: of any two processes that
-- ask for it both can come to hold it, since the second removes the new lock of the first.
pub both-held :
    (s : System) (i j m : ℕ)
    → i ≢ j
    → s.lock ≡ some m
    → stale_ttl + m ≤ s.now
    → s.pc i ≡ idle
    → s.pc j ≡ idle
    → (t : System) × Reach s t × (t.pc i ≡ held) × (t.pc j ≡ held)
unfolding advance
both-held s i j m distinct l old a b =
    let asked =
      asks s j i other (swap s i j distinct (asks s i j distinct (s, here, (a, b, l, refl)))) in
    let seen = goes s i j distinct refl (swap s j i other (goes s j i other refl asked)) in
    let judged = goes s j i other stale (swap s i j distinct (goes s i j distinct stale seen)) in
    let first = goes s i j distinct refl (goes s i j distinct refl (swap s j i other judged)) in
    finished (goes s j i other refl (goes s j i other refl (swap s i j distinct first)))
  where
    finished :
        Reached s j i held held (some s.now)
        → (t : System) × Reach s t × (t.pc i ≡ held) × (t.pc j ≡ held)
    finished (t, run, (x, y, l, n)) = (t, run, y, x)

    other : j ≢ i
    other = λ e. distinct (sym e)

    aged : ltb (s.now - m) stale_ttl ≡ false
    aged = ground arith

    stale : check_age s.now (some m) ≡ (removing, some m)
    stale = rw aged refl
