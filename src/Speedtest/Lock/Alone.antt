-- ===== src/Speedtest/Lock/Alone.antt =====
-- `acquire` when no other process comes between its calls.
use virtual_private_network.Prelude.{
  ℕ, ◌+◌, ◌-◌, ◌≤◌, ◌≡◌, refl, Bool, true, false, Option, none, not, some, ltb, Bool-cases, inl,
  inr, arith,
}
use virtual_private_network.Speedtest.Lock.{advance, acquire, release, is_running, stale_ttl}

-- Free, or old enough to be taken over.
abbrev pub is_free : ℕ → Option ℕ → Bool
is_free now none = true
is_free now (some m) = not (ltb (now - m) stale_ttl)

abbrev pub after_acquire : ℕ → Option ℕ → Bool → Option ℕ
after_acquire now lock true = some now
after_acquire now lock false = lock

acquired :
    (now : ℕ) (lock : Option ℕ)
    → acquire now lock ≡ (is_free now lock, after_acquire now lock (is_free now lock))
unfolding acquire advance
acquired now none = refl
acquired now (some m) = elim (Bool-cases (ltb (now - m) stale_ttl)) [
  | inl c ↦ rw c refl
  | inr c ↦ rw c refl
]

-- With no other process in between: `acquire` claims the lock exactly if it is free or was last
-- touched 900 seconds ago or more, and then it is of this moment; a lock that is refused is left as
-- it was, and after a `release` the lock is claimed at once.
pub acquire_lem :
    (now later : ℕ) (lock : Option ℕ)
    → (acquire now lock ≡ (is_free now lock, after_acquire now lock (is_free now lock)))
      × (acquire later (release (acquire now lock).1) ≡ (true, some later))
acquire_lem now later lock = (acquired now lock, acquired later none)

-- A run that has claimed the lock keeps the others out for 900 seconds: until then `acquire` is
-- refused, and `is_running` is what the status says.
pub acquire-refused :
    (now later : ℕ) (lock : Option ℕ) (running : Bool)
    → is_free now lock ≡ true
    → later - now + 1 ≤ stale_ttl
    → ((acquire later (acquire now lock).1).0 ≡ false)
      × (is_running later (acquire now lock).1 running ≡ running)
unfolding is_running
acquire-refused now later lock running e h =
    rw (acquired now lock, e, acquired later (some now)) (ground arith, rw (fresh) refl)
  where
    fresh : ltb stale_ttl (later - now) ≡ false
    fresh = ground arith
