-- ===== src/Cli/View.antt =====
-- src/vpn/cli/main.py, `_view_speedtest`: the wait for a run that is under way. Other processes work
-- on the store meanwhile, so the disk is a function of the seconds waited.
use virtual_private_network.Prelude.{
  ℕ, zero, suc, ◌+◌, ◌≤◌, ◌<◌, ◌≡◌, ap, ◌==◌, Bool, true, false, ◌⊎◌, inl, inr, Bool-cases, arith,
  if◌then◌else◌,
}
use virtual_private_network.Speedtest.Store
use virtual_private_network.Speedtest.Store.{Disk, Files}

module _ (files : Files) (disk_at : ℕ → Disk) (time_at : ℕ → ℕ) where
  abbrev pub running_at : ℕ → Bool
  running_at waited = Store.is_running files (time_at waited) (disk_at waited)

  -- The loop, with the seconds that are left of `max_wait`: the seconds waited in the end.
  unfoldable pub wait_idle : ℕ → ℕ → ℕ
  wait_idle zero waited = waited
  wait_idle (suc left) waited =
      let rest = wait_idle left (suc waited) in if running_at waited then rest else waited

  -- `_view_speedtest`: how long it waits before it prints the table of `disk_at` that time.
  unfoldable pub view_speedtest : ℕ → ℕ
  unfolding wait_idle
  view_speedtest max_wait = wait_idle max_wait 0

  wait_idle_lem :
      (left waited : ℕ)
      → let n = wait_idle left waited in
        (waited ≤ n) × (n ≤ waited + left) × ((n ≡ waited + left) ⊎ (running_at n ≡ false))
  unfolding wait_idle
  wait_idle_lem zero waited = (omega arith, omega arith, inl (omega arith))
  wait_idle_lem (suc left) waited = elim (Bool-cases (running_at waited)) [
    | inr c ↦ rw c (omega arith, omega arith, inr c)
    | inl c ↦
        let (a, b, d) = wait_idle_lem left (suc waited) in
        rw c (omega arith, omega arith, elim d [ inl e ↦ inl (omega arith) | inr e ↦ inr e ])
  ]

  wait_idle-running :
      (left waited k : ℕ) → waited ≤ k → running_at k ≡ false → wait_idle left waited ≤ k
  unfolding wait_idle
  wait_idle-running zero waited k h e = h
  wait_idle-running (suc left) waited k h e = elim (Bool-cases (running_at waited)) [
    | inr c ↦ rw c h
    | inl c ↦ rw c (wait_idle-running left (suc waited) k (later waited k h c e) e)
  ]
    where
      equal : (w j : ℕ) → (w == j) ≡ true → w ≡ j
      equal w j same = ground arith

      clash : {a b : Bool} → a ≡ b → a ≡ true → b ≡ false → ⊥
      clash x y z = cc

      later : (w j : ℕ) → w ≤ j → running_at w ≡ true → running_at j ≡ false → suc w ≤ j
      later w j h c e = elim (Bool-cases (w == j)) [
        | inl same ↦ absurd (clash (ap running_at (equal w j same)) c e)
        | inr other ↦ ground arith
      ]

  -- If no run is active at some second within the longest wait: the view command stops waiting by then,
  -- and at a second at which no run is active.
  pub view_speedtest-ends :
      (max_wait k : ℕ)
      → k < max_wait
      → running_at k ≡ false
      → (view_speedtest max_wait ≤ k) × (running_at (view_speedtest max_wait) ≡ false)
  unfolding view_speedtest
  view_speedtest-ends max_wait k h e =
      let (a, b, d) = wait_idle_lem max_wait 0 in
      let early = wait_idle-running max_wait 0 k (omega arith) e in
      (early, elim d [ inl x ↦ absurd (omega arith) | inr x ↦ x ])
