-- ===== src/Machine/Loop/Checks.antt =====
-- A run of health checks, from HEALTHY on.
use virtual_private_network.Prelude.{
  ℕ, ◌+◌, ◌≤◌, ◌≡◌, refl, ◌∙◌, Bool, true, false, ◌||◌, some, List, [], ◌∷◌, arith, leb, Bool-cases,
  inl, inr, ◌==◌, if◌then◌else◌,
}
use virtual_private_network.Machine.States.{handle}
use virtual_private_network.Machine.States.Transition.{transition_to_lem}
use virtual_private_network.Machine.Loop.{process}
use virtual_private_network.World.{
  Daemon, Config, State, healthy, degraded, restarting, event, health_ok, health_fail, VpnEvent,
}

-- The event of a check that succeeded, or failed, without its payload, which no handler reads.
abbrev pub check_event : Bool → VpnEvent
check_event true = event health_ok
check_event false = event health_fail

unfoldable pub process_checks : Config → List Bool → Daemon → Daemon
process_checks cfg [] d = d
process_checks cfg (b ∷ bs) d = process_checks cfg bs (process cfg (check_event b) d).1

-- Three failures one after the other somewhere in the run, when `n` have just been seen.
unfoldable pub three_in_a_row : ℕ → List Bool → Bool
three_in_a_row n [] = leb 3 n
three_in_a_row n (true ∷ bs) = leb 3 n || three_in_a_row 0 bs
three_in_a_row n (false ∷ bs) = leb 3 n || three_in_a_row (n + 1) bs

-- The failures at the end of the run.
unfoldable pub last_failures : ℕ → List Bool → ℕ
last_failures n [] = n
last_failures n (true ∷ bs) = last_failures 0 bs
last_failures n (false ∷ bs) = last_failures (n + 1) bs

abbrev pub state_for : Bool → ℕ → State
state_for true n = restarting
state_for false n = if n == 0 then healthy else degraded

-- In RESTARTING the checks are not looked at.
checks_ignored :
    (cfg : Config) (bs : List Bool) (d : Daemon)
    → d.state ≡ some restarting
    → (process_checks cfg bs d).state ≡ some restarting
unfolding process_checks process handle
checks_ignored cfg [] d h = h
checks_ignored cfg (true ∷ bs) d h =
    rw (h, process) (checks_ignored cfg bs (record d { state = some restarting }) refl)
checks_ignored cfg (false ∷ bs) d h =
    rw (h, process) (checks_ignored cfg bs (record d { state = some restarting }) refl)

module _ (cfg : Config) (d : Daemon) where
  ok_in_healthy :
      d.state ≡ some healthy
      → let d' = (process cfg (check_event true) d).1 in
        (d'.state ≡ some healthy) × (d'.context.fail_streak ≡ d.context.fail_streak)
  unfolding process handle
  ok_in_healthy h = rw (h, process) (refl, refl)

  fail_in_healthy :
      d.state ≡ some healthy
      → let d' = (process cfg (check_event false) d).1 in
        (d'.state ≡ some degraded) × (d'.context.fail_streak ≡ d.context.fail_streak + 1)
  unfolding process handle
  fail_in_healthy h = rw (h, process) (simp transition_to_lem (refl, refl))

  ok_in_degraded :
      d.state ≡ some degraded
      → let d' = (process cfg (check_event true) d).1 in
        (d'.state ≡ some healthy) × (d'.context.fail_streak ≡ 0)
  unfolding process handle
  ok_in_degraded h = rw (h, process) (simp transition_to_lem (refl, refl))

  fail_in_degraded :
      d.state ≡ some degraded
      → let d' = (process cfg (check_event false) d).1 in
        (d'.state ≡ some (if leb 3 (d.context.fail_streak + 1) then restarting else degraded))
        × (d'.context.fail_streak ≡ d.context.fail_streak + 1)
  unfolding process handle
  fail_in_degraded h = elim (Bool-cases (leb 3 (d.context.fail_streak + 1))) [
    | inl c ↦ rw (h, process) (rw c (simp transition_to_lem (refl, refl)))
    | inr c ↦ rw (h, process) (rw c (refl, refl))
  ]

three_already : (n : ℕ) (bs : List Bool) → leb 3 n ≡ true → three_in_a_row n bs ≡ true
unfolding three_in_a_row
three_already n [] h = h
three_already n (true ∷ bs) h = rw h
three_already n (false ∷ bs) h = rw h

mutual
  unfolding process_checks three_in_a_row last_failures

  from_healthy :
      (cfg : Config) (bs : List Bool) (d : Daemon)
      → d.state ≡ some healthy
      → d.context.fail_streak ≡ 0
      → (process_checks cfg bs d).state
        ≡ some (state_for (three_in_a_row 0 bs) (last_failures 0 bs))
  from_healthy cfg [] d h k = h
  from_healthy cfg (true ∷ bs) d h k =
      let (s, n) = ok_in_healthy cfg d h in from_healthy cfg bs _ s (n ∙ k)
  from_healthy cfg (false ∷ bs) d h k =
      let (s, n) = fail_in_healthy cfg d h in
      from_degraded cfg bs _ 1 s (omega arith) (omega arith) (omega arith)

  from_degraded :
      (cfg : Config) (bs : List Bool) (d : Daemon) (n : ℕ)
      → d.state ≡ some degraded
      → d.context.fail_streak ≡ n
      → 1 ≤ n
      → n ≤ 2
      → (process_checks cfg bs d).state
        ≡ some (state_for (three_in_a_row n bs) (last_failures n bs))
  from_degraded cfg [] d n h k l u = ground arith
  from_degraded cfg (true ∷ bs) d n h k l u =
      let few : leb 3 n ≡ false = ground arith in
      let (s, z) = ok_in_degraded cfg d h in rw few (from_healthy cfg bs _ s z)
  from_degraded cfg (false ∷ bs) d n h k l u =
      let few : leb 3 n ≡ false = ground arith in
      let (s, m) = fail_in_degraded cfg d h in
      elim (Bool-cases (leb 3 (n + 1))) [
        | inl c ↦ rw (few, three_already (n + 1) bs c) (checks_ignored cfg bs _ (s ∙ rw k (rw c)))
        | inr c ↦ rw few (
            from_degraded cfg bs _ (n + 1) (s ∙ rw k (rw c)) (m ∙ rw k) (omega arith)
              (ground arith))
      ]

-- From HEALTHY, a run of health checks leads to RESTARTING exactly if three of them failed one after
-- the other; else the state is HEALTHY if the last check succeeded, and DEGRADED if it failed.
pub process_checks_lem :
    (cfg : Config) (bs : List Bool) (d : Daemon)
    → d.state ≡ some healthy
    → d.context.fail_streak ≡ 0
    → (process_checks cfg bs d).state ≡ some (state_for (three_in_a_row 0 bs) (last_failures 0 bs))
process_checks_lem = from_healthy
