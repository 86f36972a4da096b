-- ===== src/Orchestrator/Bootstrap/SocksWait.antt =====
-- The wait for the SOCKS port comes to an end, and its answer can be relied on.
use virtual_private_network.Prelude.{
  ℕ, zero, suc, ◌+◌, ◌*◌, ◌≤◌, ◌≡◌, refl, Bool, true, false, some, ◌∷◌, arith, ltb, Bool-cases, inl,
  inr,
}
use virtual_private_network.Ports.Command.{host, listeners}
use virtual_private_network.Ports.Effect.{ok}
use virtual_private_network.Ports.Env.{Env, History, shell, sleep, run, sleep_ms}
use virtual_private_network.Orchestrator.Bootstrap.{listening, wait_until, wait_for_socks_port}

-- A pause of a quarter of a second takes at least that long on the monotonic clock.
abbrev pub ClockAdvances : Env → ℕ → Type 0
ClockAdvances env port =
    (h : History)
    → env.monotonic h + 250 ≤ env.monotonic (sleep 250 ∷ shell (host (listeners port)) ∷ h)

-- `true` where the last thing done is a probe that found a listener, `false` where the time is over.
abbrev pub Justified : Env → ℕ → ℕ → Bool → History → Type 0
Justified env port deadline true h =
    (h' : History) × (h ≡ shell (host (listeners port)) ∷ h')
    × (listening (env.run h' (host (listeners port))) ≡ true)
Justified env port deadline false h = deadline ≤ env.monotonic h

module _ (env : Env) (port : ℕ) (clock : ClockAdvances env port) (deadline : ℕ) where
  wait_until_ends :
      (fuel : ℕ) (h : History)
      → deadline ≤ env.monotonic h + 250 * fuel
      → (b : Bool) × ((wait_until env port deadline (suc fuel) h).0 ≡ ok (some b))
        × Justified env port deadline b (wait_until env port deadline (suc fuel) h).1
  unfolding wait_until run sleep_ms
  wait_until_ends zero h l =
      let over : ltb (env.monotonic h) deadline ≡ false = ground arith in
      (false, rw over, rw over (omega arith))
  wait_until_ends (suc fuel) h l = elim (Bool-cases (ltb (env.monotonic h) deadline)) [
    | inr over ↦ (false, rw over, rw over (ground arith))
    | inl early ↦ elim (Bool-cases (listening (env.run h (host (listeners port))))) [
      | inl up ↦ (true, rw (early, up), rw (early, up) (h, refl, up))
      | inr down ↦
          let (b, e, j) =
            wait_until_ends fuel (sleep 250 ∷ shell (host (listeners port)) ∷ h)
              (omega (arith, clock h)) in
          (b, rw (early, down) e, rw (early, down) j)
    ]
  ]

-- With a clock that moves on during the pauses, the wait always ends with an answer. It is `true`
-- only where the last probe found a listener on the port, and `false` only where the whole time has
-- passed.
pub wait_for_socks_port_ends :
    (env : Env) (port seconds : ℕ) (h : History)
    → ClockAdvances env port
    → (b : Bool) × ((wait_for_socks_port env port seconds h).0 ≡ ok (some b))
      × Justified env port
          (env.monotonic h + 1000 * seconds)
          b
          (wait_for_socks_port env port seconds h).1
unfolding wait_for_socks_port
wait_for_socks_port_ends env port seconds h clock =
    let enough : 4 * seconds + 1 ≡ suc (4 * seconds) = omega arith in
    rw enough (
      wait_until_ends env port clock (env.monotonic h + 1000 * seconds) (4 * seconds) h
        (omega arith))
