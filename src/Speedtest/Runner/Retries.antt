-- ===== src/Speedtest/Runner/Retries.antt =====
-- The attempts of a run: the first one that prints a usable document gives the result.
use virtual_private_network.Prelude.{
  ℕ, zero, suc, ◌*◌, ◌-◌, ◌<◌, ◌≡◌, refl, String, Option, none, some, ◌∷◌, arith,
}
use virtual_private_network.Ports.Command.{host, speedtest}
use virtual_private_network.Ports.Effect.{ok, raised, speedtest_error}
use virtual_private_network.Ports.Env.{Env, History, Completed, Act, shell, sleep, run, sleep_ms}
use virtual_private_network.Ports.Json.{Json}
use virtual_private_network.Speedtest.Runner.{
  Numbers, Runner, at_least_one, normalize, answered, failed, parse_stdout, run_once, run_attempts,
  run_speedtest,
}

abbrev pub attempt : Runner → Act
attempt r = shell (host (speedtest r.binary))

-- The history after so many attempts and the pauses that follow them.
unfoldable pub tried : Runner → ℕ → History → History
tried r zero h = h
tried r (suc k) h = tried r k (sleep (1000 * r.retry_delay) ∷ attempt r ∷ h)

abbrev printed : Numbers → Env → Option Completed → Option Json
printed numbers env none = none
printed numbers env (some result) = parse_stdout numbers env result.stdout

-- The document that the attempt after `k` others prints, if it can be used; its exit code is not
-- looked at.
abbrev pub document_at : Numbers → Env → Runner → History → ℕ → Option Json
document_at numbers env r h k =
    printed numbers env (env.run (tried r k h) (host (speedtest r.binary)))

module _ (numbers : Numbers) (env : Env) (r : Runner) where
  answered_failed :
      (o : Option Completed) (h : History)
      → printed numbers env o ≡ none
      → (e : String) × (answered numbers env o h ≡ (raised (speedtest_error e), h))
  answered_failed none h e = ("speedtest timed out", refl)
  answered_failed (some result) h e = (failed numbers env result, rw e refl)

  answered-printed :
      (o : Option Completed) (h : History) (raw : Json)
      → printed numbers env o ≡ some raw
      → answered numbers env o h ≡ normalize numbers raw h
  answered-printed none h raw e = cc
  answered-printed (some result) h raw e = rw e refl

  run_once-fails :
      (h : History)
      → document_at numbers env r h 0 ≡ none
      → (e : String) × (run_once numbers env r h ≡ (raised (speedtest_error e), attempt r ∷ h))
  unfolding run_once run tried
  run_once-fails h e = answered_failed (env.run h (host (speedtest r.binary))) (attempt r ∷ h) e

  run_once-works :
      (h : History) (raw : Json)
      → document_at numbers env r h 0 ≡ some raw
      → run_once numbers env r h ≡ normalize numbers raw (attempt r ∷ h)
  unfolding run_once run tried
  run_once-works h raw e =
      answered-printed (env.run h (host (speedtest r.binary))) (attempt r ∷ h) raw e

  attempts_found :
      (k n : ℕ) (h : History) (raw result : Json)
      → k < n
      → ((i : ℕ) → i < k → document_at numbers env r h i ≡ none)
      → document_at numbers env r h k ≡ some raw
      → normalize numbers raw (attempt r ∷ tried r k h) ≡ (ok result, attempt r ∷ tried r k h)
      → run_attempts numbers env r n h ≡ (ok result, attempt r ∷ tried r k h)
  unfolding run_attempts sleep_ms tried
  attempts_found k zero h raw result l fails e w = absurd (omega arith)
  attempts_found zero (suc n) h raw result l fails e w = rw (run_once-works h raw e, w) refl
  attempts_found (suc k) (suc zero) h raw result l fails e w = absurd (omega arith)
  attempts_found (suc k) (suc (suc n)) h raw result l fails e w =
      let (text, failed) = run_once-fails h (fails 0 (omega arith)) in
      rw failed (
        attempts_found k (suc n) _ raw result (omega arith) (λ i j. fails (suc i) (omega arith)) e
          w)

  attempts-exhausted :
      (n : ℕ) (h : History)
      → ((i : ℕ) → i < suc n → document_at numbers env r h i ≡ none)
      → (e : String) × (run_attempts numbers env r (suc n) h
          ≡ (raised (speedtest_error e), attempt r ∷ tried r n h))
  unfolding run_attempts sleep_ms tried
  attempts-exhausted zero h fails =
      let (text, failed) = run_once-fails h (fails 0 (omega arith)) in (text, rw failed refl)
  attempts-exhausted (suc n) h fails =
      let (text, failed) = run_once-fails h (fails 0 (omega arith)) in
      let (last, again) = attempts-exhausted n _ (λ i j. fails (suc i) (omega arith)) in
      (last, rw failed again)

-- Whatever the exit codes are: if the first attempts, fewer than the runner is allowed, print no
-- usable document and the next one does, and its values can be put into a result, then that is the
-- result; the program was started once for each of these attempts, with a pause after each failure.
pub run_speedtest_found :
    (numbers : Numbers) (env : Env) (r : Runner) (k : ℕ) (h : History) (raw result : Json)
    → k < at_least_one r.attempts
    → ((i : ℕ) → i < k → document_at numbers env r h i ≡ none)
    → document_at numbers env r h k ≡ some raw
    → normalize numbers raw (attempt r ∷ tried r k h) ≡ (ok result, attempt r ∷ tried r k h)
    → run_speedtest numbers env r h ≡ (ok result, attempt r ∷ tried r k h)
unfolding run_speedtest
run_speedtest_found numbers env r k h raw result l fails e w =
    attempts_found numbers env r k (at_least_one r.attempts) h raw result l fails e w

-- If no attempt prints a usable document, the run starts the program `attempts` times, and once for
-- `attempts` = 0, pauses between two attempts only, and raises `SpeedtestError`.
pub run_speedtest-exhausted :
    (numbers : Numbers) (env : Env) (r : Runner) (h : History)
    → ((i : ℕ) → i < at_least_one r.attempts → document_at numbers env r h i ≡ none)
    → (e : String) × (run_speedtest numbers env r h
        ≡ (raised (speedtest_error e), attempt r ∷ tried r (r.attempts - 1) h))
unfolding run_speedtest
run_speedtest-exhausted numbers env r h fails = by_attempts r.attempts fails
  where
    less : (n : ℕ) → suc n - 1 ≡ n
    less n = omega arith

    by_attempts :
        (n : ℕ)
        → ((i : ℕ) → i < at_least_one n → document_at numbers env r h i ≡ none)
        → (e : String) × (run_attempts numbers env r (at_least_one n) h
            ≡ (raised (speedtest_error e), attempt r ∷ tried r (n - 1) h))
    by_attempts zero f = attempts-exhausted numbers env r 0 h f
    by_attempts (suc n) f = rw (less n) (attempts-exhausted numbers env r n h f)
