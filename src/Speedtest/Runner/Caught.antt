-- ===== src/Speedtest/Runner/Caught.antt =====
-- A test of a server always comes to an end with an entry, whatever fails on the way.
use virtual_private_network.Prelude.{
  ℕ, zero, suc, ◌*◌, String, ◌≡◌, refl, Bool, true, false, Option, none, some, List, [], ◌∷◌,
  Bool-cases, inl, inr,
}
use virtual_private_network.Ports.Command.{host, speedtest}
use virtual_private_network.Ports.Effect.{
  M, Outcome, ok, raised, Exn, is_exception, pure, raise, continue, speedtest_error,
  connection_error, runtime_error, value_error, key_error, index_error, os_error, attribute_error,
  subscription_error, type_error, system_exit, ◌>>=◌,
}
use virtual_private_network.Ports.Env.{Env, History, Completed, run, sleep_ms, sleep, shell}
use virtual_private_network.Ports.Json.{Json, null, bool, num, real, arr, obj, str, get, truthy}
use virtual_private_network.Speedtest.Runner.{
  Numbers, Runner, normalize, get_or_none, got, rounded, with_part, joined, answered, judged,
  parse_stdout, run_once, run_attempts, run_speedtest, then_again, at_least_one,
}

abbrev pub is_caught : {A : Type 0} → Outcome A → Bool
is_caught (ok a) = true
is_caught (raised e) = is_exception e

-- What the method raises is caught by `except Exception`.
pub record Caught {S A : Type 0} (m : M S A) : Type 0 where
  pub caught : (s : S) → is_caught (m s).0 ≡ true

module _ {S A : Type 0} where
  pub Caught-pure : (a : A) → Caught {S = S} (pure a)
  Caught-pure a = record { caught = λ s. refl }

  pub Caught-raise : (e : Exn) → is_exception e ≡ true → Caught {S = S} {A = A} (raise e)
  Caught-raise e h = record { caught = λ s. h }

pub Caught-bind :
    {S A B : Type 0} (m : M S A) (f : A → M S B)
    → Caught m
    → ((a : A) → Caught (f a))
    → Caught (m >>= f)
Caught-bind {S} {A} {B} m f h k = record { caught = λ s. next (m s).0 (m s).1 (h.caught s) }
  where
    next : (r : Outcome A) (s : S) → is_caught r ≡ true → is_caught (continue r f s).0 ≡ true
    next (ok a) s c = (k a).caught s
    next (raised e) s c = c

Caught-get : {S : Type 0} (k : String) (j : Json) → Caught {S = S} (get_or_none k j)
Caught-get {S} k j = from (get k j)
  where
    from : (o : Option (Option Json)) → Caught {S = S} (got o)
    from none = Caught-raise _ refl
    from (some none) = Caught-pure _
    from (some (some v)) = Caught-pure v

Caught-rounded : {S : Type 0} (o : Option Json) → Caught {S = S} (rounded o)
Caught-rounded none = Caught-raise _ refl
Caught-rounded (some v) = Caught-pure v

Caught-with_part :
    {S : Type 0} (p : Json) (rest : M S (List String)) → Caught rest → Caught (with_part p rest)
Caught-with_part (str s) rest h = Caught-bind rest _ h (λ ss. Caught-pure (s ∷ ss))
Caught-with_part null rest h = Caught-raise _ refl
Caught-with_part (bool b) rest h = Caught-raise _ refl
Caught-with_part (num n) rest h = Caught-raise _ refl
Caught-with_part (real n) rest h = Caught-raise _ refl
Caught-with_part (arr xs) rest h = Caught-raise _ refl
Caught-with_part (obj fs) rest h = Caught-raise _ refl

Caught-joined : {S : Type 0} (parts : List Json) → Caught {S = S} (joined parts)
Caught-joined [] = Caught-pure []
Caught-joined (p ∷ ps) = elim (Bool-cases (truthy p)) [
  | inr c ↦ rw c (Caught-joined ps)
  | inl c ↦ rw c (Caught-with_part p (joined ps) (Caught-joined ps))
]

ruleset caught_rules = (Caught-pure, Caught-bind, Caught-get, Caught-rounded, Caught-joined)

false_ne_true : ¬ (false ≡ true)
false_ne_true h = cc

module _ (numbers : Numbers) where
  normalize-Caught : {S : Type 0} (raw : Json) → Caught {S = S} (normalize numbers raw)
  unfolding normalize
  normalize-Caught raw = search caught_rules depth 45

  module _ (env : Env) (r : Runner) where
    run_once-Caught : Caught (run_once numbers env r)
    unfolding run_once run
    run_once-Caught = record {
      caught =
          λ h. from (env.run h (host (speedtest r.binary))) (shell (host (speedtest r.binary)) ∷ h);
    }
      where
        judging : (result : Completed) (raw : Option Json) → Caught (judged numbers env result raw)
        judging result none = Caught-raise _ refl
        judging result (some raw) = normalize-Caught raw

        from : (o : Option Completed) (h : History) → is_caught (answered numbers env o h).0 ≡ true
        from none h = refl
        from (some result) h = (judging result (parse_stdout numbers env result.stdout)).caught h

    then_again-Caught :
        (o : Outcome Json) (left : ℕ) (again : M History Json)
        → is_caught o ≡ true
        → Caught again
        → Caught (then_again numbers env o left again)
    then_again-Caught (ok j) left again c h = Caught-pure j
    then_again-Caught (raised (speedtest_error e)) zero again c h = Caught-raise _ refl
    then_again-Caught (raised (speedtest_error e)) (suc left) again c h = h
    then_again-Caught (raised (connection_error e)) left again c h = Caught-raise _ refl
    then_again-Caught (raised (runtime_error e)) left again c h = Caught-raise _ refl
    then_again-Caught (raised (value_error e)) left again c h = Caught-raise _ refl
    then_again-Caught (raised (key_error e)) left again c h = Caught-raise _ refl
    then_again-Caught (raised (index_error e)) left again c h = Caught-raise _ refl
    then_again-Caught (raised (os_error e)) left again c h = Caught-raise _ refl
    then_again-Caught (raised (attribute_error e)) left again c h = Caught-raise _ refl
    then_again-Caught (raised (subscription_error e)) left again c h = Caught-raise _ refl
    then_again-Caught (raised (type_error e)) left again c h = Caught-raise _ refl
    then_again-Caught (raised (system_exit n)) left again c h = absurd (false_ne_true c)

    run_attempts-Caught : (left : ℕ) → Caught (run_attempts numbers env r left)
    unfolding run_attempts sleep_ms
    run_attempts-Caught zero = Caught-raise _ refl
    run_attempts-Caught (suc left) = record {
      caught = λ h.
          (then_again-Caught (run_once numbers env r h).0 left _ (run_once-Caught.caught h)
              (record {
                caught = λ k. (run_attempts-Caught left).caught (sleep (1000 * r.retry_delay) ∷ k);
              })).caught
            (run_once numbers env r h).1;
    }

    -- Whatever the program prints, what a run raises is no `SystemExit`.
    pub run_speedtest-Caught : Caught (run_speedtest numbers env r)
    unfolding run_speedtest
    run_speedtest-Caught = run_attempts-Caught (at_least_one r.attempts)
