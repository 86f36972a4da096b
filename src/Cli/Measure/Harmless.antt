-- ===== src/Cli/Measure/Harmless.antt =====
-- A test of a server raises only what the command catches, and leaves the store alone.
use virtual_private_network.Prelude.{
  ℕ, zero, suc, ◌==◌, String, ◌≡◌, refl, ◌∙◌, ap, Bool, true, false, Option, none, some, List, [],
  ◌∷◌, inl, inr, Bool-cases,
}
use virtual_private_network.Ports.Command.{host, tunnel_probe}
use virtual_private_network.Ports.Effect.{
  M, Outcome, ok, raised, Exn, continue, handle_in, try_except, pure, ◌>>=◌,
}
use virtual_private_network.Ports.Env.{History, Completed, run, sleep_ms, sleep, shell}
use virtual_private_network.Ports.Json.{Json, Fields, null, bool, num, real, str, arr, obj, lookup}
use virtual_private_network.Speedtest.Runner.{standard, run_speedtest}
use virtual_private_network.Speedtest.Runner.Caught.{
  is_caught, Caught, Caught-pure, Caught-raise, Caught-bind, run_speedtest-Caught,
}
use virtual_private_network.Cli.Ipc.{message_of, call, result_of, result_in, request}
use virtual_private_network.Subscription.{merge_fields, put}
use virtual_private_network.Cli.Measure.{
  Terminal, Tools, outside, received, ipc_call, ready, begins_well, tunnel_ready, wait_more,
  wait_ready, switch_and_wait, measured, fields_in,
}

-- The method raises only what `except Exception` catches, and leaves the store alone.
abbrev Harmless : {A : Type 0} → M Terminal A → Type 0
Harmless {A} m = (t : Terminal) → (is_caught (m t).0 ≡ true) × ((m t).1.disk ≡ t.disk)

Harmless-bind :
    {A B : Type 0} (m : M Terminal A) (f : A → M Terminal B)
    → Harmless m
    → ((a : A) → Harmless (f a))
    → Harmless (m >>= f)
Harmless-bind {A} {B} m f h k t = next (m t).0 (m t).1 (h t).0 (h t).1
  where
    next :
        (r : Outcome A) (u : Terminal)
        → is_caught r ≡ true
        → u.disk ≡ t.disk
        → (is_caught (continue r f u).0 ≡ true) × ((continue r f u).1.disk ≡ t.disk)
    next (ok a) u c e = ((k a u).0, (k a u).1 ∙ e)
    next (raised x) u c e = (c, e)

Harmless-outside : {A : Type 0} (m : M History A) → Caught m → Harmless (outside m)
Harmless-outside m h t = (h.caught t.history, refl)

result_in-Harmless : (e result : Option Json) → Harmless (result_in e result)
result_in-Harmless (some e) result t = (refl, refl)
result_in-Harmless none none t = (refl, refl)
result_in-Harmless none (some result) t = (refl, refl)

result_of-Harmless : (j : Option Json) → Harmless (result_of j)
result_of-Harmless none t = (refl, refl)
result_of-Harmless (some (obj fs)) t = result_in-Harmless (lookup "error" fs) (lookup "result" fs) t
result_of-Harmless (some null) t = (refl, refl)
result_of-Harmless (some (bool b)) t = (refl, refl)
result_of-Harmless (some (num n)) t = (refl, refl)
result_of-Harmless (some (real n)) t = (refl, refl)
result_of-Harmless (some (str s)) t = (refl, refl)
result_of-Harmless (some (arr xs)) t = (refl, refl)

module _ (tools : Tools) where
  received-Harmless : (text : String) (o : Option String) → Harmless (received tools text o)
  received-Harmless text none t = (refl, refl)
  received-Harmless text (some a) t = (refl, refl)

  ipc_call-Harmless :
      (method : String) (params : List (String × String)) → Harmless (ipc_call tools method params)
  unfolding call
  ipc_call-Harmless method params =
      Harmless-bind
        (λ t.
          received tools (tools.codec.dumps (request method params))
            (tools.answer t.history (tools.codec.dumps (request method params))) t)
        (λ a. result_of (tools.codec.loads a))
        (λ t.
          received-Harmless _ (tools.answer t.history (tools.codec.dumps (request method params)))
            t)
        (λ a. result_of-Harmless (tools.codec.loads a))

  begins_well-Caught : (o : Option String) → Caught (begins_well tools o)
  begins_well-Caught none = Caught-raise _ refl
  begins_well-Caught (some out) = Caught-pure _

  ready-Caught : (o : Option Completed) → Caught (ready tools o)
  ready-Caught none = Caught-pure false
  ready-Caught (some res) = elim (Bool-cases (res.returncode == 0)) [
    | inl c ↦ rw c (begins_well-Caught res.stdout)
    | inr c ↦ rw c (Caught-pure false)
  ]

  tunnel_ready-Caught : Caught (tunnel_ready tools)
  unfolding tunnel_ready run
  tunnel_ready-Caught = record {
    caught = λ h.
        (ready-Caught (tools.env.run h (host tunnel_probe))).caught (shell (host tunnel_probe) ∷ h);
  }

  wait_more-Caught :
      (up : Bool) (again : M History (Unit {0})) → Caught again → Caught (wait_more tools up again)
  unfolding sleep_ms
  wait_more-Caught true again h = Caught-pure tt
  wait_more-Caught false again h = record { caught = λ s. h.caught (sleep 1000 ∷ s) }

  wait_ready-Caught : (name : String) (left : ℕ) → Caught (wait_ready tools name left)
  unfolding wait_ready
  wait_ready-Caught name zero = Caught-raise _ refl
  wait_ready-Caught name (suc left) =
      Caught-bind (tunnel_ready tools) _ tunnel_ready-Caught
        (λ up. wait_more-Caught up _ (wait_ready-Caught name left))

  switch_and_wait-Harmless : (name : String) → Harmless (switch_and_wait tools name)
  unfolding switch_and_wait
  switch_and_wait-Harmless name =
      Harmless-bind (ipc_call tools "server.change" (("name", name) ∷ [])) _
        (ipc_call-Harmless "server.change" (("name", name) ∷ []))
        (λ result. Harmless-outside (wait_ready tools name 25) (wait_ready-Caught name 25))

  tried :
      {A : Type 0} (m : M Terminal A) (f : Exn → A)
      → Harmless m
      → (t : Terminal)
      → (a : A) × (h : History) × (try_except m (λ e. pure (f e)) t
          ≡ (ok a, record t { history = h }))
  tried {A} m f h t = from (m t).0 (m t).1 (h t).0 (h t).1
    where
      from :
          (r : Outcome A) (u : Terminal)
          → is_caught r ≡ true
          → u.disk ≡ t.disk
          → (a : A) × (k : History) × (handle_in r (λ e. pure (f e)) u
              ≡ (ok a, record t { history = k }))
      from (ok a) u c e = (a, u.history, ap (λ d. (ok a, record u { disk = d })) e)
      from (raised x) u c e = (f x, u.history, rw c (ap (λ d. (ok (f x), record u { disk = d })) e))

  pub measured_lem :
      (name : String) (entry : Fields) (t : Terminal)
      → (e : Fields) × (h : History) × (measured tools name entry t
          ≡ (ok e, record t { history = h }))
  measured_lem name entry t =
      tried
        (switch_and_wait tools name >>= λ _.
          outside (run_speedtest tools.numbers tools.env standard) >>= λ result.
          pure (merge_fields entry (fields_in tools result)))
        (λ e. put "error" (str (message_of tools.codec e)) entry)
        (Harmless-bind _ _ (switch_and_wait-Harmless name) (λ u.
          Harmless-bind _ _
            (Harmless-outside _ (run_speedtest-Caught tools.numbers tools.env standard))
            (λ result t. (refl, refl))))
        t
