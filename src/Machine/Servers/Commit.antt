-- ===== src/Machine/Servers/Commit.antt =====
-- A change of the server is noted in the context only once it has gone through:
-- core/state_machine/machine.py, `_apply_server`.
use virtual_private_network.Prelude.{
  ℕ, String, ◌≡◌, refl, ◌∙◌, Bool, true, false, Option, some, ◌⊎◌, inl, inr, Bool-cases,
  if◌then◌else◌,
}
use virtual_private_network.Ports.Effect.{
  M, Exn, Outcome, ok, raised, pure, raise, gets, modify, try_except, is_exception, continue, ◌>>=◌,
  ◌>>◌,
}
use virtual_private_network.Ports.Env.{Env, Provider, History}
use virtual_private_network.Ports.Json.{Json}
use virtual_private_network.Orchestrator.Bootstrap.{start_tunnel}
use virtual_private_network.Switcher.{switch}
use virtual_private_network.Machine.Servers.{apply_server, restart_sing_box}
use virtual_private_network.World.{
  Daemon, Config, RuntimeContext, lift, with_profile, set_context, post, create_task, Task,
  VpnEvent,
}

-- The method leaves the server that is in use as it was, also when it raises.
record Steady {R : Type 0} (m : M Daemon R) : Type 0 where
  pub at : (d : Daemon) → (m d).1.context.active_server ≡ d.context.active_server

-- The method notes the server exactly if it returns.
abbrev pub Commits : {R : Type 0} → M Daemon R → String → Daemon → Type 0
Commits {R} m name d =
    let (r, d') = m d in
    ((result : R) × (r ≡ ok result) × (d'.context.active_server ≡ some name))
    ⊎ ((e : Exn) × (r ≡ raised e) × (d'.context.active_server ≡ d.context.active_server))

record Committing {R : Type 0} (name : String) (m : M Daemon R) : Type 0 where
  pub at : (d : Daemon) → Commits m name d

module _ {R : Type 0} where
  Steady-pure : (r : R) → Steady (pure r)
  Steady-pure r = record { at = λ d. refl }

  Steady-raise : (e : Exn) → Steady {R = R} (raise e)
  Steady-raise e = record { at = λ d. refl }

  Steady-gets : (f : Daemon → R) → Steady (gets f)
  Steady-gets f = record { at = λ d. refl }

  Steady-lift : (m : M History R) → Steady (lift m)
  Steady-lift m = record { at = λ d. refl }

  Steady-with_profile : (f : History → M (Option Json) R) → Steady (with_profile f)
  Steady-with_profile f = record { at = λ d. refl }

  Steady-if : (b : Bool) (m n : M Daemon R) → Steady m → Steady n → Steady (if b then m else n)
  Steady-if true m n p q = p
  Steady-if false m n p q = q

  handled :
      (r : Outcome R) (f : Exn → M Daemon R) (d : Daemon)
      → ((e : Exn) → Steady (f e))
      → (try_except (λ s. (r, s)) f d).1.context.active_server ≡ d.context.active_server
  handled (ok a) f d q = refl
  handled (raised e) f d q = elim (Bool-cases (is_exception e)) [
    | inl c ↦ rw c ((q e).at d)
    | inr c ↦ rw c refl
  ]

  Steady-try :
      (m : M Daemon R) (f : Exn → M Daemon R)
      → Steady m
      → ((e : Exn) → Steady (f e))
      → Steady (try_except m f)
  Steady-try m f p q = record { at = λ d. let (r, d') = m d in handled r f d' q ∙ p.at d }

Steady-set_context :
    (f : RuntimeContext → RuntimeContext)
    → ((c : RuntimeContext) → (f c).active_server ≡ c.active_server)
    → Steady (set_context f)
Steady-set_context f e = record { at = λ d. e d.context }

Steady-tunnel : (t : Option ℕ) → Steady (modify (λ d. record d { tun2socks = t }))
Steady-tunnel t = record { at = λ d. refl }

Steady-create_task : (t : Task) → Steady (create_task t)
Steady-create_task t = record { at = λ d. refl }

Steady-post : (e : VpnEvent) → Steady (post e)
Steady-post e = record { at = λ d. refl }

module _ {R T : Type 0} where
  continue-Steady :
      (r : Outcome R) (f : R → M Daemon T) (d : Daemon)
      → ((a : R) → Steady (f a))
      → (continue r f d).1.context.active_server ≡ d.context.active_server
  continue-Steady (ok a) f d q = (q a).at d
  continue-Steady (raised e) f d q = refl

  Steady-bind :
      (m : M Daemon R) (f : R → M Daemon T) → Steady m → ((a : R) → Steady (f a)) → Steady (m >>= f)
  Steady-bind m f p q = record { at = λ d. let (r, d') = m d in continue-Steady r f d' q ∙ p.at d }

  committed_after :
      (name : String) (r : Outcome R) (f : R → M Daemon T) (d d' : Daemon)
      → d'.context.active_server ≡ d.context.active_server
      → ((a : R) → Committing name (f a))
      → let (o, d'') = continue r f d' in
        ((result : T) × (o ≡ ok result) × (d''.context.active_server ≡ some name))
        ⊎ ((e : Exn) × (o ≡ raised e) × (d''.context.active_server ≡ d.context.active_server))
  committed_after name (ok a) f d d' h q = elim ((q a).at d') [
    | inl x ↦ inl x
    | inr (e, p, k) ↦ inr (e, p, k ∙ h)
  ]
  committed_after name (raised e) f d d' h q = inr (e, refl, h)

  Committing-bind :
      (name : String) (m : M Daemon R) (f : R → M Daemon T)
      → Steady m
      → ((a : R) → Committing name (f a))
      → Committing name (m >>= f)
  Committing-bind name m f p q = record {
    at = λ d. let (r, d') = m d in committed_after name r f d d' (p.at d) q;
  }

Committing-last :
    {R : Type 0} (name : String) (r : R)
    → Committing name (do set_context (λ c. record c { active_server = some name }); pure r)
Committing-last name r = record { at = λ d. inl (r, refl, refl) }

ruleset steady_rules = (
  Steady-pure, Steady-raise, Steady-gets, Steady-lift, Steady-with_profile, Steady-if, Steady-try,
  Steady-set_context, Steady-tunnel, Steady-create_task, Steady-post, Steady-bind,
)

module _ (env : Env) (provider : Provider) (cfg : Config) where
  switch-Steady : (name : String) → Steady (switch env provider cfg.config_dest name false)
  unfolding switch
  switch-Steady name = search steady_rules depth 9

  start_tunnel-Steady : (proxy_url : String) → Steady (start_tunnel env proxy_url)
  unfolding start_tunnel
  start_tunnel-Steady proxy_url = search steady_rules depth 9

  restart_sing_box-Steady : Steady (restart_sing_box env provider cfg)
  unfolding restart_sing_box
  restart_sing_box-Steady = search steady_rules depth 9

  apply_server-Committing : (name : String) → Committing name (apply_server env provider cfg name)
  unfolding apply_server
  apply_server-Committing name =
      search
        (
          Committing-bind, Committing-last, switch-Steady, start_tunnel-Steady,
          restart_sing_box-Steady, Steady-lift,
        )
        depth 12

  -- Whatever fails on the way (the configuration, the start of sing-box, its port, the tunnel): a
  -- change of the server either returns and the server is the one in use, or raises and the server
  -- in use is noted as before.
  pub apply_server-Commits :
      (name : String) (d : Daemon) → Commits (apply_server env provider cfg name) name d
  apply_server-Commits name d = (apply_server-Committing name).at d
