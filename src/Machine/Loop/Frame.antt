-- ===== src/Machine/Loop/Frame.antt =====
-- What the methods outside the state machine leave alone: the state, its timer, the streak of
-- failures and the live timers.
use virtual_private_network.Prelude.{
  ℕ, String, ◌≡◌, refl, ◌∙◌, Bool, true, false, Option, List, [], ◌∷◌, ◌++◌, if◌then◌else◌,
  Bool-cases, inl, inr,
}
use virtual_private_network.Ports.Effect.{
  M, Exn, Outcome, ok, raised, pure, raise, gets, modify, try_except, is_exception, continue, ◌>>=◌,
}
use mathlib.Core.List.{append-nil}
use virtual_private_network.Ports.Env.{History}
use virtual_private_network.Ports.Json.{Json}
use virtual_private_network.World.{
  EventType, bootstrap_done, singbox_died, shutdown_requested, timeout, restart_requested,
  on_timeout, Daemon, RuntimeContext, Task, VpnEvent, bootstrap, watch, ru_updater, lift,
  with_profile, set_context, post, create_task,
}
use virtual_private_network.Machine.Loop.Invariant.{timers, timers-append, Inv}

pub record Frame (d d' : Daemon) : Type 0 where
  pub state : d'.state ≡ d.state
  pub timer : d'.timer ≡ d.timer
  pub streak : d'.context.fail_streak ≡ d.context.fail_streak
  pub live : timers d'.tasks ≡ timers d.tasks

pub Frame-refl : (d : Daemon) → Frame d d
Frame-refl d = record { state = refl; timer = refl; streak = refl; live = refl }

pub Frame-trans : {d e f : Daemon} → Frame d e → Frame e f → Frame d f
Frame-trans p q = record {
  state = q.state ∙ p.state;
  timer = q.timer ∙ p.timer;
  streak = q.streak ∙ p.streak;
  live = q.live ∙ p.live;
}

pub Frame-Inv : {d d' : Daemon} → Frame d d' → Inv d → Inv d'
Frame-Inv f v = record {
  streak = rw (f.state, f.streak) v.streak;
  one_timer = rw (f.state, f.timer, f.live) v.one_timer;
}

-- The events that something in the program posts: the health checker is created, and never started.
abbrev pub is_wired : EventType → Bool
is_wired bootstrap_done = true
is_wired singbox_died = true
is_wired shutdown_requested = true
is_wired timeout = true
is_wired restart_requested = true
is_wired _ = false

-- The tasks that are created outside the state machine.
abbrev pub is_plain : Task → Bool
is_plain (on_timeout _ _) = false
is_plain (bootstrap _) = true
is_plain (watch _ e) = is_wired e.type
is_plain ru_updater = true

-- A property that no method outside the state machine can break, update by update.
pub record Insensitive (P : Daemon → Type 0) : Type 0 where
  pub history : (d : Daemon) (h : History) → P d → P (record d { history = h })
  pub profile : (d : Daemon) (p : Option Json) → P d → P (record d { profile = p })
  pub context :
      (d : Daemon) (c : RuntimeContext)
      → c.fail_streak ≡ d.context.fail_streak
      → P d
      → P (record d { context = c })
  pub tunnel : (d : Daemon) (t : Option ℕ) → P d → P (record d { tun2socks = t })
  pub lists :
      (d : Daemon) (b v w s : List String)
      → P d
      → P (record d { bypass_domains = b; vpn_domains = v; vpn_wildcards = w; vpn_subnets = s })
  pub queued :
      (d : Daemon) (e : VpnEvent)
      → is_wired e.type ≡ true
      → P d
      → P (record d { queue = d.queue ++ e ∷ [] })
  pub task :
      (d : Daemon) (t : Task) → is_plain t ≡ true → P d → P (record d { tasks = d.tasks ++ t ∷ [] })

no_timer : (t : Task) → is_plain t ≡ true → timers (t ∷ []) ≡ []
no_timer (on_timeout _ _) h = cc
no_timer (bootstrap _) h = refl
no_timer (watch _ _) h = refl
no_timer ru_updater h = refl

pub Frame-Insensitive : (d : Daemon) → Insensitive (Frame d)
Frame-Insensitive d = record {
  history = λ _ _ f. record { state = f.state; timer = f.timer; streak = f.streak; live = f.live };
  profile = λ _ _ f. record { state = f.state; timer = f.timer; streak = f.streak; live = f.live };
  context =
      λ _ _ e f. record { state = f.state; timer = f.timer; streak = e ∙ f.streak; live = f.live };
  tunnel = λ _ _ f. record { state = f.state; timer = f.timer; streak = f.streak; live = f.live };
  lists =
      λ _ _ _ _ _ f. record { state = f.state; timer = f.timer; streak = f.streak; live = f.live };
  queued = λ _ _ _ f. record { state = f.state; timer = f.timer; streak = f.streak; live = f.live };
  task = λ d' t e f. record {
    state = f.state;
    timer = f.timer;
    streak = f.streak;
    live = timers-append d'.tasks (t ∷ []) ∙ rw (no_timer t e) (append-nil _) ∙ f.live;
  };
}

-- The method breaks no such property, whether it returns or raises.
pub record Frames {R : Type 0} (m : M Daemon R) : Type 1 where
  pub at : (P : Daemon → Type 0) → Insensitive P → (d : Daemon) → P d → P (m d).1

pub Frames-Frame : {R : Type 0} {m : M Daemon R} → Frames m → (d : Daemon) → Frame d (m d).1
Frames-Frame f d = f.at (Frame d) (Frame-Insensitive d) d (Frame-refl d)

module _ {R : Type 0} where
  pub Frames-pure : (r : R) → Frames (pure r)
  Frames-pure r = record { at = λ P i d p. p }

  pub Frames-raise : (e : Exn) → Frames {R = R} (raise e)
  Frames-raise e = record { at = λ P i d p. p }

  pub Frames-gets : (f : Daemon → R) → Frames (gets f)
  Frames-gets f = record { at = λ P i d p. p }

  pub Frames-lift : (m : M History R) → Frames (lift m)
  Frames-lift m = record { at = λ P i d p. i.history d _ p }

  pub Frames-with_profile : (f : History → M (Option Json) R) → Frames (with_profile f)
  Frames-with_profile f = record { at = λ P i d p. i.profile d _ p }

  pub Frames-if : (b : Bool) (m n : M Daemon R) → Frames m → Frames n → Frames (if b then m else n)
  Frames-if true m n p q = p
  Frames-if false m n p q = q

  handled :
      (P : Daemon → Type 0) (i : Insensitive P) (r : Outcome R) (f : Exn → M Daemon R) (d : Daemon)
      → P d
      → ((e : Exn) → Frames (f e))
      → P (try_except (λ s. (r, s)) f d).1
  handled P i (ok a) f d p q = p
  handled P i (raised e) f d p q = elim (Bool-cases (is_exception e)) [
    | inl c ↦ rw c ((q e).at P i d p)
    | inr c ↦ rw c p
  ]

  pub Frames-try :
      (m : M Daemon R) (f : Exn → M Daemon R)
      → Frames m
      → ((e : Exn) → Frames (f e))
      → Frames (try_except m f)
  Frames-try m f p q = record {
    at = λ P i d x. let (r, d') = m d in handled P i r f d' (p.at P i d x) q;
  }

pub Frames-post : (e : VpnEvent) → is_wired e.type ≡ true → Frames (post e)
Frames-post e w = record { at = λ P i d p. i.queued d e w p }

pub Frames-set_context :
    (f : RuntimeContext → RuntimeContext)
    → ((c : RuntimeContext) → (f c).fail_streak ≡ c.fail_streak)
    → Frames (set_context f)
Frames-set_context f e = record { at = λ P i d p. i.context d (f d.context) (e d.context) p }

pub Frames-create_task : (t : Task) → is_plain t ≡ true → Frames (create_task t)
Frames-create_task t e = record { at = λ P i d p. i.task d t e p }

pub Frames-tunnel : (t : Option ℕ) → Frames (modify (λ d. record d { tun2socks = t }))
Frames-tunnel t = record { at = λ P i d p. i.tunnel d t p }

pub Frames-profile :
    (f : Option Json → Option Json) → Frames (modify (λ d. record d { profile = f d.profile }))
Frames-profile f = record { at = λ P i d p. i.profile d (f d.profile) p }

pub Frames-bypass :
    (f : Daemon → List String) → Frames (modify (λ d. record d { bypass_domains = f d }))
Frames-bypass f = record {
  at = λ P i d p. i.lists d (f d) d.vpn_domains d.vpn_wildcards d.vpn_subnets p;
}

pub Frames-domains :
    (f : Daemon → List String) → Frames (modify (λ d. record d { vpn_domains = f d }))
Frames-domains f = record {
  at = λ P i d p. i.lists d d.bypass_domains (f d) d.vpn_wildcards d.vpn_subnets p;
}

pub Frames-wildcards :
    (f : Daemon → List String) → Frames (modify (λ d. record d { vpn_wildcards = f d }))
Frames-wildcards f = record {
  at = λ P i d p. i.lists d d.bypass_domains d.vpn_domains (f d) d.vpn_subnets p;
}

pub Frames-subnets :
    (f : Daemon → List String) → Frames (modify (λ d. record d { vpn_subnets = f d }))
Frames-subnets f = record {
  at = λ P i d p. i.lists d d.bypass_domains d.vpn_domains d.vpn_wildcards (f d) p;
}

module _ {R T : Type 0} where
  continued :
      (P : Daemon → Type 0) (i : Insensitive P) (r : Outcome R) (f : R → M Daemon T) (d : Daemon)
      → P d
      → ((a : R) → Frames (f a))
      → P (continue r f d).1
  continued P i (ok a) f d p q = (q a).at P i d p
  continued P i (raised e) f d p q = p

  pub Frames-bind :
      (m : M Daemon R) (f : R → M Daemon T) → Frames m → ((a : R) → Frames (f a)) → Frames (m >>= f)
  Frames-bind m f p q = record {
    at = λ P i d x. let (r, d') = m d in continued P i r f d' (p.at P i d x) q;
  }

pub ruleset frame_rules = (
  Frames-pure, Frames-raise, Frames-gets, Frames-lift, Frames-with_profile, Frames-if, Frames-try,
  Frames-post, Frames-set_context, Frames-create_task, Frames-tunnel, Frames-profile, Frames-bypass,
  Frames-domains, Frames-wildcards, Frames-subnets, Frames-bind,
)
