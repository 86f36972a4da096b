-- ===== src/Machine/Loop/Invariant.antt =====
-- What holds of the daemon between any two steps: the streak of failures fits the state, and the
-- only live timer is that of the current state.
use virtual_private_network.Prelude.{
  ℕ, ◌≤◌, ◌≡◌, refl, Option, none, some, List, [], ◌∷◌, ◌++◌, arith, ap, ◌⊎◌, inl, inr,
}
use virtual_private_network.World.{
  Daemon, State, bootstrapping, healthy, degraded, restarting, failed, stopped, Task, on_timeout,
  bootstrap, watch, ru_updater, Config,
}
use virtual_private_network.Machine.States.{transition_to, cancel, cancel_some}
use virtual_private_network.Machine.States.Transition.{
  transition_to_lem, tasks_left, entered, placed,
}

-- The live timers, as pairs of an id and its seconds.
abbrev pub timers : List Task → List (ℕ × ℕ)
timers [] = []
timers (on_timeout id seconds ∷ ts) = (id, seconds) ∷ timers ts
timers (bootstrap _ ∷ ts) = timers ts
timers (watch _ _ ∷ ts) = timers ts
timers (ru_updater ∷ ts) = timers ts

-- The seconds that a state gives its timer.
abbrev pub limit : Option State → Option ℕ
limit (some bootstrapping) = some 60
limit (some restarting) = some 10
limit _ = none

-- No timer is alive, or one that belongs to the current state and has its limit.
abbrev pub OneTimer : Option State → Option ℕ → List Task → Type 0
OneTimer s timer ts =
    (timers ts ≡ [])
    ⊎ ((id : ℕ) × (n : ℕ) × (timers ts ≡ (id, n) ∷ []) × (timer ≡ some id) × (limit s ≡ some n))

abbrev pub StreakFits : Option State → ℕ → Type 0
StreakFits (some healthy) n = n ≡ 0
StreakFits (some degraded) n = (1 ≤ n) × (n ≤ 2)
StreakFits _ n = n ≤ 3

pub record Inv (d : Daemon) : Type 0 where
  pub streak : StreakFits d.state d.context.fail_streak
  pub one_timer : OneTimer d.state d.timer d.tasks

pub timers-append : (ts us : List Task) → timers (ts ++ us) ≡ timers ts ++ timers us
timers-append [] us = refl
timers-append (on_timeout id n ∷ ts) us = ap (λ l. (id, n) ∷ l) (timers-append ts us)
timers-append (bootstrap _ ∷ ts) us = timers-append ts us
timers-append (watch _ _ ∷ ts) us = timers-append ts us
timers-append (ru_updater ∷ ts) us = timers-append ts us

cancel_nothing : (id : ℕ) (ts : List Task) → timers ts ≡ [] → timers (cancel id ts) ≡ []
unfolding cancel
cancel_nothing id [] h = refl
cancel_nothing id (on_timeout j n ∷ ts) h = cc
cancel_nothing id (bootstrap _ ∷ ts) h = cancel_nothing id ts h
cancel_nothing id (watch _ _ ∷ ts) h = cancel_nothing id ts h
cancel_nothing id (ru_updater ∷ ts) h = cancel_nothing id ts h

cancel_only : (id n : ℕ) (ts : List Task) → timers ts ≡ (id, n) ∷ [] → timers (cancel id ts) ≡ []
unfolding cancel
cancel_only id n [] h = cc
cancel_only id n (on_timeout j m ∷ ts) h = ground (arith, cancel_nothing id ts)
cancel_only id n (bootstrap _ ∷ ts) h = cancel_only id n ts h
cancel_only id n (watch _ _ ∷ ts) h = cancel_only id n ts h
cancel_only id n (ru_updater ∷ ts) h = cancel_only id n ts h

cancelled :
    (s : Option State) (timer : Option ℕ) (ts : List Task)
    → OneTimer s timer ts
    → timers (cancel_some timer ts) ≡ []
cancelled s none ts (inl h) = h
cancelled s (some id) ts (inl h) = cancel_nothing id ts h
cancelled s none ts (inr (id, n, h, k, l)) = cc
cancelled s (some j) ts (inr (id, n, h, k, l)) = cancel_only j n ts (ground (arith))

-- When a state is left, no timer stays alive.
pub timers-tasks_left :
    (s : Option State) (timer : Option ℕ) (ts : List Task)
    → OneTimer s timer ts
    → timers (tasks_left s timer ts) ≡ []
timers-tasks_left (some bootstrapping) timer ts h = cancelled (some bootstrapping) timer ts h
timers-tasks_left (some restarting) timer ts h = cancelled (some restarting) timer ts h
timers-tasks_left none timer ts h = ground arith
timers-tasks_left (some healthy) timer ts h = ground arith
timers-tasks_left (some degraded) timer ts h = ground arith
timers-tasks_left (some failed) timer ts h = ground arith
timers-tasks_left (some stopped) timer ts h = ground arith

-- What the streak must be where a state is entered; HEALTHY resets it.
abbrev pub CanEnter : State → ℕ → Type 0
CanEnter healthy n = Unit
CanEnter degraded n = (1 ≤ n) × (n ≤ 2)
CanEnter _ n = n ≤ 3

pub transition_to-Inv :
    (cfg : Config) (s : State) (d : Daemon)
    → CanEnter s d.context.fail_streak
    → OneTimer d.state d.timer d.tasks
    → Inv (transition_to cfg s d).1
transition_to-Inv cfg s d e t = rw transition_to_lem (enter s e)
  where
    left : timers (tasks_left d.state d.timer d.tasks) ≡ []
    left = timers-tasks_left d.state d.timer d.tasks t

    enter : (s : State) → CanEnter s d.context.fail_streak → Inv (entered cfg s (placed s d)).1
    enter bootstrapping e = record {
      streak = e;
      one_timer = inr (d.next_task, 60, simp (timers-append, left), refl, refl);
    }
    enter healthy e = record { streak = refl; one_timer = inl left }
    enter degraded e = record { streak = e; one_timer = inl left }
    enter restarting e = record {
      streak = e;
      one_timer = inr (d.next_task, 10, simp (timers-append, left), refl, refl);
    }
    enter failed e = record { streak = e; one_timer = inl left }
    enter stopped e = record { streak = e; one_timer = inl left }
