-- ===== src/Orchestrator/Teardown/Restores.antt =====
-- The teardown takes away what the daemon puts into the host.
use virtual_private_network.Prelude.{
  ℕ, zero, suc, ◌+◌, ◌-◌, ◌≤◌, ◌<◌, String, ◌≡◌, refl, true, false, List, [], ◌∷◌, All, range,
  arith,
}
use mathlib.Core.Path.{subst}
use native.Mathlib.Decide.{ℕ_discrete}
use virtual_private_network.Ports.Command.{
  Command, rule, link, route, firewall, host, pkill, link_down, tuntap_del, flush, clear,
  nat_unhook, nat_flush, nat_delete, mss_del, ipv6_on,
}
use virtual_private_network.Ports.Effect.{ok}
use virtual_private_network.Ports.Env.{History, shell}
use virtual_private_network.Orchestrator.Teardown.{teardown_network}
use virtual_private_network.Orchestrator.Teardown.Trace.{
  clears, unwound, torn_down, teardown_network_lem,
}
use virtual_private_network.Orchestrator.Teardown.Kernel.{Kernel, IsLinux, after}
use virtual_private_network.Orchestrator.Teardown.Counts.{
  is_removal, flushed_at, clears-le, flushed-le, unhooked-le, cleared-le, unclamped-le,
}
use virtual_private_network.World.{Config}

-- A host with no rule at the daemon's priorities, no route in its table, no tunnel device and IPv6
-- on, and with one jump to its chain and one clamp less than before, if there was one.
pub record Restored (K : Kernel) (cfg : Config) (old new : K.Host) : Type 0 where
  pub rules : All (λ p. K.rules_at new p ≡ 0) (range 1 30)
  pub routes : K.routes new cfg.table_id ≡ 0
  pub tun : K.has_tun new ≡ false
  pub hooks : K.hooks new cfg.chain_name ≤ K.hooks old cfg.chain_name - 1
  pub clamps : K.clamps new cfg.mss_value ≤ K.clamps old cfg.mss_value - 1
  pub ipv6 : K.ipv6_off new ≡ false

All-range : (P : ℕ → Type 0) (a n : ℕ) → ((p : ℕ) → a ≤ p → p < a + n → P p) → All P (range a n)
unfolding range
All-range P a zero f = tt
All-range P a (suc n) f = (
  f a (omega arith) (omega arith),
  All-range P (suc a) n (λ p l u. f p (omega arith) (omega arith)),
)

module _ (K : Kernel) (L : IsLinux K) (start : K.Host) where
  rules_fall :
      (p : ℕ) (c : Command) (h : K.Host)
      → is_removal c ≡ true
      → K.rules_at (K.apply c h) p ≤ K.rules_at h p
  rules_fall p c h e = L.rules_kept c h p (ground arith)

  routes_fall :
      (t : String) (c : Command) (h : K.Host)
      → is_removal c ≡ true
      → K.routes (K.apply c h) t ≤ K.routes h t
  routes_fall t c h e = L.routes_kept c h t (ground arith)

  hooks_fall :
      (n : String) (c : Command) (h : K.Host)
      → is_removal c ≡ true
      → K.hooks (K.apply c h) n ≤ K.hooks h n
  hooks_fall n c h e = L.hooks_kept c h n (ground arith)

  clamps_fall :
      (v : ℕ) (c : Command) (h : K.Host)
      → is_removal c ≡ true
      → K.clamps (K.apply c h) v ≤ K.clamps h v
  clamps_fall v c h e = L.clamps_kept c h v (ground arith)

  clears-range :
      (a n p : ℕ) (h : History)
      → a ≤ p
      → p < a + n
      → K.rules_at (after K start (clears (range a n) h)) p ≡ 0
  unfolding range
  clears-range a zero p h l u = absurd (omega arith)
  clears-range a (suc n) p h l u = elim (ℕ_discrete a p) [
    | yes e ↦
        let gone : K.rules_at (after K start (shell (rule (clear a)) ∷ h)) p ≡ 0 =
          subst (λ q. K.rules_at (after K start (shell (rule (clear a)) ∷ h)) q ≡ 0) e
            (L.cleared a (after K start h)) in
        omega (
          arith,
          clears-le K start (λ x. K.rules_at x p) (rules_fall p) (range (suc a) n)
              (shell (rule (clear a)) ∷ h),
        )
    | no d ↦ clears-range (suc a) n p _ (omega arith) (omega arith)
  ]

  clears-tun :
      (ps : List ℕ) (h : History)
      → K.has_tun (after K start h) ≡ false
      → K.has_tun (after K start (clears ps h)) ≡ false
  clears-tun [] h e = e
  clears-tun (q ∷ ps) h e = clears-tun ps _ (L.tun_kept (rule (clear q)) (after K start h) refl e)

  flushed_tun : (cfg : Config) (h : History) → K.has_tun (after K start (flushed_at cfg h)) ≡ false
  flushed_tun cfg h =
      L.tun_kept (route (flush cfg.table_id)) _ refl
        (L.tun_gone (K.apply (link link_down) (after K start h)))

  tun_gone_at : (cfg : Config) (h : History) → K.has_tun (after K start (unwound cfg h)) ≡ false
  unfolding unwound
  tun_gone_at cfg h = L.tun_kept (firewall ipv6_on) _ refl (
      L.tun_kept (firewall (mss_del cfg.mss_value)) _ refl (
        L.tun_kept (firewall (nat_delete cfg.chain_name)) _ refl (
          L.tun_kept (firewall (nat_flush cfg.chain_name)) _ refl (
            L.tun_kept (firewall (nat_unhook cfg.chain_name)) _ refl
              (clears-tun (range 1 30) (flushed_at cfg h) (flushed_tun cfg h))))))

  ipv6_back_at : (cfg : Config) (h : History) → K.ipv6_off (after K start (unwound cfg h)) ≡ false
  unfolding unwound
  ipv6_back_at cfg h = L.ipv6_back _

  -- Taking the configuration back leaves the host restored.
  pub unwound-Restored :
      (cfg : Config) (h : History)
      → Restored K cfg (after K start h) (after K start (unwound cfg h))
  unwound-Restored cfg h = record {
    rules = All-range _ 1 30 (λ p l u. omega (
      arith,
      cleared-le K start (λ x. K.rules_at x p) (rules_fall p) cfg h,
      clears-range 1 30 p (flushed_at cfg h) l u,
    ));
    routes =
        let f = routes_fall cfg.table_id in
        let n = λ (x : K.Host). K.routes x cfg.table_id in
        omega (
          arith,
          cleared-le K start n f cfg h,
          clears-le K start n f (range 1 30) (flushed_at cfg h),
          L.flushed cfg.table_id
              (after K start (shell (link tuntap_del) ∷ shell (link link_down) ∷ h)),
        );
    tun = tun_gone_at cfg h;
    hooks =
        let f = hooks_fall cfg.chain_name in
        let n = λ (x : K.Host). K.hooks x cfg.chain_name in
        omega (
          arith,
          unhooked-le K start n f cfg h,
          clears-le K start n f (range 1 30) (flushed_at cfg h),
          flushed-le K start n f cfg h,
          L.unhooked cfg.chain_name (after K start (clears (range 1 30) (flushed_at cfg h))),
        );
    clamps =
        let (g, l, u) =
          unclamped-le K start (λ x. K.clamps x cfg.mss_value) (clamps_fall cfg.mss_value) cfg h in
        omega (arith, L.unclamped cfg.mss_value (after K start g));
    ipv6 = ipv6_back_at cfg h;
  }

  torn_down-Restored :
      (cfg : Config) (h : History)
      → Restored K cfg (after K start h) (after K start (torn_down cfg h))
  torn_down-Restored cfg h =
      let a = after K start h in
      let b = K.apply (host (pkill "sing-box")) a in
      let r =
        unwound-Restored cfg
          (shell (host (pkill "tun2socks")) ∷ shell (host (pkill "sing-box")) ∷ h) in
      record {
        rules = r.rules;
        routes = r.routes;
        tun = r.tun;
        hooks = omega (
          arith,
          r.hooks,
          hooks_fall cfg.chain_name (host (pkill "sing-box")) a refl,
          hooks_fall cfg.chain_name (host (pkill "tun2socks")) b refl,
        );
        clamps = omega (
          arith,
          r.clamps,
          clamps_fall cfg.mss_value (host (pkill "sing-box")) a refl,
          clamps_fall cfg.mss_value (host (pkill "tun2socks")) b refl,
        );
        ipv6 = r.ipv6;
      }

  -- On a host whose kernel obeys the laws of `IsLinux`, after any history and whatever the commands
  -- answer: the teardown returns without raising, and leaves no rule at the priorities 1 to 30, no
  -- route in the daemon's table and no tun0, takes away one jump to the chain and one MSS clamp if
  -- there were any, and switches IPv6 on again.
  pub teardown_network-Restored :
      (cfg : Config) (h : History)
      → ((teardown_network cfg h).0 ≡ ok tt)
        × Restored K cfg (after K start h) (after K start (teardown_network cfg h).1)
  teardown_network-Restored cfg h = rw teardown_network_lem (refl, torn_down-Restored cfg h)
