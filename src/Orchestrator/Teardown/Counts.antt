-- ===== src/Orchestrator/Teardown/Counts.antt =====
-- A count of something on the host through the stages of the teardown.
use virtual_private_network.Prelude.{
  ℕ, ◌≤◌, ◌≡◌, refl, Bool, true, false, List, [], ◌∷◌, range, arith,
}
use virtual_private_network.Ports.Command.{
  Command, rule, link, route, firewall, host, pkill, link_down, tuntap_del, flush, clear,
  nat_unhook, nat_flush, nat_delete, mss_del, ipv6_on,
}
use virtual_private_network.Ports.Env.{History, shell}
use virtual_private_network.Orchestrator.Teardown.Trace.{clears, unwound}
use virtual_private_network.Orchestrator.Teardown.Kernel.{Kernel, after}
use virtual_private_network.World.{Config}

-- The commands of the teardown.
abbrev pub is_removal : Command → Bool
is_removal (rule (clear _)) = true
is_removal (route (flush _)) = true
is_removal (link link_down) = true
is_removal (link tuntap_del) = true
is_removal (firewall (nat_unhook _)) = true
is_removal (firewall (nat_flush _)) = true
is_removal (firewall (nat_delete _)) = true
is_removal (firewall (mss_del _)) = true
is_removal (firewall ipv6_on) = true
is_removal (host (pkill _)) = true
is_removal _ = false

-- The history when the table has been flushed.
abbrev pub flushed_at : Config → History → History
flushed_at cfg h =
    shell (route (flush cfg.table_id)) ∷ shell (link tuntap_del) ∷ shell (link link_down) ∷ h

-- A count that no command of the teardown raises, through the stages of the teardown.
module _ (K : Kernel) (start : K.Host) (count : K.Host → ℕ)
    (falls : (c : Command) (h : K.Host) → is_removal c ≡ true → count (K.apply c h) ≤ count h) where
  abbrev pub counted : History → ℕ
  counted h = count (after K start h)

  pub clears-le : (ps : List ℕ) (h : History) → counted (clears ps h) ≤ counted h
  clears-le [] h = omega arith
  clears-le (q ∷ ps) h = omega (
    arith,
    clears-le ps (shell (rule (clear q)) ∷ h),
    falls (rule (clear q)) (after K start h) refl,
  )

  pub flushed-le : (cfg : Config) (h : History) → counted (flushed_at cfg h) ≤ counted h
  flushed-le cfg h =
      let c = after K start h in
      let d = K.apply (link link_down) c in
      let e = K.apply (link tuntap_del) d in
      omega (
        arith,
        falls (link link_down) c refl,
        falls (link tuntap_del) d refl,
        falls (route (flush cfg.table_id)) e refl,
      )

  pub unhooked-le :
      (cfg : Config) (h : History)
      → counted (unwound cfg h)
        ≤ counted
            (shell (firewall (nat_unhook cfg.chain_name)) ∷ clears (range 1 30) (flushed_at cfg h))
  unfolding unwound
  unhooked-le cfg h =
      let b =
        after K start
          (shell (firewall (nat_unhook cfg.chain_name)) ∷ clears (range 1 30) (flushed_at cfg h)) in
      let c = K.apply (firewall (nat_flush cfg.chain_name)) b in
      let d = K.apply (firewall (nat_delete cfg.chain_name)) c in
      let e = K.apply (firewall (mss_del cfg.mss_value)) d in
      omega (
        arith,
        falls (firewall (nat_flush cfg.chain_name)) b refl,
        falls (firewall (nat_delete cfg.chain_name)) c refl,
        falls (firewall (mss_del cfg.mss_value)) d refl,
        falls (firewall ipv6_on) e refl,
      )

  pub cleared-le :
      (cfg : Config) (h : History)
      → counted (unwound cfg h) ≤ counted (clears (range 1 30) (flushed_at cfg h))
  cleared-le cfg h = omega (
    arith,
    unhooked-le cfg h,
    falls (firewall (nat_unhook cfg.chain_name))
        (after K start (clears (range 1 30) (flushed_at cfg h))) refl,
  )

  pub unclamped-le :
      (cfg : Config) (h : History)
      → (g : History) × (counted (unwound cfg h)
          ≤ counted (shell (firewall (mss_del cfg.mss_value)) ∷ g))
        × (counted g ≤ counted h)
  unfolding unwound
  unclamped-le cfg h =
      let a = clears (range 1 30) (flushed_at cfg h) in
      let g =
        shell (firewall (nat_delete cfg.chain_name))
        ∷ shell (firewall (nat_flush cfg.chain_name))
        ∷ shell (firewall (nat_unhook cfg.chain_name))
        ∷ a in
      (
        g,
        falls (firewall ipv6_on) (after K start (shell (firewall (mss_del cfg.mss_value)) ∷ g))
            refl,
        omega (
          arith,
          falls (firewall (nat_delete cfg.chain_name))
              (after K start (
                shell (firewall (nat_flush cfg.chain_name))
                ∷ shell (firewall (nat_unhook cfg.chain_name))
                ∷ a))
              refl,
          falls (firewall (nat_flush cfg.chain_name))
              (after K start (shell (firewall (nat_unhook cfg.chain_name)) ∷ a)) refl,
          falls (firewall (nat_unhook cfg.chain_name)) (after K start a) refl,
          clears-le (range 1 30) (flushed_at cfg h),
          flushed-le cfg h,
        ),
      )
