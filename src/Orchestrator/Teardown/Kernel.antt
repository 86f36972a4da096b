-- ===== src/Orchestrator/Teardown/Kernel.antt =====
-- The host as the commands see it. The kernel and its tools are not part of the program: they are a
-- parameter here, with what the manual pages say of the commands as laws.
use virtual_private_network.Prelude.{
  ℕ, ◌+◌, ◌-◌, ◌≤◌, String, ◌≡◌, Bool, true, false, [], ◌∷◌, ◌==◌,
}
use virtual_private_network.Ports.Command.{
  Command, rule, link, route, firewall, add_to, add_lan, add_mark, add_catchall, clear, tuntap_add,
  tuntap_del, batch, add_default, add_route, flush, nat_hook, nat_unhook, mss_add, mss_del, ipv6_on,
}
use virtual_private_network.Ports.Env.{
  History, shell, popen, kill, terminate, wait, sleep, makedirs, copy, write_text, write_temp,
  remove_file, notify, request_url, ask_daemon,
}

-- Rules by priority, routes by table, jumps to a chain, clamps by value.
pub record Kernel : Type 1 where
  pub Host : Type 0
  pub apply : Command → Host → Host
  pub rules_at : Host → ℕ → ℕ
  pub routes : Host → String → ℕ
  pub has_tun : Host → Bool
  pub hooks : Host → String → ℕ
  pub clamps : Host → ℕ → ℕ
  pub ipv6_off : Host → Bool

-- The commands that can add what is counted.
abbrev pub adds_rule : Command → ℕ → Bool
adds_rule (rule (add_to _ q)) p = q == p
adds_rule (rule (add_lan _ q)) p = q == p
adds_rule (rule (add_mark q)) p = q == p
adds_rule (rule (add_catchall _ q)) p = q == p
adds_rule _ p = false

abbrev pub adds_routes : Command → Bool
adds_routes (route (batch _)) = true
adds_routes (route (add_default _)) = true
adds_routes (route (add_route _ _)) = true
adds_routes _ = false

abbrev pub makes_tun : Command → Bool
makes_tun (link tuntap_add) = true
makes_tun _ = false

abbrev pub adds_hook : Command → Bool
adds_hook (firewall (nat_hook _)) = true
adds_hook _ = false

abbrev pub adds_clamp : Command → Bool
adds_clamp (firewall (mss_add _)) = true
adds_clamp _ = false

-- `while ip rule del priority p` goes on until there is no such rule; `iptables -D` takes one rule
-- away; what a command is not for, it does not add.
pub record IsLinux (K : Kernel) : Type 0 where
  pub cleared : (p : ℕ) (h : K.Host) → K.rules_at (K.apply (rule (clear p)) h) p ≡ 0
  pub rules_kept :
      (c : Command) (h : K.Host) (p : ℕ)
      → adds_rule c p ≡ false
      → K.rules_at (K.apply c h) p ≤ K.rules_at h p
  pub flushed : (t : String) (h : K.Host) → K.routes (K.apply (route (flush t)) h) t ≡ 0
  pub routes_kept :
      (c : Command) (h : K.Host) (t : String)
      → adds_routes c ≡ false
      → K.routes (K.apply c h) t ≤ K.routes h t
  pub tun_gone : (h : K.Host) → K.has_tun (K.apply (link tuntap_del) h) ≡ false
  pub tun_kept :
      (c : Command) (h : K.Host)
      → makes_tun c ≡ false
      → K.has_tun h ≡ false
      → K.has_tun (K.apply c h) ≡ false
  pub unhooked :
      (n : String) (h : K.Host) → K.hooks (K.apply (firewall (nat_unhook n)) h) n ≡ K.hooks h n - 1
  pub hooked :
      (n m : String) (h : K.Host) → K.hooks (K.apply (firewall (nat_hook n)) h) m ≤ K.hooks h m + 1
  pub hooks_kept :
      (c : Command) (h : K.Host) (n : String)
      → adds_hook c ≡ false
      → K.hooks (K.apply c h) n ≤ K.hooks h n
  pub unclamped :
      (v : ℕ) (h : K.Host) → K.clamps (K.apply (firewall (mss_del v)) h) v ≡ K.clamps h v - 1
  pub clamped :
      (v w : ℕ) (h : K.Host) → K.clamps (K.apply (firewall (mss_add v)) h) w ≤ K.clamps h w + 1
  pub clamps_kept :
      (c : Command) (h : K.Host) (v : ℕ)
      → adds_clamp c ≡ false
      → K.clamps (K.apply c h) v ≤ K.clamps h v
  pub ipv6_back : (h : K.Host) → K.ipv6_off (K.apply (firewall ipv6_on) h) ≡ false

-- The host after the commands of a history.
abbrev pub after : (K : Kernel) → K.Host → History → K.Host
after K h [] = h
after K h (shell c ∷ t) = K.apply c (after K h t)
after K h (popen _ ∷ t) = after K h t
after K h (kill _ ∷ t) = after K h t
after K h (terminate _ ∷ t) = after K h t
after K h (wait _ ∷ t) = after K h t
after K h (sleep _ ∷ t) = after K h t
after K h (makedirs _ ∷ t) = after K h t
after K h (copy _ _ ∷ t) = after K h t
after K h (write_text _ _ ∷ t) = after K h t
after K h (write_temp _ ∷ t) = after K h t
after K h (remove_file _ ∷ t) = after K h t
after K h (notify _ ∷ t) = after K h t
after K h (request_url _ ∷ t) = after K h t
after K h (ask_daemon _ ∷ t) = after K h t
