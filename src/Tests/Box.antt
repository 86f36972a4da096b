-- ===== src/Tests/Box.antt =====
-- A small host on which the commands do what the laws of `IsLinux` ask, for the tests.
use virtual_private_network.Prelude.{
  ℕ, ◌+◌, ◌-◌, ◌≤◌, String, ◌≡◌, refl, Bool, true, false, arith, ◌==◌, str_eq, eq_iff,
  if◌then◌else◌,
}
use virtual_private_network.Ports.Command.{
  Command, rule, link, route, firewall, add_to, add_lan, add_mark, add_catchall, clear, tuntap_add,
  tuntap_del, batch, add_default, add_route, flush, nat_hook, nat_unhook, mss_add, mss_del, ipv6_on,
  ipv6_off,
}
use virtual_private_network.Orchestrator.Teardown.Kernel.{
  Kernel, IsLinux, adds_rule, adds_routes, makes_tun, adds_hook, adds_clamp,
}

pub record Box : Type 0 where
  pub rules : ℕ → ℕ
  pub table : String → ℕ
  pub tun : Bool
  pub jumps : String → ℕ
  pub mss : ℕ → ℕ
  pub no_ipv6 : Bool

abbrev plus_at : ℕ → (ℕ → ℕ) → ℕ → ℕ
plus_at p f q = if p == q then f q + 1 else f q

abbrev rules_after : Command → (ℕ → ℕ) → ℕ → ℕ
rules_after (rule (add_to _ p)) f = plus_at p f
rules_after (rule (add_lan _ p)) f = plus_at p f
rules_after (rule (add_mark p)) f = plus_at p f
rules_after (rule (add_catchall _ p)) f = plus_at p f
rules_after (rule (clear p)) f = λ q. if p == q then 0 else f q
rules_after _ f = f

abbrev table_after : Command → (String → ℕ) → String → ℕ
table_after (route (batch _)) f = λ t. f t + 1
table_after (route (add_default _)) f = λ t. f t + 1
table_after (route (add_route _ _)) f = λ t. f t + 1
table_after (route (flush t)) f = λ u. if str_eq t u then 0 else f u
table_after _ f = f

abbrev tun_after : Command → Bool → Bool
tun_after (link tuntap_add) b = true
tun_after (link tuntap_del) b = false
tun_after _ b = b

abbrev jumps_after : Command → (String → ℕ) → String → ℕ
jumps_after (firewall (nat_hook n)) f = λ m. if str_eq n m then f m + 1 else f m
jumps_after (firewall (nat_unhook n)) f = λ m. if str_eq n m then f m - 1 else f m
jumps_after _ f = f

abbrev mss_after : Command → (ℕ → ℕ) → ℕ → ℕ
mss_after (firewall (mss_add v)) f = plus_at v f
mss_after (firewall (mss_del v)) f = λ w. if v == w then f w - 1 else f w
mss_after _ f = f

abbrev no_ipv6_after : Command → Bool → Bool
no_ipv6_after (firewall ipv6_off) b = true
no_ipv6_after (firewall ipv6_on) b = false
no_ipv6_after _ b = b

abbrev run : Command → Box → Box
run c b = record {
  rules = rules_after c b.rules;
  table = table_after c b.table;
  tun = tun_after c b.tun;
  jumps = jumps_after c b.jumps;
  mss = mss_after c b.mss;
  no_ipv6 = no_ipv6_after c b.no_ipv6;
}

abbrev pub box : Kernel
box = record {
  Host = Box;
  apply = run;
  rules_at = λ b p. b.rules p;
  routes = λ b t. b.table t;
  has_tun = λ b. b.tun;
  hooks = λ b n. b.jumps n;
  clamps = λ b v. b.mss v;
  ipv6_off = λ b. b.no_ipv6;
}

rules_kept : (c : Command) (b : Box) (p : ℕ) → adds_rule c p ≡ false → (run c b).rules p ≤ b.rules p
rules_kept (rule (add_to _ q)) b p h = ground arith
rules_kept (rule (add_lan _ q)) b p h = ground arith
rules_kept (rule (add_mark q)) b p h = ground arith
rules_kept (rule (add_catchall _ q)) b p h = ground arith
rules_kept (rule (clear q)) b p h = ground arith
rules_kept c b p h = omega arith

routes_kept :
    (c : Command) (b : Box) (t : String) → adds_routes c ≡ false → (run c b).table t ≤ b.table t
routes_kept (route (batch _)) b t h = cc
routes_kept (route (add_default _)) b t h = cc
routes_kept (route (add_route _ _)) b t h = cc
routes_kept (route (flush u)) b t h = ground arith
routes_kept c b t h = omega arith

tun_kept : (c : Command) (b : Box) → makes_tun c ≡ false → b.tun ≡ false → (run c b).tun ≡ false
tun_kept (link tuntap_add) b h k = cc
tun_kept (link tuntap_del) b h k = refl
tun_kept c b h k = k

hooks_kept :
    (c : Command) (b : Box) (n : String) → adds_hook c ≡ false → (run c b).jumps n ≤ b.jumps n
hooks_kept (firewall (nat_hook _)) b n h = cc
hooks_kept (firewall (nat_unhook m)) b n h = ground arith
hooks_kept c b n h = omega arith

clamps_kept : (c : Command) (b : Box) (v : ℕ) → adds_clamp c ≡ false → (run c b).mss v ≤ b.mss v
clamps_kept (firewall (mss_add _)) b v h = cc
clamps_kept (firewall (mss_del w)) b v h = ground arith
clamps_kept c b v h = omega arith

cleared : (p : ℕ) (b : Box) → (run (rule (clear p)) b).rules p ≡ 0
cleared p b = ground arith

flushed : (t : String) (b : Box) → (run (route (flush t)) b).table t ≡ 0
flushed t b = ground (arith, eq_iff t t)

unhooked : (n : String) (b : Box) → (run (firewall (nat_unhook n)) b).jumps n ≡ b.jumps n - 1
unhooked n b = ground (arith, eq_iff n n)

hooked : (n m : String) (b : Box) → (run (firewall (nat_hook n)) b).jumps m ≤ b.jumps m + 1
hooked n m b = ground arith

unclamped : (v : ℕ) (b : Box) → (run (firewall (mss_del v)) b).mss v ≡ b.mss v - 1
unclamped v b = ground arith

clamped : (v w : ℕ) (b : Box) → (run (firewall (mss_add v)) b).mss w ≤ b.mss w + 1
clamped v w b = ground arith

pub box-IsLinux : IsLinux box
box-IsLinux = record {
  cleared = cleared;
  rules_kept = rules_kept;
  flushed = flushed;
  routes_kept = routes_kept;
  tun_gone = λ b. refl;
  tun_kept = tun_kept;
  unhooked = unhooked;
  hooked = hooked;
  hooks_kept = hooks_kept;
  unclamped = unclamped;
  clamped = clamped;
  clamps_kept = clamps_kept;
  ipv6_back = λ b. refl;
}

-- A host on which a bootstrap has left a rule, a route, tun0, a jump and a clamp.
abbrev pub used_box : Box
used_box = record {
  rules = λ p. if p == 1 then 2 else 0;
  table = λ t. if str_eq t "100" then 3 else 0;
  tun = true;
  jumps = λ n. 1;
  mss = λ v. 1;
  no_ipv6 = true;
}
