-- ===== src/Akonit/Provider/Kept.antt =====
-- The kept profile, and what the configuration may have.
use virtual_private_network.Prelude.{
  String, ◌≡◌, refl, Bool, true, false, none, some, Bool-cases, inl, inr, ◌&&◌, ◌||◌, not,
}
use virtual_private_network.Ports.Effect.{ok}
use virtual_private_network.Ports.Env.{Env, History}
use virtual_private_network.Ports.Json.{
  Json, Fields, Items, null, bool, num, real, str, arr, obj, nil, cons, lookup,
}
use virtual_private_network.Akonit.Provider.{load_profile, list_servers, akonit}
use virtual_private_network.Akonit.Provider.Sanitize.{
  dns_servers, dns_server, is_word, local_server, with_server,
}

-- Once a profile has been read, the list of servers is what it was at the reading, whatever is on the
-- disk later, until `reload`; after that it is what it is for a new provider.
pub list_servers-reload :
    (env : Env) (path : String) (before : String → String → Bool) (h h' : History) (profile : Json)
    → load_profile env path h none ≡ (ok profile, some profile)
    → ((akonit env path before).list_servers h' (some profile)
        ≡ (akonit env path before).list_servers h none)
      × ((akonit env path before).list_servers h' ((akonit env path before).reload (some profile))
          ≡ list_servers env path before h' none)
unfolding akonit list_servers load_profile
list_servers-reload env path before h h' profile e = (rw e refl, refl)

-- No server of the DNS that the runtime does not know.
abbrev pub is_supported : Json → Bool
is_supported (obj fs) =
    not (is_word "predefined" (lookup "type" fs) || is_word "batch" (lookup "type" fs))
is_supported _ = false

unfoldable pub all_supported : Items → Bool
unfolding lookup
all_supported nil = true
all_supported (cons j js) = is_supported j && all_supported js

local_server-supported : (tag : Json) → is_supported (local_server tag) ≡ true
unfolding lookup
local_server-supported tag = elim (Bool-cases (is_word "dns_proxy_out" (some tag))) [
  | inl c ↦ rw c refl
  | inr c ↦ rw c refl
]

unfoldable pub all_dicts : Items → Bool
all_dicts nil = true
all_dicts (cons (obj fs) js) = all_dicts js
all_dicts (cons _ js) = false

with_server-supported :
    (fs : Fields) (rest : Items)
    → all_supported rest ≡ true
    → all_supported (with_server (dns_server fs) rest) ≡ true
unfolding all_supported lookup
with_server-supported fs rest h = elim (Bool-cases (is_word "predefined" (lookup "type" fs))) [
  | inl c ↦ rw c h
  | inr c ↦ elim (Bool-cases (is_word "batch" (lookup "type" fs))) [
    | inl e ↦ rw (c, e) (rw (local_server-supported _, h) refl)
    | inr e ↦ rw (c, e) (rw (c, e, h) refl)
  ]
]

-- If every server of the DNS is a dict, the step on them succeeds, and of the servers that it leaves
-- none is of the type "predefined" or "batch".
pub dns_servers-supported :
    {S : Type 0} (items : Items) (s : S)
    → all_dicts items ≡ true
    → (kept : Items) × (dns_servers items s ≡ (ok kept, s)) × (all_supported kept ≡ true)
unfolding dns_servers all_dicts all_supported
dns_servers-supported nil s h = (nil, refl, refl)
dns_servers-supported (cons (obj fs) js) s h =
    let (kept, e, good) = dns_servers-supported js s h in
    (with_server (dns_server fs) kept, rw e refl, with_server-supported fs kept good)
dns_servers-supported (cons null js) s h = cc
dns_servers-supported (cons (bool b) js) s h = cc
dns_servers-supported (cons (num n) js) s h = cc
dns_servers-supported (cons (real n) js) s h = cc
dns_servers-supported (cons (str t) js) s h = cc
dns_servers-supported (cons (arr xs) js) s h = cc
