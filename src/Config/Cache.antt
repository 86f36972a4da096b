-- ===== src/Config/Cache.antt =====
-- src/vpn/config/config_loader.py: `functools.cache` on the getters. An object is loaded once, and a
-- load that raises is not remembered.
use virtual_private_network.Prelude.{Option, none, some, ◌≡◌, refl}
use virtual_private_network.Ports.Effect.{M, Outcome, ok, raised, Exn}
use virtual_private_network.Ports.Env.{History}

module _ {A : Type 0} where
  abbrev pub remembered : Outcome A × History → Outcome A × (Option A × History)
  remembered (ok a, h) = (ok a, (some a, h))
  remembered (raised e, h) = (raised e, (none, h))

  unfoldable pub cached : M History A → M (Option A × History) A
  cached load (some a, h) = (ok a, (some a, h))
  cached load (none, h) = remembered (load h)

  remembered-again :
      (load : M History A) (r : Outcome A × History) (a : A) (s : Option A × History)
      → remembered r ≡ (ok a, s)
      → cached load s ≡ (ok a, s)
  unfolding cached
  remembered-again load (ok b, h) a (some c, k) e = cc
  remembered-again load (ok b, h) a (none, k) e = cc
  remembered-again load (raised x, h) a s e = cc

  -- Once a getter has returned an object, every further call returns the same object and touches
  -- neither the cache nor the world.
  pub cached-cached :
      (load : M History A) (a : A) (s t : Option A × History)
      → cached load s ≡ (ok a, t)
      → cached load t ≡ (ok a, t)
  unfolding cached
  cached-cached load a (none, h) t e = remembered-again load (load h) a t e
  cached-cached load a (some b, h) (some c, k) e = cc
  cached-cached load a (some b, h) (none, k) e = cc

  -- After a load that raises the next call loads again.
  pub cached-retries :
      (load : M History A) (e : Exn) (h k : History)
      → load h ≡ (raised e, k)
      → cached load (none, h) ≡ (raised e, (none, k))
  unfolding cached
  cached-retries load e h k p = rw p refl
