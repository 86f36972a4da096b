-- ===== src/Subscription/Apply/Writes.antt =====
-- What applying a subscription writes and removes.
use virtual_private_network.Prelude.{
  String, ◌≡◌, refl, sym, ◌∙◌, ap, false, List, [], ◌∷◌, ◌++◌, str_eq, Bool-cases, inl, inr, All,
  All-append,
}
use virtual_private_network.Ports.Effect.{M, ok, raised, Exn, ◌>>=◌}
use virtual_private_network.Ports.Env.{Env, History, Act, remove_file, file}
use virtual_private_network.Subscription.{validate_profile}
use virtual_private_network.Subscription.Apply.{Updater, remove_one, remove_paths, cleanup, apply}

-- A subscription that is rejected changes nothing: the exception is passed on before anything is
-- written or removed.
pub apply-rejected :
    (env : Env) (u : Updater) (text : String) (e : Exn) (h : History)
    → validate_profile env text ≡ raised e
    → apply env u text h ≡ (raised e, h)
unfolding apply
apply-rejected env u text e h r = rw r refl

append_assoc : (xs ys zs : List Act) → (xs ++ ys) ++ zs ≡ xs ++ (ys ++ zs)
append_assoc [] ys zs = refl
append_assoc (x ∷ xs) ys zs = ap (λ r. x ∷ r) (append_assoc xs ys zs)

module _ (env : Env) (target : String) where
  -- The act is the removal of another file than the target.
  abbrev pub SparesTarget : Act → Type 0
  SparesTarget (remove_file p) = str_eq (env.abspath p) target ≡ false
  SparesTarget _ = ⊥

  -- Something returned, after removals of other files only.
  abbrev pub Spared : {A : Type 0} → M History A → History → Type 0
  Spared {A} m h =
      (a : A) × (acts : List Act) × ((m h).0 ≡ ok a) × ((m h).1 ≡ acts ++ h) × All SparesTarget acts

  Spared-bind :
      {A B : Type 0} (m : M History A) (f : A → M History B) (h : History)
      → Spared m h
      → ((a : A) (k : History) → Spared (f a) k)
      → Spared (m >>= f) h
  Spared-bind m f h (a, acts, e, s, spared) next =
      let (b, more, e', s', spared') = next a (acts ++ h) in
      (
        b,
        more ++ acts,
        rw (e, s) e',
        rw (e, s) (s' ∙ sym (append_assoc more acts h)),
        All-append SparesTarget more acts spared' spared,
      )

  remove_one-Spared :
      (p : String) (removed : List String) (h : History)
      → Spared (remove_one env target p removed) h
  unfolding file
  remove_one-Spared p removed h = elim (Bool-cases (str_eq (env.abspath p) target)) [
    | inl c ↦ rw c (removed, [], refl, refl, tt)
    | inr c ↦ rw c (elim (Bool-cases (env.succeeds h (remove_file p))) [
      | inl d ↦ rw d (removed ++ p ∷ [], remove_file p ∷ [], refl, refl, (c, tt))
      | inr d ↦ rw d (removed, remove_file p ∷ [], refl, refl, (c, tt))
    ])
  ]

  remove_paths-Spared :
      (ps removed : List String) (h : History) → Spared (remove_paths env target ps removed) h
  unfolding remove_paths
  remove_paths-Spared [] removed h = (removed, [], refl, refl, tt)
  remove_paths-Spared (p ∷ ps) removed h =
      Spared-bind (remove_one env target p removed) (remove_paths env target ps) h
        (remove_one-Spared p removed h) (λ r k. remove_paths-Spared ps r k)

  -- The pruning of older files always returns, and whatever the patterns match, all that it does is to
  -- remove files whose absolute path is not the one that was just written.
  pub cleanup-Spared :
      (patterns removed : List String) (h : History)
      → Spared (cleanup env target patterns removed) h
  unfolding cleanup
  cleanup-Spared [] removed h = (removed, [], refl, refl, tt)
  cleanup-Spared (pattern' ∷ patterns) removed h =
      Spared-bind (remove_paths env target (env.glob h pattern') removed)
        (cleanup env target patterns) h (remove_paths-Spared (env.glob h pattern') removed h)
        (λ r k. cleanup-Spared patterns r k)
