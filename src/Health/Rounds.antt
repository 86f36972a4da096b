-- ===== src/Health/Rounds.antt =====
-- What a round of the health check does and tells the state machine.
use virtual_private_network.Prelude.{
  String, ◌≡◌, Bool, true, false, not, ◌&&◌, Option, some, List, [], ◌∷◌, ◌++◌, ◌⊎◌,
}
use virtual_private_network.Ports.Command.{host, curl}
use virtual_private_network.Ports.Effect.{Outcome, ok}
use virtual_private_network.Ports.Env.{Env, History, Act, shell, run}
use virtual_private_network.World.{EventType}
use virtual_private_network.Health.{Checker, Watch, succeeded, target_of}

-- The list is not empty.
abbrev pub has_some : List String → Bool
has_some [] = false
has_some (x ∷ l) = true

abbrev pub last_of : Option String → List String → Option String
last_of o [] = o
last_of o (t ∷ ts) = last_of (some t) ts

module _ (env : Env) (c : Checker) where
  -- The request for a target, by an agent chosen at this point, and whether it is answered.
  abbrev pub asked : History → String → Act
  asked h t = shell (host (curl c.curl_timeout (env.random_choice h c.user_agents) t))

  abbrev pub answers : History → String → Bool
  answers h t =
      succeeded (env.run h (host (curl c.curl_timeout (env.random_choice h c.user_agents) t)))

  -- After requests for these targets, in their order, and whether none of them was answered.
  unfoldable pub asked_all : List String → History → History
  asked_all [] h = h
  asked_all (t ∷ ts) h = asked_all ts (asked h t ∷ h)

  unfoldable pub none_answers : List String → History → Bool
  none_answers [] h = true
  none_answers (t ∷ ts) h = not (answers h t) && none_answers ts (asked h t ∷ h)

  -- None of the targets answered, and all were asked.
  abbrev pub Down : List String → History → Option String → History → Option String → Type 0
  Down ts h before h' after =
      (none_answers ts h ≡ true) × (h' ≡ asked_all ts h) × (after ≡ last_of before ts)

  -- One answered after others that did not, and it was the last that was asked.
  abbrev pub Up : List String → History → History → Option String → Type 0
  Up ts h h' after =
      (done : List String) × (t : String) × (left : List String) × (ts ≡ done ++ t ∷ left)
      × (none_answers done h ≡ true)
      × (answers (asked_all done h) t ≡ true)
      × (h' ≡ asked (asked_all done h) t ∷ asked_all done h)
      × (after ≡ some t)

  abbrev Checked : List String → Watch → Outcome Bool × Watch → Type 0
  Checked ts w (r, w') =
      (w'.queue ≡ w.queue)
      × (((r ≡ ok false) × Down ts w.history w.last_target w'.history w'.last_target)
          ⊎ ((r ≡ ok true) × Up ts w.history w'.history w'.last_target))

  probed : String → Watch → Watch
  probed t w = record {
    history = asked w.history t ∷ w.history;
    last_target = some t;
    queue = w.queue;
  }

  -- The one event that is put behind those that wait.
  abbrev pub Posted : Watch → Watch → EventType → Type 0
  Posted w w' type =
      w'.queue
      ≡ w.queue
        ++ record { type = type; payload = ("target", target_of env c w'.last_target) ∷ [] } ∷ []
