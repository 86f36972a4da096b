-- ===== src/Routing/Table.antt =====
-- core/routing/route_table.py: batches of routes, the default route and the flush.
use virtual_private_network.Prelude.{
  ℕ, String, ◌<>◌, Option, none, some, List, [], ◌∷◌, map, length, str_eq, if◌then◌else◌,
}
use virtual_private_network.Ports.Command.{route, batch, add_default, flush as flush_table}
use virtual_private_network.Ports.Effect.{M, ok, pure, ◌>>=◌, ◌>>◌}
use virtual_private_network.Ports.Env.{Env, History, exec, file, write_temp, remove_file}

pub record RouteEntry : Type 0 where
  pub subnet : String
  pub via : Option String
  pub dev : String
  pub table_id : String

-- `if entry.via:` is false for `None` and for the empty text.
via_text : Option String → String
via_text none = ""
via_text (some gateway) = if str_eq gateway "" then "" else " via " <> gateway

unfoldable pub batch_line : String → RouteEntry → String
unfolding via_text
batch_line table_id e =
    "route add " <> e.subnet <> via_text e.via <> " dev " <> e.dev <> " table " <> table_id

module _ (env : Env) where
  -- The `finally` branch: the file goes if it is there, and a failure to remove it is raised.
  drop_file : String → M History (Unit {0})
  drop_file path h = if env.exists h path then file env (remove_file path) h else pure tt h

  -- `ShellPort.run` returns `None` where the command failed, so nothing is raised in between.
  unfoldable pub load_batch : List RouteEntry → String → M History ℕ
  unfolding drop_file
  load_batch [] table_id = pure 0
  load_batch (e ∷ es) table_id = do
    path ← (λ h. (ok (env.temp_path h), h))
    file env (write_temp (map (batch_line table_id) (e ∷ es)))
    exec (route (batch path))
    drop_file path
    pure (length (e ∷ es))

unfoldable pub set_default : String → M History (Unit {0})
set_default table_id = exec (route (add_default table_id))

unfoldable pub flush : String → M History (Unit {0})
flush table_id = exec (route (flush_table table_id))
