-- ===== src/Cli/Ipc/Remote.antt =====
-- A call of a method from the terminal is the call in the daemon.
use virtual_private_network.Prelude.{String, Bool, ◌≡◌, refl, some, [], ◌∷◌}
use virtual_private_network.Ports.Effect.{Outcome, ok, raised, runtime_error, pure, ◌>>=◌}
use virtual_private_network.Ports.Env.{Env, Provider}
use virtual_private_network.Ports.Json.{Json, num, lookup}
use virtual_private_network.Machine.Replies.{Params}
use virtual_private_network.Machine.Rpc.{dispatch}
use virtual_private_network.Cli.Ipc.{
  Codec, message_of, fields_of, params_of, request, response, result_of, call, handle_rpc,
}
use virtual_private_network.World.{Daemon, Config}

params_of-fields_of : (params : Params) → params_of (fields_of params) ≡ some params
unfolding params_of fields_of
params_of-fields_of [] = refl
params_of-fields_of ((k, v) ∷ params) = rw (params_of-fields_of params) refl

-- What the caller sees of an outcome in the daemon.
abbrev pub seen_from : Codec → Outcome Json → Outcome Json
seen_from codec (ok result) = ok result
seen_from codec (raised e) = raised (runtime_error (message_of codec e))

result_of-response :
    (codec : Codec) (id : Json) (o : Outcome Json) (d : Daemon)
    → result_of (some (response codec id o)) d ≡ (seen_from codec o, d)
unfolding lookup
result_of-response codec id (ok result) d = refl
result_of-response codec id (raised e) d = refl

-- If the request, and what arrives of the answer (65536 bytes at most), are read back as the values
-- that they were written from: calling a method from the terminal runs exactly this
-- method with these parameters in the daemon, gives its result, and raises `RuntimeError` with the
-- message of its exception where it raises.
pub call-dispatch :
    (env : Env) (provider : Provider) (cfg : Config) (before : String → String → Bool)
    (codec : Codec) (recv : String → String) (method : String) (params : Params) (d d' : Daemon)
    (outcome : Outcome Json)
    → dispatch env provider cfg before method params d ≡ (outcome, d')
    → codec.loads (codec.dumps (request method params)) ≡ some (request method params)
    → codec.loads (recv (codec.dumps (response codec (num 1) outcome)))
      ≡ some (response codec (num 1) outcome)
    → call codec
        (λ raw. handle_rpc env provider cfg before codec raw >>= λ answer. pure (recv answer))
        method
        params
        d
      ≡ (seen_from codec outcome, d')
unfolding call handle_rpc lookup
call-dispatch env provider cfg before codec recv method params d d' outcome runs asked answered =
    rw (asked, params_of-fields_of params, runs, answered)
      (result_of-response codec (num 1) outcome d')
