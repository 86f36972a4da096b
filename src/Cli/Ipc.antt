-- ===== src/Cli/Ipc.antt =====
-- src/vpn/cli/ipc.py, `call`, and its counterpart in core/state_machine/machine.py, `_handle_rpc`.
pub mod Remote
use virtual_private_network.Prelude.{String, Bool, Option, none, some, [], ◌∷◌}
use virtual_private_network.Ports.Effect.{
  M, Outcome, ok, raised, Exn, connection_error, runtime_error, value_error, key_error, index_error,
  os_error, attribute_error, subscription_error, speedtest_error, type_error, system_exit, pure,
  raise, ◌>>=◌,
}
use virtual_private_network.Ports.Env.{Env, Provider}
use virtual_private_network.Ports.Json.{Json, Fields, null, num, str, obj, end, field, lookup}
use virtual_private_network.Machine.Replies.{Params}
use virtual_private_network.Machine.Rpc.{dispatch}
use virtual_private_network.World.{Daemon, Config}

-- How values become texts and are read back, and how `str` writes a key: `str(KeyError(k))` is
-- `repr(k)`.
pub record Codec : Type 0 where
  pub dumps : Json → String
  pub loads : String → Option Json
  pub repr : String → String

-- `str(e)`
abbrev pub message_of : Codec → Exn → String
message_of codec (connection_error s) = s
message_of codec (runtime_error s) = s
message_of codec (value_error s) = s
message_of codec (key_error s) = codec.repr s
message_of codec (index_error s) = s
message_of codec (os_error s) = s
message_of codec (attribute_error s) = s
message_of codec (subscription_error s) = s
message_of codec (speedtest_error s) = s
message_of codec (type_error s) = s
message_of codec (system_exit n) = ""

unfoldable pub fields_of : Params → Fields
fields_of [] = end
fields_of ((k, v) ∷ ps) = field k (str v) (fields_of ps)

abbrev pub request : String → Params → Json
request method params = obj (
    field "jsonrpc" (str "2.0") (
      field "method" (str method)
        (field "params" (obj (fields_of params)) (field "id" (num 1) end))))

-- `if "error" in resp: raise RuntimeError(resp["error"])`, then `resp["result"]`. The answers of the
-- daemon are dicts, with a text as the error.
abbrev error_text : Json → String
error_text (str s) = s
error_text _ = "error"

abbrev pub result_in : {S : Type 0} → Option Json → Option Json → M S Json
result_in (some e) result = raise (runtime_error (error_text e))
result_in none none = raise (key_error "result")
result_in none (some result) = pure result

abbrev pub result_of : {S : Type 0} → Option Json → M S Json
result_of none = raise (value_error "invalid JSON")
result_of (some (obj fs)) = result_in (lookup "error" fs) (lookup "result" fs)
result_of (some other) = raise (type_error "no dict")

-- `exchange` sends the request and gives the first 65536 bytes of the answer that have come.
unfoldable pub call : {S : Type 0} → Codec → (String → M S String) → String → Params → M S Json
unfolding fields_of lookup
call codec exchange method params = do
  data' ← exchange (codec.dumps (request method params))
  result_of (codec.loads data')

-- The parameters of a request are texts, as those of the commands are.
abbrev params_with : String → Option Params → Json → Option Params
params_with k none v = none
params_with k (some ps) (str s) = some ((k, s) ∷ ps)
params_with k (some ps) v = none

unfoldable pub params_of : Fields → Option Params
params_of end = some []
params_of (field k v fs) = params_with k (params_of fs) v

abbrev pub text_or : String → Option Json → String
text_or s (some (str t)) = t
text_or s _ = s

abbrev pub params_in : Option Json → Option Params
params_in none = some []
params_in (some (obj fs)) = params_of fs
params_in (some _) = none

-- `req.get("id")`
abbrev pub or_null : Option Json → Json
or_null none = null
or_null (some v) = v

abbrev reply : Json → String → Json → Json
reply id key value = obj (field "jsonrpc" (str "2.0") (field key value (field "id" id end)))

-- An exception becomes the error of the answer; no method raises `SystemExit`.
abbrev pub response : Codec → Json → Outcome Json → Json
response codec id (ok result) = reply id "result" result
response codec id (raised e) = reply id "error" (str (message_of codec e))

module _ (env : Env) (provider : Provider) (cfg : Config) (before : String → String → Bool)
    (codec : Codec) where
  abbrev served : String → Json → Option Params → M Daemon String
  served method id none = raise (type_error "no texts")
  served method id (some params) = λ d.
      let (outcome, d') = dispatch env provider cfg before method params d in
      (ok (codec.dumps (response codec id outcome)), d')

  abbrev handled : Option Json → M Daemon String
  handled (some (obj fs)) =
      served (text_or "" (lookup "method" fs)) (or_null (lookup "id" fs))
        (params_in (lookup "params" fs))
  handled _ = raise (value_error "no request")

  -- The answer to a request; where it raises, the connection is left without one.
  unfoldable pub handle_rpc : String → M Daemon String
  unfolding dispatch lookup params_of
  handle_rpc raw = handled (codec.loads raw)
