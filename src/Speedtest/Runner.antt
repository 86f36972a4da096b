-- ===== src/Speedtest/Runner.antt =====
-- src/vpn/core/speedtest/runner.py: one run of the speedtest program, repeated when it fails, and
-- the result that is made of the document it prints.
pub mod Retries
pub mod Caught
use virtual_private_network.Prelude.{
  ℕ, zero, suc, ◌*◌, String, ◌<>◌, Bool, true, false, ◌||◌, ◌==◌, is_empty, Option, none, some,
  List, [], ◌∷◌, splitlines, strip, decimal, if◌then◌else◌,
}
use virtual_private_network.Ports.Command.{host, speedtest}
use virtual_private_network.Ports.Effect.{
  M, Outcome, ok, raised, Exn, speedtest_error, attribute_error, type_error, runtime_error, pure,
  raise, ◌>>=◌, ◌>>◌,
}
use virtual_private_network.Ports.Env.{Env, History, Completed, run, sleep_ms}
use virtual_private_network.Ports.Json.{
  Json, Fields, null, num, str, obj, end, field, get, lookup, truthy,
}

-- Python's arithmetic and texts of numbers: `round(v * 8 / 1_000_000, 2)`, which may raise, `str(v)`
-- and `f"{v:.1f}"`.
pub record Numbers : Type 0 where
  pub round_mbps : Json → Option Json
  pub str_of : Json → String
  pub fixed : Json → String

pub record Runner : Type 0 where
  pub binary : String
  pub attempts : ℕ
  pub retry_delay : ℕ

-- `SpeedtestRunner(shell)`
abbrev pub standard : Runner
standard = record { binary = "speedtest"; attempts = 2; retry_delay = 3 }

-- `max(1, attempts)`
abbrev pub at_least_one : ℕ → ℕ
at_least_one zero = 1
at_least_one (suc n) = suc n

-- `v.get(k)` with `None` for a missing entry; only a dict has the method.
abbrev pub got : {S : Type 0} → Option (Option Json) → M S Json
got none = raise (attribute_error "no attribute 'get'")
got (some none) = pure null
got (some (some v)) = pure v

abbrev pub get_or_none : {S : Type 0} → String → Json → M S Json
get_or_none k j = got (get k j)

-- `v or w`
abbrev pub or_else : Json → Json → Json
or_else v w = if truthy v then v else w

abbrev pub with_part : {S : Type 0} → Json → M S (List String) → M S (List String)
with_part (str s) rest = do ss ← rest; pure (s ∷ ss)
with_part p rest = raise (type_error "sequence item: expected str instance")

-- `", ".join(part for part in parts if part)`, over the parts that are left.
abbrev pub joined : {S : Type 0} → List Json → M S (List String)
joined [] = pure []
joined (p ∷ ps) = let rest = joined ps in if truthy p then with_part p rest else rest

abbrev pub comma_separated : List String → String
comma_separated [] = ""
comma_separated (s ∷ []) = s
comma_separated (s ∷ t ∷ ss) = s <> ", " <> comma_separated (t ∷ ss)

abbrev pub rounded : {S : Type 0} → Option Json → M S Json
rounded none = raise (type_error "unsupported operand")
rounded (some v) = pure v

abbrev take_text : ℕ → String → String
take_text zero s = ""
take_text (suc n) String.[] = ""
take_text (suc n) (String.◌∷◌ c s) = String.◌∷◌ c (take_text n s)

module _ (numbers : Numbers) where
  unfoldable pub normalize : {S : Type 0} → Json → M S Json
  unfolding get truthy
  normalize raw = do
    ping ← get_or_none "ping" raw
    download ← get_or_none "download" raw
    upload ← get_or_none "upload" raw
    server ← get_or_none "server" raw
    dl_bw ← get_or_none "bandwidth" (or_else download (obj end))
    ul_bw ← get_or_none "bandwidth" (or_else upload (obj end))
    town ← get_or_none "location" (or_else server (obj end))
    country ← get_or_none "country" (or_else server (obj end))
    location ← joined (town ∷ country ∷ [])
    down ← rounded (numbers.round_mbps (or_else dl_bw (num 0)))
    up ← rounded (numbers.round_mbps (or_else ul_bw (num 0)))
    latency ← get_or_none "latency" (or_else ping (obj end))
    jitter ← get_or_none "jitter" (or_else ping (obj end))
    loss ← get_or_none "packetLoss" raw
    name ← get_or_none "name" (or_else server (obj end))
    interface ← get_or_none "interface" raw
    ip ← get_or_none "externalIp" (or_else interface (obj end))
    result ← get_or_none "result" raw
    url ← get_or_none "url" (or_else result (obj end))
    pure (
        obj (
          field "download_mbps" down (
            field "upload_mbps" up (
              field "ping_ms" latency (
                field "jitter_ms" jitter (
                  field "packet_loss_pct" loss (
                    field "speedtest_server" name (
                      field "speedtest_location" (or_else (str (comma_separated location)) null)
                        (field "external_ip" ip (field "result_url" url end))))))))))

  module _ (env : Env) where
    abbrev measured : Option Json → Bool
    measured none = false
    measured (some v) = truthy v

    -- The entries "download" and "upload": one of them is true.
    abbrev usable : Option Json → Option Json
    usable (some (obj fs)) =
        if measured (lookup "download" fs) || measured (lookup "upload" fs)
        then some (obj fs)
        else none
    usable _ = none

    unfoldable pub parse_stdout : Option String → Option Json
    unfolding lookup truthy
    parse_stdout none = none
    parse_stdout (some stdout) = if is_empty stdout then none else usable (env.loads stdout)

    abbrev message_of : Option Json → Option Json
    message_of (some (obj fs)) = lookup "message" fs
    message_of _ = none

    abbrev said : String → Option Json → String
    said line none = line
    said line (some m) = if truthy m then numbers.str_of m else line

    -- The loop over the lines, with the reason so far.
    unfoldable pub reason_of : String → List String → String
    unfolding lookup truthy strip
    reason_of reason [] = reason
    reason_of reason (l ∷ ls) =
        if is_empty (strip l)
        then reason_of reason ls
        else reason_of (said (strip l) (message_of (env.loads (strip l)))) ls

    abbrev text_or_empty : Option String → String
    text_or_empty none = ""
    text_or_empty (some s) = s

    unfoldable pub failure_reason : Completed → String
    unfolding reason_of splitlines strip decimal
    failure_reason result =
        let reason = strip (reason_of "" (splitlines (text_or_empty result.stderr))) in
        if is_empty reason
        then "speedtest exited with code " <> decimal result.returncode
        else "speedtest failed: " <> take_text 180 reason

    abbrev pub failed : Completed → String
    failed result =
        if result.returncode == 0 then "invalid speedtest JSON" else failure_reason result

    abbrev pub judged : Completed → Option Json → M History Json
    judged result (some raw) = normalize raw
    judged result none = raise (speedtest_error (failed result))

    abbrev pub answered : Option Completed → M History Json
    answered none = raise (speedtest_error "speedtest timed out")
    answered (some result) = judged result (parse_stdout result.stdout)

    -- One attempt.
    unfoldable pub run_once : Runner → M History Json
    unfolding run normalize parse_stdout failure_reason
    run_once r = do result ← run env (host (speedtest r.binary)); answered result

    -- What follows an attempt, with the attempts that are left after it: only a `SpeedtestError` is
    -- caught, and the last one is raised again.
    abbrev pub then_again : Outcome Json → ℕ → M History Json → M History Json
    then_again (ok j) left again = pure j
    then_again (raised (speedtest_error e)) zero again = raise (speedtest_error e)
    then_again (raised (speedtest_error e)) (suc left) again = again
    then_again (raised e) left again = raise e

    -- `assert last_error is not None` where there was no attempt.
    unfoldable pub run_attempts : Runner → ℕ → M History Json
    unfolding run_once sleep_ms
    run_attempts r zero = raise (runtime_error "assertion failed")
    run_attempts r (suc left) = λ h.
        let (outcome, h') = run_once r h in
        then_again outcome left (do sleep_ms (1000 * r.retry_delay); run_attempts r left) h'

    unfoldable pub run_speedtest : Runner → M History Json
    unfolding run_attempts
    run_speedtest r = run_attempts r (at_least_one r.attempts)
