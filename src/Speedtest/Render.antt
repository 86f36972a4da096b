-- ===== src/Speedtest/Render.antt =====
-- src/vpn/core/speedtest/render.py: the table of the results.
use virtual_private_network.Prelude.{
  ℕ, zero, suc, ◌+◌, ◌-◌, String, ◌<>◌, Bool, false, leb, Option, none, some, List, [], ◌∷◌, map,
  length, rstrip, str_eq, if◌then◌else◌,
}
use virtual_private_network.Ports.Effect.{M, pure, raise, attribute_error, type_error, ◌>>=◌}
use virtual_private_network.Ports.Json.{
  Json, Fields, null, bool, num, real, str, obj, lookup, truthy,
}
use virtual_private_network.Machine.Servers.{sorted}
use virtual_private_network.Speedtest.Runner.{Numbers, or_else}

-- The headings of `HEADERS` with their `UNITS`, where they have one.
abbrev header : List String
header =
    "Name" ∷ "CC" ∷ "Down (Mbit/s)" ∷ "Up (Mbit/s)" ∷ "Ping (ms)" ∷ "Jitter (ms)" ∷ "Loss (%)"
    ∷ "Exit IP" ∷ "Tested" ∷ []

unfoldable pub text_length : String → ℕ
text_length String.[] = 0
text_length (String.◌∷◌ c s) = suc (text_length s)

-- `text * n`
unfoldable pub repeated : ℕ → String → String
repeated zero s = ""
repeated (suc n) s = s <> repeated n s

abbrev larger : ℕ → ℕ → ℕ
larger a b = if leb a b then b else a

-- `text.ljust(width)`
abbrev ljust : ℕ → String → String
ljust width s = s <> repeated (width - text_length s) " "

-- The width of each column over one more row.
unfoldable pub widened : List ℕ → List String → List ℕ
unfolding text_length
widened [] cells = []
widened (w ∷ ws) [] = w ∷ ws
widened (w ∷ ws) (c ∷ cs) = larger w (text_length c) ∷ widened ws cs

unfoldable pub widths : List ℕ → List (List String) → List ℕ
unfolding widened
widths ws [] = ws
widths ws (row ∷ rows) = widths (widened ws row) rows

unfoldable pub padded : List ℕ → List String → String
unfolding text_length repeated
padded (w ∷ v ∷ ws) (c ∷ d ∷ cs) = ljust w c <> " " <> padded (v ∷ ws) (d ∷ cs)
padded (w ∷ ws) (c ∷ cs) = ljust w c
padded ws cs = ""

unfoldable pub line : List ℕ → List String → String
unfolding padded rstrip
line ws cells = rstrip (padded ws cells)

abbrev sum : List ℕ → ℕ
sum [] = 0
sum (n ∷ ns) = n + sum ns

abbrev or_dash : Option Json → Json
or_dash none = str "-"
or_dash (some v) = v

abbrev or_null : Option Json → Json
or_null none = null
or_null (some v) = v

abbrev is_set : Option Json → Bool
is_set none = false
is_set (some v) = truthy v

-- A cell whose width is taken: `len` raises for a number, and what is no text cannot be padded.
abbrev cell : {S : Type 0} → Json → M S String
cell (str s) = pure s
cell other = raise (type_error "no text")

abbrev joined_lines : List String → String
joined_lines [] = ""
joined_lines (l ∷ []) = l
joined_lines (l ∷ m ∷ ls) = l <> "\n" <> joined_lines (m ∷ ls)

module _ (numbers : Numbers) (before : String → String → Bool) where
  -- `_fmt`, for which `True` and `False` are numbers.
  unfoldable pub formatted : Json → String
  formatted null = "-"
  formatted (bool b) = numbers.fixed (bool b)
  formatted (num n) = numbers.fixed (num n)
  formatted (real r) = numbers.fixed (real r)
  formatted other = numbers.str_of other

  abbrev formatted_at : String → Fields → String
  formatted_at k fs = formatted (or_null (lookup k fs))

  abbrev failed_row : {S : Type 0} → String → Fields → M S (List String)
  failed_row name fs = do
    country ← cell (or_dash (lookup "country" fs))
    pure (
        name
        ∷ country
        ∷ "ERR"
        ∷ "-"
        ∷ "-"
        ∷ "-"
        ∷ "-"
        ∷ "-"
        ∷ numbers.str_of (or_dash (lookup "tested_at" fs))
        ∷ [])

  abbrev measured_row : {S : Type 0} → String → Fields → M S (List String)
  measured_row name fs = do
    country ← cell (or_dash (lookup "country" fs))
    ip ← cell (or_else (or_null (lookup "external_ip" fs)) (str "-"))
    pure (
        name
        ∷ country
        ∷ formatted_at "download_mbps" fs
        ∷ formatted_at "upload_mbps" fs
        ∷ formatted_at "ping_ms" fs
        ∷ formatted_at "jitter_ms" fs
        ∷ formatted_at "packet_loss_pct" fs
        ∷ ip
        ∷ numbers.str_of (or_dash (lookup "tested_at" fs))
        ∷ [])

  -- `_row`
  unfoldable pub row : {S : Type 0} → String → Option Json → M S (List String)
  unfolding formatted lookup truthy
  row name (some (obj fs)) =
      if is_set (lookup "error" fs) then failed_row name fs else measured_row name fs
  row name other = raise (attribute_error "no attribute 'get'")

  abbrev found : String → List (String × Json) → Option Json
  found name [] = none
  found name ((n, j) ∷ rest) = if str_eq n name then some j else found name rest

  unfoldable pub rows : {S : Type 0} → List (String × Json) → List String → M S (List (List String))
  unfolding row
  rows results [] = pure []
  rows results (n ∷ ns) = do r ← row n (found n results); rest ← rows results ns; pure (r ∷ rest)

  abbrev table : List ℕ → List (List String) → String
  table ws body =
      joined_lines (line ws header ∷ repeated (sum ws + length ws - 1) "-" ∷ map (line ws) body)

  unfoldable pub render_table : {S : Type 0} → List (String × Json) → M S String
  unfolding rows sorted widths line text_length repeated
  render_table [] = pure "No speedtest results yet. Run: vpn server speedtest --all"
  render_table results = do
    body ← rows results (sorted before (map (λ r. r.0) results))
    pure (table (widths (map text_length header) body) body)
