-- ===== src/Logs/Cells.antt =====
-- The cells of the table of apps/react/src/pages/Logs/index.tsx. The numbers are the patterns of
-- their doubles, which the server sends without a sign.
use any_gateway.Base.{
  ℕ, Bool, not, ◌==◌, Option, none, some, ◌++◌, length, take, leb, if◌then◌else◌,
}
use any_gateway.Base.Double.{is_truthy, is_positive, at_least}
use any_gateway.Base.Text.{Text, lit, is_empty}
use any_gateway.Json.{Engine}

-- `statusColor`
unfoldable pub status_color : ℕ → Text
status_color status =
    if at_least 0x407F400000000000 status
    then lit "red"
    else if at_least 0x4079000000000000 status
    then lit "orange"
    else lit "green"

-- `statusLabel`
unfoldable pub status_label : Engine → ℕ → Text
status_label e status =
    if not (is_truthy status)
    then lit "-"
    else if status == 0x4069000000000000
    then lit "200 OK"
    else if status == 0x407AD00000000000
    then lit "429 Rate"
    else if at_least 0x407F400000000000 status
    then e.number_text status ++ lit " Error"
    else if at_least 0x4079000000000000 status
    then e.number_text status ++ lit " Fail"
    else e.number_text status

abbrev or_dash : Option Text → Text
or_dash none = lit "-"
or_dash (some t) = if is_empty t then lit "-" else t

-- the cell of the record's identifier
abbrev pub id_cell : Text → Text
id_cell id = take 8 id ++ lit "..."

-- the cell of the key's name
unfoldable pub token_cell : Option Text → Text
token_cell none = lit "-"
token_cell (some t) = if leb 17 (length t) then take 12 t ++ lit "..." else or_dash (some t)

abbrev pub username_cell : Option Text → Text
username_cell v = or_dash v

abbrev pub model_cell : Option Text → Text
model_cell v = or_dash v

abbrev count_or_zero : Engine → Option ℕ → Text
count_or_zero e none = lit "0"
count_or_zero e (some n) = e.number_text n

-- the cell of the tokens of the request and of the response
abbrev pub tokens_cell : Engine → Option ℕ → Option ℕ → Text
tokens_cell e input output = count_or_zero e input ++ lit " / " ++ count_or_zero e output

-- the cell of the tokens that the cache saved
abbrev pub cache_cell : Engine → Option ℕ → Text
cache_cell e none = lit "-"
cache_cell e (some n) = if is_positive n then e.number_text n else lit "-"

-- The cell of the duration; `fixed` is `v.toFixed(0)`.
abbrev pub duration_cell : (ℕ → Text) → Option ℕ → Text
duration_cell fixed none = lit "-"
duration_cell fixed (some n) = fixed n

-- The cell of the cost; `fixed` is `v.toFixed(6)`.
abbrev pub cost_cell : (ℕ → Text) → Option ℕ → Text
cost_cell fixed none = lit "-"
cost_cell fixed (some n) = if is_positive n then lit "$" ++ fixed n else lit "-"

abbrev pub package_cell : Bool → Text
package_cell covered = if covered then lit "套餐" else lit "计费"
