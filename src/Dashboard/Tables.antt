-- ===== src/Dashboard/Tables.antt =====
-- The columns of the two tables and the rows of the rate limits of
-- apps/react/src/pages/Dashboard/index.tsx. Numbers are the patterns of their doubles.
use any_gateway.Base.{
  ℕ, Bool, not, Option, none, some, List, [], ◌∷◌, ◌++◌, map, leb, if◌then◌else◌,
}
use any_gateway.Base.Double.{at_least}
use any_gateway.Base.Text.{Text, lit, text_eq}
use any_gateway.Base.Dict.{Dict, get}
use any_gateway.Json.{Json, num, member, present}
use any_gateway.Dashboard.{TableState, Direction, to_arco_sort_order}

-- `sortOrder` of a column
unfoldable pub sort_arrow : TableState → Text → Option Direction
sort_arrow t field =
    if text_eq t.sort_by field then some (to_arco_sort_order t.sort_order) else none

-- The fields of the columns of `usageColumns`; only administrators see the users.
unfoldable pub usage_fields : Bool → List Text
usage_fields is_admin =
    lit "date" ∷ (if is_admin then lit "username" ∷ [] else [])
    ++ lit "model"
      ∷ lit "input_tokens"
      ∷ lit "output_tokens"
      ∷ lit "cache_read_tokens"
      ∷ lit "cache_creation_tokens"
      ∷ lit "request_count"
      ∷ lit "total_cost_usd"
      ∷ []

abbrev pub model_fields : List Text
model_fields = lit "model" ∷ lit "request_count" ∷ []

-- The header of a table: every column with its arrow.
abbrev pub header : TableState → List Text → List (Text × Option Direction)
header t fields = map (λ (f : Text). (f, sort_arrow t f)) fields

-- `RateLimit`
pub record RateLimit : Type 0 where
  pub rule_id : Text
  pub limit_type : Text
  pub window_sec : ℕ
  pub limit : ℕ
  pub current : ℕ
  pub remaining_pct : ℕ

-- `GroupStatus`
pub record GroupStatus : Type 0 where
  pub group_id : Text
  pub group_name : Text
  pub is_all_visible : Bool
  pub rate_limits : List RateLimit

-- `RateLimitRow`
pub record RateLimitRow : Type 0 where
  pub rule : RateLimit
  pub group_name : Text
  pub is_all_visible : Bool

abbrev row_of : GroupStatus → RateLimit → RateLimitRow
row_of g r = record { rule = r; group_name = g.group_name; is_all_visible = g.is_all_visible }

-- `myStatus.groups.flatMap(…)`
unfoldable pub rate_limit_rows : List GroupStatus → List RateLimitRow
rate_limit_rows [] = []
rate_limit_rows (g ∷ gs) = map (row_of g) g.rate_limits ++ rate_limit_rows gs

abbrev limit_labels : Dict Text
limit_labels =
    (lit "request_limit", lit "请求数")
    ∷ (lit "token_limit", lit "Token")
    ∷ (lit "quota_limit", lit "金额")
    ∷ []

-- the cell of a limit's type
unfoldable pub limit_cell : Text → Text
limit_cell v = elim (get v limit_labels) [ none ↦ v | some label ↦ label ]

-- What is taken of the engine's numbers: the texts of `value / 86400`, `value / 3600` and
-- `Math.round(value / 60)`.
pub record Spans : Type 0 where
  pub days : ℕ → Text
  pub hours : ℕ → Text
  pub minutes : ℕ → Text

-- the cell of a limit's window
unfoldable pub window_cell : Spans → ℕ → Text
window_cell c value =
    if at_least 0x40F5180000000000 value
    then c.days value ++ lit "天"
    else if at_least 0x40AC200000000000 value
    then c.hours value ++ lit "小时"
    else c.minutes value ++ lit "分钟"

-- the state of the bar of what remains
unfoldable pub remaining_state : ℕ → Text
remaining_state value =
    if not (at_least 0x4034000000000000 value)
    then lit "error"
    else if not (at_least 0x4049000000000000 value)
    then lit "warning"
    else lit "normal"

abbrev count_of : Option Json → ℕ
count_of (some (num n)) = n
count_of v = 0

-- `modelMaxCount`: the counts are numbers without a sign
unfoldable pub model_max_count : List Json → ℕ
model_max_count [] = 0x3FF0000000000000
model_max_count (r ∷ rs) =
    let most = model_max_count rs in
    let count = count_of (present (member (lit "request_count") r)) in
    if leb most count then count else most

-- The remaining quota; `left` is `(quota - used).toFixed(4)`.
abbrev pub remaining_quota : (ℕ → ℕ → Text) → Option ℕ → ℕ → Text
remaining_quota left none used = lit "无限"
remaining_quota left (some quota) used = left quota used
