-- ===== src/Payment/Display.antt =====
-- What the tables of apps/react/src/pages/Payment/index.tsx display: the names of the groups,
-- amounts, times, and the states of the orders.
use any_gateway.Base.{
  ℕ, Bool, true, ◌==◌, ◌&&◌, Option, none, some, List, [], ◌∷◌, ◌++◌, find?, take, if◌then◌else◌,
}
use any_gateway.Base.Double.{is_truthy}
use any_gateway.Base.Text.{Text, lit, is_empty, text_eq}
use any_gateway.Base.Dict.{Dict, get}
use any_gateway.Json.{Engine}
use any_gateway.Api.{Effect, Fetched, call, fetched}
use any_gateway.Api.Groups.{get_groups}

-- What the page reads of a group.
pub record Group : Type 0 where
  pub id : Text
  pub name : Option Text

-- The effect of `useGroups` with its reply; a failure is silent.
unfoldable pub use_groups : Fetched Group → List Group → List Group × List Effect
use_groups reply groups = (fetched reply groups, call get_groups ∷ [])

abbrev name_in : Option Group → Text → Text
name_in none id = take 8 id
name_in (some g) id = elim g.name [ none ↦ take 8 id | some name ↦ name ]

-- `groupName`
unfoldable pub group_name : List Group → Option Text → Text
group_name groups none = lit "default"
group_name groups (some id) =
    if is_empty id
    then lit "default"
    else name_in (find? (λ (g : Group). text_eq g.id id) groups) id

-- `fmtYuan`; `fixed` is the engine's `(cents / 100).toFixed(2)`
abbrev pub fmt_yuan : (ℕ → Text) → Option ℕ → Text
fmt_yuan fixed none = lit "—"
fmt_yuan fixed (some cents) = lit "¥" ++ fixed cents

-- `s.replace('T', ' ')`: the first one
unfoldable pub replace_first : ℕ → ℕ → Text → Text
replace_first old new [] = []
replace_first old new (c ∷ s) =
    let rest = replace_first old new s in if c == old then new ∷ s else c ∷ rest

-- `fmtTime`
unfoldable pub fmt_time : Option Text → Text
fmt_time none = lit "—"
fmt_time (some s) = if is_empty s then lit "—" else replace_first 84 32 (take 16 s)

-- `s.replace(/\/+$/, '')`
unfoldable pub strip_slashes : Text → Text
strip_slashes [] = []
strip_slashes (c ∷ s) =
    let rest = strip_slashes s in if c == 47 && is_empty rest then [] else c ∷ rest

-- `notifyPreview`
unfoldable pub notify_preview : Text → Text
notify_preview base =
    if is_empty base then lit "（未配置）" else strip_slashes base ++ lit "/payment/notify"

-- `ORDER_STATUS`: labels and colours
abbrev order_status : Dict (Text × Text)
order_status =
    (lit "pending", (lit "待支付", lit "orange"))
    ∷ (lit "paid", (lit "已支付", lit "green"))
    ∷ (lit "expired", (lit "已过期", lit "gray"))
    ∷ (lit "failed", (lit "支付异常", lit "red"))
    ∷ []

-- the cell of an order's state
unfoldable pub status_cell : Text → Text × Text
status_cell v = elim (get v order_status) [ none ↦ (v, lit "gray") | some meta ↦ meta ]

-- `CHANNEL_LABEL`
abbrev channel_label : Dict Text
channel_label = (lit "wechat", lit "微信") ∷ (lit "alipay", lit "支付宝") ∷ []

-- the cell of an order's channel
unfoldable pub channel_cell : Text → Text
channel_cell v =
    if is_empty v then lit "—" else elim (get v channel_label) [ none ↦ v | some label ↦ label ]

-- The cell of a credit; `fixed` is `v.toFixed(2)`.
abbrev pub credit_cell : (ℕ → Text) → ℕ → Text
credit_cell fixed v = if is_truthy v then lit "$" ++ fixed v else lit "∞"

-- the cell of a package's duration
abbrev pub duration_cell : Engine → Option ℕ → Text
duration_cell e none = lit "不限时"
duration_cell e (some v) = if is_truthy v then e.number_text v ++ lit " 天" else lit "不限时"

-- the cell of a group
unfoldable pub group_cell : List Group → Option Text → Text
group_cell groups none = lit "default"
group_cell groups (some id) = if is_empty id then lit "default" else group_name groups (some id)

-- A row of the orders has the button that marks it as paid only while it is not credited.
abbrev pub may_mark_paid : Option Text → Bool
may_mark_paid none = true
may_mark_paid (some credited_at) = is_empty credited_at
