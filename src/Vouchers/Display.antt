-- ===== src/Vouchers/Display.antt =====
-- What the page of the vouchers displays, and the file of new codes, of
-- apps/react/src/pages/Vouchers/index.tsx.
use any_gateway.Base.{
  ℕ, Bool, false, not, Option, none, some, List, [], ◌∷◌, ◌++◌, find?, map, take, length,
  if◌then◌else◌,
}
use any_gateway.Base.Double.{is_truthy}
use any_gateway.Base.Text.{Text, lit, is_empty, text_eq, join, decimal}
use any_gateway.Json.{Json, Engine, to_text}
use any_gateway.Api.{Effect, Fetched, call, fetched}
use any_gateway.Api.Groups.{get_groups}
use any_gateway.Vouchers.{Page}

-- What the page reads of a group.
pub record Group : Type 0 where
  pub id : Text
  pub name : Option Text

-- The effect that loads the groups, with its reply; a failure is silent.
unfoldable pub fetch_groups : Fetched Group → List Group → List Group × List Effect
fetch_groups reply groups = (fetched reply groups, call get_groups ∷ [])

abbrev short_id : Text → Text
short_id id = take 8 id

abbrev found_name : Option Group → Text → Text
found_name none id = short_id id
found_name (some g) id = elim g.name [ none ↦ short_id id | some name ↦ name ]

-- `groupName`
unfoldable pub group_name : List Group → Option Text → Text
group_name groups none = lit "default"
group_name groups (some id) =
    if is_empty id
    then lit "default"
    else found_name (find? (λ (g : Group). text_eq g.id id) groups) id

-- `downloadTxt`: the name of the file, by the day, and its text
unfoldable pub download_txt : Engine → Text → Page → Text × Text
download_txt e day s = (
  lit "vouchers-" ++ day ++ lit ".txt",
  join (lit "\n") (map (λ (code : Json). to_text e code) s.result_codes),
)

-- The cell of an amount; `fixed` is `v.toFixed(2)`.
abbrev pub amount_cell : (ℕ → Text) → ℕ → Text
amount_cell fixed v = if is_truthy v then lit "$" ++ fixed v else lit "∞"

abbrev filled_or : Text → Option Text → Text
filled_or default none = default
filled_or default (some t) = if is_empty t then default else t

-- the cell of the day on which a voucher expires
abbrev pub expires_cell : Option Text → Text
expires_cell none = lit "永不过期"
expires_cell (some t) = if is_empty t then lit "永不过期" else take 10 t

abbrev pub has_duration : Option ℕ → Bool
has_duration none = false
has_duration (some n) = is_truthy n

-- the cell of the duration of the key
abbrev pub duration_cell : Engine → Option ℕ → Text
duration_cell e none = lit "充值型"
duration_cell e (some n) = if is_truthy n then e.number_text n ++ lit " 天" else lit "充值型"

-- The cell of the group, which only a voucher with a duration has.
unfoldable pub group_cell : List Group → Option ℕ → Option Text → Text
group_cell groups duration id = if has_duration duration then group_name groups id else lit "—"

-- the cell of the state
abbrev pub used_cell : Bool → Text
used_cell used = if used then lit "已使用" else lit "未使用"

-- the cell of the user
abbrev pub used_by_cell : Option Text → Text
used_by_cell v = filled_or (lit "—") v

-- A row may be deleted or selected while it is not used.
abbrev pub may_change : Bool → Bool
may_change used = not used

-- `onChange` of the selection
abbrev pub select_keys : List Text → Page → Page
select_keys keys s = record s { selected_keys = keys }

-- The title of the question before the selected rows are deleted; without any there is no button.
abbrev pub batch_title : Page → Option Text
batch_title s = elim s.selected_keys [
  | [] ↦ none
  | k ∷ ks ↦ some (lit "确认删除选中的 " ++ decimal (length s.selected_keys) ++ lit " 张消费券？")
]
