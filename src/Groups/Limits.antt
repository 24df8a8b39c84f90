-- ===== src/Groups/Limits.antt =====
-- The dialog of a group's limits of apps/react/src/pages/Groups.
use any_gateway.Base.{
  ℕ, ◌+◌, ◌/◌, ◌%◌, ◌==◌, Bool, true, Option, none, some, List, [], ◌∷◌, ◌++◌, if◌then◌else◌,
}
use any_gateway.Base.Text.{Text, lit, decimal}
use any_gateway.Json.{Json}
use any_gateway.Api.{Fetched, Notice, Effect, call, notify}
use any_gateway.Api.Groups.{RateLimitCreate, get_rate_limits, create_rate_limit, delete_rate_limit}
use any_gateway.Groups.{behind}
use any_gateway.Api.{fetched, failure}

-- The state hooks of the dialog of the limits, but for the flags of loading.
pub record Rules : Type 0 where
  pub visible : Bool
  pub managing : Text
  pub rules : List Json
  pub new_limit_type : Text
  pub new_window_num : ℕ
  pub new_window_unit : ℕ
  pub new_value : ℕ

-- `fetchRules` with its reply
unfoldable pub fetch_rules : Text → Fetched Json → Rules → Rules × List Effect
fetch_rules group reply s = (
  record s { rules = fetched reply s.rules },
  call (get_rate_limits group) ∷ failure (lit "加载规则失败") reply,
)

-- `handleOpenRules`
unfoldable pub handle_open_rules : Text → Fetched Json → Rules → Rules × List Effect
handle_open_rules group reply s =
    fetch_rules group reply (record s { managing = group; visible = true })

-- The rule of the form; `times` is the engine's product of doubles.
abbrev new_rule : (ℕ → ℕ → ℕ) → Rules → RateLimitCreate
new_rule times s = record {
  limited_group = s.managing;
  window_sec = times s.new_window_num s.new_window_unit;
  limit_type = s.new_limit_type;
  value = s.new_value;
}

-- 1, 60 and 10
abbrev reset_rule : Rules → Rules
reset_rule s = record s {
  new_limit_type = lit "request_limit";
  new_window_num = 0x3FF0000000000000;
  new_window_unit = 0x404E000000000000;
  new_value = 0x4024000000000000;
}

-- The `onChange` of the number of the window and of the value: 1 and 0 where the field is cleared.
abbrev pub set_window_num : Option ℕ → Rules → Rules
set_window_num none s = record s { new_window_num = 0x3FF0000000000000 }
set_window_num (some n) s = record s { new_window_num = n }

abbrev pub set_new_value : Option ℕ → Rules → Rules
set_new_value none s = record s { new_value = 0 }
set_new_value (some n) s = record s { new_value = n }

-- `handleAddRule`; `ok` says whether the request succeeds, and `reply` is that of the reload.
unfoldable pub handle_add_rule : (ℕ → ℕ → ℕ) → Bool → Fetched Json → Rules → Rules × List Effect
handle_add_rule times ok reply s = behind (call (create_rate_limit (new_rule times s)) ∷ []) (
    if ok
    then behind (notify (Notice.success (lit "规则已添加")) ∷ [])
        (fetch_rules s.managing reply (reset_rule s))
    else (s, notify (Notice.error (lit "添加失败")) ∷ []))

-- `handleDeleteRule`
unfoldable pub handle_delete_rule : Text → Bool → Fetched Json → Rules → Rules × List Effect
handle_delete_rule id ok reply s = behind (call (delete_rate_limit id) ∷ []) (
    if ok
    then behind (notify (Notice.success (lit "已删除")) ∷ []) (fetch_rules s.managing reply s)
    else (s, notify (Notice.error (lit "删除失败")) ∷ []))

-- `formatWindowSec` of a whole number of seconds
unfoldable pub format_window_sec : ℕ → Text
format_window_sec sec =
    if sec % 86400 == 0
    then decimal (sec / 86400) ++ lit " 天"
    else if sec % 3600 == 0
    then decimal (sec / 3600) ++ lit " 小时"
    else decimal ((sec + 30) / 60) ++ lit " 分钟"
