-- ===== src/Dashboard/Handlers.antt =====
-- The handlers of apps/react/src/pages/Dashboard.
use any_gateway.Base.{ℕ, suc, Bool, false, Option, none, some, List, [], ◌∷◌, ◌++◌, if◌then◌else◌}
use any_gateway.Base.Text.{Text, lit, is_empty, trim}
use any_gateway.Json.{Json, str, num, member, present}
use any_gateway.Api.{Reply, fulfilled, rejected, Notice, Effect, call, notify}
use any_gateway.Api.Accounts.{redeem_voucher}
use any_gateway.Api.Stats.{export_stats_usage, export_my_stats_usage}
use any_gateway.Dashboard.{
  SortOrder, Direction, TableState, Pagination, Field, Sorter, SorterChange, Page, Clock,
  build_stats_params, to_api_sort_order, normalize_sorter, sort_fields, name,
}

abbrev text_or : Option Text → Text → Text
text_or none d = d
text_or (some t) d = if is_empty t then d else t

-- The range picker's `onChange`, with the two texts that it gives, if it gives them.
abbrev pub set_range : Text → Option Text → Option Text → Page → Page
set_range today first second p = record p {
  draft = record (p.draft) {
    start_date = text_or first today;
    end_date = text_or second (text_or first today);
  };
}

abbrev filled : Option Text → Option Text
filled none = none
filled (some t) = if is_empty t then none else some t

-- The `onChange` of the choice of a user.
abbrev pub set_username : Option Text → Page → Page
set_username u p = record p { draft = record (p.draft) { username = filled u } }

-- The `onChange` of the voucher's code.
abbrev pub set_voucher_code : Text → Page → Page
set_voucher_code t p = record p { voucher_code = t; voucher_error = [] }

-- `handleSearch`
unfoldable pub handle_search : Bool → Page → Page
handle_search is_admin p = record p {
  usage_table = record (p.usage_table) { current = 0x3FF0000000000000 };
  model_table = record (p.model_table) { current = 0x3FF0000000000000 };
  applied = if is_admin then p.draft else record (p.draft) { username = none };
  refresh_key = suc p.refresh_key;
}

-- `handleRefresh`
abbrev pub handle_refresh : Page → Page
handle_refresh p = record p { refresh_key = suc p.refresh_key }

abbrev pub or_old : {A : Type 0} → Option A → A → A
or_old none a = a
or_old (some b) a = b

abbrev name_or : Option Field → Text → Text
name_or (some (name column)) old = column
name_or _ old = old

abbrev order_or : Option Direction → SortOrder → SortOrder
order_or none old = old
order_or (some direction) old = to_api_sort_order direction

-- What a change of the paging or of the sorting makes of a table.
unfoldable pub changed : Pagination → Sorter → TableState → TableState
changed p s t = record {
  current = or_old p.current t.current;
  page_size = or_old p.page_size t.page_size;
  total = t.total;
  sort_by = name_or s.field t.sort_by;
  sort_order = order_or s.direction t.sort_order;
}

-- `handleUsageTableChange`
abbrev pub handle_usage_table_change : Pagination → SorterChange → Page → Page
handle_usage_table_change g s p = record p {
  usage_table = changed g (normalize_sorter s) p.usage_table;
}

-- `handleModelTableChange`
abbrev pub handle_model_table_change : Pagination → SorterChange → Page → Page
handle_model_table_change g s p = record p {
  model_table = changed g (normalize_sorter s) p.model_table;
}

-- `handleExport`; the file that is offered is left out. `ok` says whether the request
-- succeeds.
unfoldable pub handle_export : Clock → Bool → Bool → Page → Page × List Effect
handle_export c is_admin ok p =
    let params =
      build_stats_params c p.applied is_admin
      ++ sort_fields p.usage_table.sort_by p.usage_table.sort_order in
    (
      record p { exporting = false },
      call (if is_admin then export_stats_usage params else export_my_stats_usage params)
          ∷ (if ok then [] else notify (Notice.error (lit "导出失败")) ∷ []),
    )

abbrev detail_text : Option Json → Text
detail_text (some (str s)) = s
detail_text _ = lit "兑换失败"

abbrev refuse : Text → Page → Page × List Effect
refuse message p = (record p { voucher_error = message; redeeming = false }, [])

abbrev credit : Clock → ℕ → Page → Page × List Effect
credit c amount p = (
  record p {
    voucher_code = [];
    voucher_error = [];
    refresh_key = suc p.refresh_key;
    redeeming = false;
  },
  notify (Notice.success (lit "充值 $" ++ c.fixed amount ++ lit " 成功")) ∷ [],
)

-- an amount that is no number has no `toFixed`
abbrev pub credit_amount : Clock → Option Json → Page → Page × List Effect
credit_amount c none p = credit c 0 p
credit_amount c (some (num n)) p = credit c n p
credit_amount c (some v) p = refuse (lit "兑换失败") p

unfoldable pub on_redeemed : Clock → Reply → Page → Page × List Effect
on_redeemed c (fulfilled data') p = credit_amount c (present (member (lit "amount_usd") data')) p
on_redeemed c (rejected detail) p = refuse (detail_text detail) p

abbrev behind : Effect → Page × List Effect → Page × List Effect
behind f (p, es) = (p, f ∷ es)

-- `handleRedeem` with the reply to its request
unfoldable pub handle_redeem : Clock → Reply → Page → Page × List Effect
handle_redeem c r p =
    if is_empty (trim p.voucher_code)
    then (record p { voucher_error = lit "请输入券码" }, [])
    else behind (call (redeem_voucher (trim p.voucher_code))) (on_redeemed c r p)
