-- ===== src/Dashboard.antt =====
-- apps/react/src/pages/Dashboard: the filters, the two tables, the requests and their replies.
-- Numbers that come from the tables or the server are the patterns of their doubles.
pub mod Tables
pub mod Handlers
pub mod Loading
mod Tests
use any_gateway.Base.{ℕ, Bool, false, ◌==◌, Option, none, some, List, [], ◌∷◌, ◌++◌, if◌then◌else◌}
use any_gateway.Base.Text.{Text, lit, is_empty}
use any_gateway.Base.Dict.{Dict}
use any_gateway.Base.Sort.{sort_by}
use any_gateway.Json.{Json, str, num}
use any_gateway.Api.{Call, Fetched, list, no_list, failed, Notice, Effect, notify, get_my_status}
use any_gateway.Api.Stats.{
  get_stats_overview, get_stats_usage, get_stats_models, get_my_stats_overview, get_my_stats_usage,
  get_my_stats_models,
}

pub data SortOrder : Type 0 where
  asc desc : SortOrder

pub data Direction : Type 0 where
  ascend descend : Direction

-- `DashboardFilters`
pub record DashboardFilters : Type 0 where
  pub start_date : Text
  pub end_date : Text
  pub username : Option Text

-- `TableState`
pub record TableState : Type 0 where
  pub current : ℕ
  pub page_size : ℕ
  pub total : ℕ
  pub sort_by : Text
  pub sort_order : SortOrder

-- `TablePaginationChange`
pub record Pagination : Type 0 where
  pub current : Option ℕ
  pub page_size : Option ℕ

pub data Field : Type 0 where
  name : Text → Field
  index : ℕ → Field

-- `SingleTableSorterChange`
pub record Sorter : Type 0 where
  pub field : Option Field
  pub direction : Option Direction

-- `TableSorterChange`
pub data SorterChange : Type 0 where
  one : Sorter → SorterChange
  several : List Sorter → SorterChange

-- The state hooks.
pub record Page : Type 0 where
  pub draft : DashboardFilters
  pub applied : DashboardFilters
  pub usage_table : TableState
  pub model_table : TableState
  pub overview : Option Json
  pub usage_rows : List Json
  pub model_rows : List Json
  pub user_options : List Text
  pub loading : Bool
  pub exporting : Bool
  pub my_status : Option Json
  pub voucher_code : Text
  pub redeeming : Bool
  pub voucher_error : Text
  pub refresh_key : ℕ

-- `INITIAL_USAGE_TABLE` and `INITIAL_MODEL_TABLE`: page 1 with 20 rows
abbrev table_by : Text → TableState
table_by column = record {
  current = 0x3FF0000000000000;
  page_size = 0x4034000000000000;
  total = 0;
  sort_by = column;
  sort_order = desc;
}

-- The first render; the argument is the day.
abbrev pub initial : Text → Page
initial today = record {
  draft = record { start_date = today; end_date = today; username = none };
  applied = record { start_date = today; end_date = today; username = none };
  usage_table = table_by (lit "date");
  model_table = table_by (lit "request_count");
  overview = none;
  usage_rows = [];
  model_rows = [];
  user_options = [];
  loading = false;
  exporting = false;
  my_status = none;
  voucher_code = [];
  redeeming = false;
  voucher_error = [];
  refresh_key = 0;
}

-- What is taken of the engine's dates: the first and the last moment of a local day in UTC, the
-- time zone, and `toFixed(2)`.
pub record Clock : Type 0 where
  pub start_of : Text → Text
  pub end_of : Text → Text
  pub timezone : Text
  pub fixed : ℕ → Text

abbrev username_field : Option Text → Dict Json
username_field none = []
username_field (some u) = if is_empty u then [] else (lit "username", str u) ∷ []

-- `buildStatsParams` with `toUtcRange`
unfoldable pub build_stats_params : Clock → DashboardFilters → Bool → Dict Json
build_stats_params c f is_admin =
    (lit "start_at", str (c.start_of f.start_date))
    ∷ (lit "end_at", str (c.end_of f.end_date))
    ∷ (lit "timezone", str c.timezone)
    ∷ (if is_admin then username_field f.username else [])

abbrev pub to_api_sort_order : Direction → SortOrder
to_api_sort_order ascend = asc
to_api_sort_order descend = desc

abbrev pub to_arco_sort_order : SortOrder → Direction
to_arco_sort_order asc = ascend
to_arco_sort_order desc = descend

abbrev pub normalize_sorter : SorterChange → Sorter
normalize_sorter (one s) = s
normalize_sorter (several []) = record { field = none; direction = none }
normalize_sorter (several (s ∷ ss)) = s

-- What the effect that loads the data depends on, of one table.
pub record Paging : Type 0 where
  pub current : ℕ
  pub page_size : ℕ
  pub sort_by : Text
  pub sort_order : SortOrder

-- What the effect depends on, but for the role, which stays while the page stands.
pub record Deps : Type 0 where
  pub filters : DashboardFilters
  pub usage : Paging
  pub models : Paging
  pub refresh_key : ℕ

abbrev pub paging_of : TableState → Paging
paging_of t = record {
  current = t.current;
  page_size = t.page_size;
  sort_by = t.sort_by;
  sort_order = t.sort_order;
}

abbrev pub deps_of : Page → Deps
deps_of p = record {
  filters = p.applied;
  usage = paging_of p.usage_table;
  models = paging_of p.model_table;
  refresh_key = p.refresh_key;
}

abbrev pub order_text : SortOrder → Text
order_text asc = lit "asc"
order_text desc = lit "desc"

-- `sort_by` and `sort_order`
abbrev pub sort_fields : Text → SortOrder → Dict Json
sort_fields column order =
    (lit "sort_by", str column) ∷ (lit "sort_order", str (order_text order)) ∷ []

abbrev pub paging_fields : Paging → Dict Json
paging_fields g =
    (lit "page", num g.current)
    ∷ (lit "page_size", num g.page_size)
    ∷ sort_fields g.sort_by g.sort_order

-- The requests of one load, in their order.
unfoldable pub load_requests : Clock → Bool → Deps → List Call
load_requests c is_admin d =
    let base = build_stats_params c d.filters is_admin in
    let usage_params = base ++ paging_fields d.usage in
    let model_params = base ++ paging_fields d.models in
    (if is_admin then get_stats_overview base else get_my_stats_overview base)
    ∷ (if is_admin then get_stats_usage usage_params else get_my_stats_usage usage_params)
    ∷ (if is_admin then get_stats_models model_params else get_my_stats_models model_params)
    ∷ get_my_status
    ∷ []

-- What the four replies of a load bring.
pub record Loaded : Type 0 where
  pub overview : Json
  pub usage_rows : Option (List Json)
  pub usage_total : ℕ
  pub model_rows : Option (List Json)
  pub model_total : ℕ
  pub status : Json

abbrev pub rows_or_empty : Option (List Json) → List Json
rows_or_empty none = []
rows_or_empty (some rows) = rows

abbrev pub with_total : ℕ → TableState → TableState
with_total n t = if t.total == n then t else record t { total = n }

-- The replies of a load that is not cancelled; none where one of its requests is rejected.
unfoldable pub on_loaded : Option Loaded → Page → Page × List Effect
on_loaded none p = (record p { loading = false }, notify (Notice.error (lit "数据加载失败")) ∷ [])
on_loaded (some d) p = (
  record p {
    overview = some d.overview;
    usage_rows = rows_or_empty d.usage_rows;
    model_rows = rows_or_empty d.model_rows;
    my_status = some d.status;
    usage_table = with_total d.usage_total p.usage_table;
    model_table = with_total d.model_total p.model_table;
    loading = false;
  },
  [],
)

-- The reply to the request for the users' names; a name is its own label.
unfoldable pub load_users : (Text → Text → Bool) → Fetched Text → Page → Page × List Effect
load_users before (list names) p = (record p { user_options = sort_by before names }, [])
load_users before no_list p = (record p { user_options = [] }, [])
load_users before failed p = (p, notify (Notice.error (lit "用户列表加载失败")) ∷ [])
