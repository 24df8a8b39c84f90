-- ===== src/Logs/Page.antt =====
-- apps/react/src/pages/Logs/index.tsx: the table of the logged requests and their details.
pub mod Details
mod Tests
use any_gateway.Base.{ℕ, Bool, true, false, ◌||◌, Option, none, some, List, [], ◌∷◌, if◌then◌else◌}
use any_gateway.Base.Text.{Text, lit, is_empty, text_eq}
use any_gateway.Base.Dict.{Dict, get, put, remove}
use any_gateway.Json.{Json, arr, str, num, elems, member, present}
use any_gateway.Api.{
  or_whole, Call, Reply, fulfilled, rejected, get_logs, get_my_logs, get_log_messages,
  get_my_log_messages,
}

-- `MessagesCache`
pub data MessagesCache : Type 0 where
  waiting : MessagesCache
  here : Json → MessagesCache
  missing : Json → MessagesCache

-- The state of `pagination`, with the patterns of its numbers; the total is what the reply says.
pub record Pagination : Type 0 where
  pub current : Json
  pub page_size : ℕ
  pub total : Json

-- The state hooks.
pub record Page : Type 0 where
  pub data' : List Json
  pub loading : Bool
  pub filters : Dict Json
  pub messages_cache : Dict MessagesCache
  pub pagination : Pagination

abbrev day_filters : Text → Dict Json
day_filters today = (lit "start_date", str today) ∷ (lit "end_date", str today) ∷ []

-- The first render; the argument is the day.
unfoldable pub initial : Text → Page
initial today = record {
  data' = [];
  loading = false;
  filters = day_filters today;
  messages_cache = [];
  pagination = record {
    current = num 0x3FF0000000000000;
    page_size = 0x4034000000000000;
    total = num 0;
  };
}

-- `role === 'admin' || role === 'superadmin'`
abbrev pub is_admin_role : Text → Bool
is_admin_role role = text_eq role (lit "admin") || text_eq role (lit "superadmin")

-- `fetchLogs` up to its request
unfoldable pub start_fetch : Bool → Dict Json → Page → Page × Call
start_fetch is_admin params s =
    (record s { loading = true }, if is_admin then get_logs params else get_my_logs params)

abbrev or_num : ℕ → Option Json → Json
or_num n none = num n
or_num n (some v) = v

abbrev rows_in : Json → List Json
rows_in (arr vs) = elems vs
rows_in _ = []

-- `fetchLogs` behind its request with these parameters; a rejection is not caught there.
unfoldable pub finish_fetch : Dict Json → Reply → Page → Page
finish_fetch params (rejected detail) s = record s { loading = false }
finish_fetch params (fulfilled data') s = record s {
  data' = rows_in (or_whole data' (present (member (lit "data") data')));
  pagination = record (s.pagination) {
    total = or_num 0 (present (member (lit "total") data'));
    current = or_num 0x3FF0000000000000 (present (get (lit "page") params));
  };
  loading = false;
}

-- `{ ...filters, page, page_size }`
abbrev pub paged : ℕ → ℕ → Dict Json → Dict Json
paged page size filters = put (lit "page_size") (num size) (put (lit "page") (num page) filters)

-- the effect of the first render
abbrev pub first_fetch : Bool → Text → Page → Page × Call
first_fetch is_admin today s =
    start_fetch is_admin (paged 0x3FF0000000000000 s.pagination.page_size (day_filters today)) s

-- `handleSearch`
unfoldable pub handle_search : Bool → Page → Page × Call
handle_search is_admin s =
    start_fetch is_admin (paged 0x3FF0000000000000 s.pagination.page_size s.filters)
      (record s { pagination = record (s.pagination) { current = num 0x3FF0000000000000 } })

-- `handlePageChange`
unfoldable pub handle_page_change : Bool → ℕ → ℕ → Page → Page × Call
handle_page_change is_admin page size s = start_fetch is_admin (paged page size s.filters) s

-- A filter's `onChange`; an undefined member is left out of the request, as a missing one is.
abbrev put_text : Text → Option Text → Dict Json → Dict Json
put_text name none d = remove name d
put_text name (some t) d = if is_empty t then remove name d else put name (str t) d

abbrev pub set_range : Option Text → Option Text → Page → Page
set_range first second s = record s {
  filters = put_text (lit "end_date") second (put_text (lit "start_date") first s.filters);
}

abbrev pub set_text_filter : Text → Option Text → Page → Page
set_text_filter name t s = record s { filters = put_text name t s.filters }

abbrev put_number : Text → Option ℕ → Dict Json → Dict Json
put_number name none d = remove name d
put_number name (some n) d = put name (num n) d

abbrev pub set_status : Option ℕ → Page → Page
set_status n s = record s { filters = put_number (lit "status") n s.filters }

-- `handleExpand` up to its request, if it makes one
abbrev expand_new :
    Bool → Text → Option MessagesCache → Dict MessagesCache → Dict MessagesCache × Option Call
expand_new is_admin id (some m) cache = (cache, none)
expand_new is_admin id none cache =
    (put id waiting cache, some (if is_admin then get_log_messages id else get_my_log_messages id))

unfoldable pub handle_expand :
    Bool → Text → Bool → Dict MessagesCache → Dict MessagesCache × Option Call
handle_expand is_admin id expanded cache =
    if expanded then expand_new is_admin id (get id cache) cache else (cache, none)

abbrev pub or_failure : Option Json → Json
or_failure none = str (lit "加载失败")
or_failure (some detail) = detail

-- `handleExpand` behind its request
unfoldable pub finish_expand : Text → Reply → Dict MessagesCache → Dict MessagesCache
finish_expand id (fulfilled data') cache = put id (here data') cache
finish_expand id (rejected detail) cache = put id (missing (or_failure (present detail))) cache
