-- ===== src/Dashboard/Loading.antt =====
-- The effect that loads the data of the dashboard, as interleavings: the filters and the tables are
-- changed while loads wait for their replies, which come in any order. A handler and the effect
-- that its change calls for are one step.
pub mod Comparing
pub mod Kept
pub mod Latest
use any_gateway.Base.{
  ℕ, suc, ◌≡◌, refl, Bool, true, false, not, ◌&&◌, ◌==◌, Option, none, some, List, [], ◌∷◌, ◌++◌,
  if◌then◌else◌,
}
use any_gateway.Base.Text.{Text, text_eq}
use any_gateway.Api.{Reply, Fetched}
use any_gateway.Dashboard.{
  SortOrder, asc, desc, DashboardFilters, Paging, Deps, Page, Pagination, SorterChange, Clock,
  Loaded, initial, deps_of, on_loaded, load_users,
}
use any_gateway.Dashboard.Handlers.{
  handle_search, handle_refresh, handle_usage_table_change, handle_model_table_change,
  handle_export, handle_redeem, set_range, set_username, set_voucher_code,
}

abbrev pub order_eq : SortOrder → SortOrder → Bool
order_eq asc asc = true
order_eq desc desc = true
order_eq _ _ = false

abbrev pub name_eq : Option Text → Option Text → Bool
name_eq none none = true
name_eq (some t) (some u) = text_eq t u
name_eq _ _ = false

abbrev pub filters_eq : DashboardFilters → DashboardFilters → Bool
filters_eq f g =
    text_eq f.start_date g.start_date
    && (text_eq f.end_date g.end_date && name_eq f.username g.username)

abbrev pub paging_eq : Paging → Paging → Bool
paging_eq g h =
    g.current == h.current
    && (g.page_size == h.page_size
        && (text_eq g.sort_by h.sort_by && order_eq g.sort_order h.sort_order))

-- React's comparison of the effect's dependencies, one by one.
unfoldable pub same_deps : Deps → Deps → Bool
same_deps d e =
    filters_eq d.filters e.filters
    && (paging_eq d.usage e.usage
        && (paging_eq d.models e.models && d.refresh_key == e.refresh_key))

-- A run of the effect whose replies are awaited, with its own flag `cancelled`.
pub record Load : Type 0 where
  pub number : ℕ
  pub deps : Deps
  pub cancelled : Bool

-- The page, the loads that wait, and the number of the effect's latest run.
pub record World : Type 0 where
  pub page : Page
  pub loads : List Load
  pub run : ℕ

-- The cleanup of a run.
unfoldable pub cancel : ℕ → List Load → List Load
cancel n [] = []
cancel n (l ∷ ls) = (if l.number == n then record l { cancelled = true } else l) ∷ cancel n ls

-- The cleanup of the latest run, and a new one.
unfoldable pub run_effect : World → World
run_effect w = record {
  page = record (w.page) { loading = true };
  loads =
      record { number = suc w.run; deps = deps_of w.page; cancelled = false }
      ∷ cancel w.run w.loads;
  run = suc w.run;
}

-- A new state of the page, and the effect if what it depends on has changed.
unfoldable pub rendered : Page → World → World
rendered p w =
    if same_deps (deps_of w.page) (deps_of p)
    then record w { page = p }
    else run_effect (record w { page = p })

-- What the user does, and the replies to other requests.
pub data Action : Type 0 where
  search refresh : Action
  usage_change model_change : Pagination → SorterChange → Action
  range : (first second : Option Text) → Action
  user : Option Text → Action
  code : Text → Action
  users : (Text → Text → Bool) → Fetched Text → Action
  exported : (ok : Bool) → Action
  redeemed : Reply → Action

-- The handlers.
unfoldable pub act : Text → Clock → Bool → Action → Page → Page
act today c is_admin search p = handle_search is_admin p
act today c is_admin refresh p = handle_refresh p
act today c is_admin (usage_change g s) p = handle_usage_table_change g s p
act today c is_admin (model_change g s) p = handle_model_table_change g s p
act today c is_admin (range first second) p = set_range today first second p
act today c is_admin (user u) p = set_username u p
act today c is_admin (code t) p = set_voucher_code t p
act today c is_admin (users before reply) p = (load_users before reply p).0
act today c is_admin (exported ok) p = (handle_export c is_admin ok p).0
act today c is_admin (redeemed reply) p = (handle_redeem c reply p).0

-- The replies to a load: nothing where it is cancelled.
unfoldable pub finish_load : Load → Option Loaded → Page → Page
finish_load l answer p = if l.cancelled then p else (on_loaded answer p).0

-- The first run of the effect.
abbrev pub start : Text → World
start today = run_effect (record { page = initial today; loads = []; run = 0 })

abbrev pub replied : List Load → Option Loaded → Load → World → World
replied rest answer l w = rendered (finish_load l answer w.page) (record w { loads = rest })

module _ (today : Text) (c : Clock) (is_admin : Bool) (server : ℕ → Deps → Option Loaded) where
  -- What can happen next. `server` says how the requests of each load are answered; none where one
  -- of them is rejected.
  pub data Step : World → World → Type 0 where
    acted : (a : Action) (w : World) → Step w (rendered (act today c is_admin a w.page) w)
    answered :
        (before after : List Load) (l : Load) (w : World)
        → w.loads ≡ before ++ l ∷ after
        → Step w (replied (before ++ after) (server l.number l.deps) l w)

  pub data Reach (w : World) : World → Type 0 where
    here : Reach w w
    next : {u v : World} → Reach w u → Step u v → Reach w v
