-- ===== src/Dashboard/Tests.antt =====
-- Runs of the dashboard.
use any_gateway.Base.{
  ◌≡◌, refl, ℕ, ◌+◌, true, false, Option, none, some, [], ◌∷◌, ◌++◌, ◌⊎◌, length, ◌==◌,
  if◌then◌else◌,
}
use any_gateway.Base.Text.{lit, text_eq}
use any_gateway.Json.{null, num}
use any_gateway.Dashboard.{Clock, Loaded, Deps, initial, deps_of, on_loaded}
use any_gateway.Dashboard.Handlers.{handle_search}
use any_gateway.Dashboard.Loading.{
  Load, World, Action, act, start, replied, rendered, run_effect, cancel, finish_load, same_deps,
  Step, acted, answered, Reach, here, next,
}
use any_gateway.Dashboard.Loading.Kept.{shown_of, shown_from}
use any_gateway.Dashboard.Loading.Latest.{
  Reach-shown, Reach-settles, none_more, one_more, Replies-end,
}

abbrev clock : Clock
clock = record {
  start_of = λ t. t ++ lit "T00:00:00.000Z";
  end_of = λ t. t ++ lit "T23:59:59.999Z";
  timezone = lit "UTC";
  fixed = λ n. lit "1.00";
}

abbrev brought : Loaded
brought = record {
  overview = null;
  usage_rows = some (num 7 ∷ []);
  usage_total = 1;
  model_rows = none;
  model_total = 0;
  status = null;
}

-- The second load is answered, the first one is rejected.
abbrev server : ℕ → Deps → Option Loaded
server n d = if n == 2 then some brought else none

-- The user searches while the first load still waits.
abbrev searched : World
searched =
    rendered (act (lit "2024-01-01") clock true Action.search (start (lit "2024-01-01")).page)
      (start (lit "2024-01-01"))

abbrev first : Load
first = record { number = 1; deps = deps_of (initial (lit "2024-01-01")); cancelled = true }

abbrev second : Load
second = record { number = 2; deps = deps_of searched.page; cancelled = false }

-- The second load is answered before the first one.
abbrev shown : World
shown = replied (first ∷ []) (server second.number second.deps) second searched

runs : Unit {0}
unfolding lit text_eq handle_search on_loaded act rendered run_effect cancel finish_load same_deps
runs = tt

searched-loads : searched.loads ≡ second ∷ first ∷ []
unfolding runs
searched-loads = refl

abbrev searched-Reach :
    Reach (lit "2024-01-01") clock true server (start (lit "2024-01-01")) searched
searched-Reach = next here (acted Action.search (start (lit "2024-01-01")))

Reach-shown_example : shown_of shown.page ≡ shown_from brought
unfolding runs
Reach-shown_example =
    Reach-shown (lit "2024-01-01") clock true server shown
      (next searched-Reach (answered [] (first ∷ []) second searched searched-loads)) refl brought
      refl

Reach-settles_example :
    (searched.page.loading ≡ false)
    ⊎ ((v : World) × Step (lit "2024-01-01") clock true server searched v
        × (v.page.loading ≡ false)
        × (deps_of v.page ≡ deps_of searched.page))
Reach-settles_example = Reach-settles (lit "2024-01-01") clock true server searched searched-Reach

Replies-end_example : (length shown.loads + 1 ≡ 2) × (shown.run ≡ 2)
unfolding runs
Replies-end_example =
    Replies-end (lit "2024-01-01") clock true server 1 searched shown
      (one_more 0 searched [] (first ∷ []) second none_more searched-loads)
