-- ===== src/Api/Stats.antt =====
-- The requests for statistics of apps/react/src/api/logs.ts. That an export is a blob is not said.
use any_gateway.Base.Text.{lit}
use any_gateway.Base.Dict.{Dict}
use any_gateway.Json.{Json}
use any_gateway.Api.{Call, get, bare, with_params}

unfoldable pub get_stats_overview : Dict Json → Call
get_stats_overview ps = with_params (lit "/admin/stats/overview") ps

unfoldable pub get_stats_usage : Dict Json → Call
get_stats_usage ps = with_params (lit "/admin/stats/usage") ps

unfoldable pub export_stats_usage : Dict Json → Call
export_stats_usage ps = with_params (lit "/admin/stats/usage/export") ps

unfoldable pub get_stats_models : Dict Json → Call
get_stats_models ps = with_params (lit "/admin/stats/models") ps

unfoldable pub get_my_stats_overview : Dict Json → Call
get_my_stats_overview ps = with_params (lit "/user/stats/overview") ps

unfoldable pub get_my_stats_usage : Dict Json → Call
get_my_stats_usage ps = with_params (lit "/user/stats/usage") ps

unfoldable pub export_my_stats_usage : Dict Json → Call
export_my_stats_usage ps = with_params (lit "/user/stats/usage/export") ps

unfoldable pub get_my_stats_models : Dict Json → Call
get_my_stats_models ps = with_params (lit "/user/stats/models") ps

unfoldable pub get_stats_tokens : Call
get_stats_tokens = bare get (lit "/admin/stats/tokens")

unfoldable pub get_my_stats_tokens : Call
get_my_stats_tokens = bare get (lit "/user/stats/tokens")
