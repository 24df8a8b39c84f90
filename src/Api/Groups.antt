-- ===== src/Api/Groups.antt =====
-- The requests of apps/react/src/api/groups.ts, groupPrices.ts and rateLimits.ts.
use any_gateway.Base.{ℕ, [], ◌∷◌, ◌++◌}
use any_gateway.Base.Text.{Text, lit}
use any_gateway.Json.{Json, str, num}
use any_gateway.Api.{Call, get, post, patch, delete, bare, with_body, with_params, object}

-- groups.ts
unfoldable pub get_groups : Call
get_groups = bare get (lit "/admin/groups")

unfoldable pub create_group : Json → Call
create_group data' = with_body post (lit "/admin/groups") data'

unfoldable pub update_group : Text → Json → Call
update_group id data' = with_body patch (lit "/admin/groups/" ++ id) data'

unfoldable pub delete_group : Text → Call
delete_group id = bare delete (lit "/admin/groups/" ++ id)

-- the addresses that pages/Groups/index.tsx calls by itself
unfoldable pub get_group_channels : Text → Call
get_group_channels id = bare get (lit "/admin/groups/" ++ id ++ lit "/channels")

unfoldable pub add_group_channel : Text → Text → Call
add_group_channel id channel = bare post (lit "/admin/groups/" ++ id ++ lit "/channels/" ++ channel)

unfoldable pub remove_group_channel : Text → Text → Call
remove_group_channel id channel =
    bare delete (lit "/admin/groups/" ++ id ++ lit "/channels/" ++ channel)

-- groupPrices.ts: `GroupModelPriceCreate`
pub record GroupModelPriceCreate : Type 0 where
  pub group_id : Text
  pub model_name : Text
  pub unit : Text
  pub price_per_unit : ℕ

unfoldable pub get_group_prices : Text → Call
get_group_prices group =
    with_params (lit "/admin/group-model-prices") ((lit "group_id", str group) ∷ [])

unfoldable pub create_group_price : GroupModelPriceCreate → Call
create_group_price p = with_body post (lit "/admin/group-model-prices") (
    object (
      (lit "group_id", str p.group_id)
      ∷ (lit "model_name", str p.model_name)
      ∷ (lit "unit", str p.unit)
      ∷ (lit "price_per_unit", num p.price_per_unit)
      ∷ []))

unfoldable pub delete_group_price : Text → Call
delete_group_price id = bare delete (lit "/admin/group-model-prices/" ++ id)

-- rateLimits.ts: `RateLimitCreate`
pub record RateLimitCreate : Type 0 where
  pub limited_group : Text
  pub window_sec : ℕ
  pub limit_type : Text
  pub value : ℕ

unfoldable pub get_rate_limits : Text → Call
get_rate_limits group = with_params (lit "/admin/rate-limits") ((lit "group_id", str group) ∷ [])

unfoldable pub create_rate_limit : RateLimitCreate → Call
create_rate_limit r = with_body post (lit "/admin/rate-limits") (
    object (
      (lit "group_id", str r.limited_group)
      ∷ (lit "window_sec", num r.window_sec)
      ∷ (lit "limit_type", str r.limit_type)
      ∷ (lit "value", num r.value)
      ∷ []))

unfoldable pub delete_rate_limit : Text → Call
delete_rate_limit id = bare delete (lit "/admin/rate-limits/" ++ id)
