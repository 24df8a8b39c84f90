-- ===== src/Api/Payments.antt =====
-- The requests of apps/react/src/api/payments.ts.
use any_gateway.Base.{◌++◌}
use any_gateway.Base.Text.{Text, lit}
use any_gateway.Base.Dict.{Dict}
use any_gateway.Json.{Json}
use any_gateway.Api.{Call, get, post, put, patch, delete, bare, with_body, with_params}

unfoldable pub get_payment_settings : Call
get_payment_settings = bare get (lit "/admin/payment/settings")

unfoldable pub update_payment_settings : Json → Call
update_payment_settings data' = with_body put (lit "/admin/payment/settings") data'

unfoldable pub get_payment_packages : Dict Json → Call
get_payment_packages ps = with_params (lit "/admin/payment/packages") ps

unfoldable pub get_payment_package_groups : Call
get_payment_package_groups = bare get (lit "/admin/payment/package-groups")

unfoldable pub create_payment_package : Json → Call
create_payment_package data' = with_body post (lit "/admin/payment/packages") data'

unfoldable pub update_payment_package : Text → Json → Call
update_payment_package id data' = with_body patch (lit "/admin/payment/packages/" ++ id) data'

unfoldable pub delete_payment_package : Text → Call
delete_payment_package id = bare delete (lit "/admin/payment/packages/" ++ id)

unfoldable pub get_payment_orders : Dict Json → Call
get_payment_orders ps = with_params (lit "/admin/payment/orders") ps

unfoldable pub get_payment_order : Text → Call
get_payment_order id = bare get (lit "/admin/payment/orders/" ++ id)

unfoldable pub mark_payment_order_paid : Text → Call
mark_payment_order_paid id = bare post (lit "/admin/payment/orders/" ++ id ++ lit "/mark-paid")
