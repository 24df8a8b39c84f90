-- ===== src/Payment/Orders.antt =====
-- The orders of apps/react/src/pages/Payment.
use any_gateway.Base.{Option, none, some, List, [], ◌∷◌, ◌++◌, if◌then◌else◌}
use any_gateway.Base.Text.{Text, lit, is_empty}
use any_gateway.Base.Dict.{Dict}
use any_gateway.Json.{Json, num, str, arr, elems, member}
use any_gateway.Api.{Reply, fulfilled, rejected, Notice, Effect, call, notify, reload}
use any_gateway.Api.Payments.{get_payment_orders, mark_payment_order_paid}
use any_gateway.Payment.{field_or}

-- The state hooks of the orders' filters and of the paging.
pub record Orders : Type 0 where
  pub rows : List Json
  pub current : Json
  pub page_size : Json
  pub total : Json
  pub status : Text
  pub username : Text

abbrev filled_field : Text → Text → Dict Json
filled_field name t = if is_empty t then [] else (name, str t) ∷ []

-- The parameters of the request for the orders.
unfoldable pub order_params : Orders → Dict Json
order_params s =
    (lit "page", s.current)
    ∷ (lit "page_size", s.page_size)
    ∷ (filled_field (lit "status") s.status ++ filled_field (lit "username") s.username)

abbrev rows_in : Option Json → List Json
rows_in (some (arr vs)) = elems vs
rows_in _ = []

-- `fetchData` of the orders with its reply
unfoldable pub fetch_orders : Reply → Orders → Orders × List Effect
fetch_orders (fulfilled d) s = (
  record s {
    rows = rows_in (member (lit "data") d);
    current = field_or s.current (lit "page") d;
    page_size = field_or s.page_size (lit "page_size") d;
    total = field_or (num 0) (lit "total") d;
  },
  call (get_payment_orders (order_params s)) ∷ [],
)
fetch_orders (rejected detail) s =
    (s, call (get_payment_orders (order_params s)) ∷ notify (Notice.error (lit "加载订单失败")) ∷ [])

abbrev over : Option Text → Text → Text
over none old = old
over (some t) old = t

-- `applyFilter`
unfoldable pub apply_filter : Option Text → Option Text → Orders → Orders
apply_filter status username s = record s {
  status = over status s.status;
  username = over username s.username;
  current = num 0x3FF0000000000000;
}

-- What the dialog behind a mark shows: the key and the order.
pub record MarkResult : Type 0 where
  pub key : Json
  pub order_id : Text

-- `handleMarkPaid` with its reply
unfoldable pub handle_mark_paid : Text → Reply → Option MarkResult × List Effect
handle_mark_paid id (fulfilled data') = (
  some (record { key = field_or (str []) (lit "key") data'; order_id = id }),
  call (mark_payment_order_paid id) ∷ notify (Notice.success (lit "补单成功，已发货")) ∷ reload ∷ [],
)
handle_mark_paid id (rejected detail) =
    (none, call (mark_payment_order_paid id) ∷ notify (Notice.error (lit "补单失败")) ∷ [])
