-- ===== src/Api/Accounts.antt =====
-- The requests of apps/react/src/api/tokens.ts, users.ts and vouchers.ts.
use any_gateway.Base.{List, [], ◌∷◌, ◌++◌, Bool, map}
use any_gateway.Base.Text.{Text, lit}
use any_gateway.Json.{Json, str, bool, arr, to_elems}
use any_gateway.Api.{Call, get, post, patch, delete, bare, with_body, object}

-- tokens.ts
unfoldable pub get_tokens : Call
get_tokens = bare get (lit "/user/tokens")

unfoldable pub create_token : Json → Call
create_token data' = with_body post (lit "/user/tokens") data'

unfoldable pub update_token : Text → Json → Call
update_token id data' = with_body patch (lit "/user/tokens/" ++ id) data'

unfoldable pub delete_token : Text → Call
delete_token id = bare delete (lit "/user/tokens/" ++ id)

unfoldable pub freeze_token : Text → Bool → Call
freeze_token id frozen =
    with_body post (lit "/user/tokens/" ++ id ++ lit "/freeze")
      (object ((lit "frozen", bool frozen) ∷ []))

unfoldable pub get_user_groups : Call
get_user_groups = bare get (lit "/user/groups")

-- users.ts
unfoldable pub get_admin_users : Call
get_admin_users = bare get (lit "/admin/users")

unfoldable pub get_users_list : Call
get_users_list = bare get (lit "/admin/users-list")

unfoldable pub promote_user : Text → Text → Call
promote_user username role =
    with_body post (lit "/admin/users/promote")
      (object ((lit "username", str username) ∷ (lit "role", str role) ∷ []))

unfoldable pub demote_user : Text → Call
demote_user username = bare delete (lit "/admin/users/" ++ username)

-- vouchers.ts
unfoldable pub get_vouchers : Call
get_vouchers = bare get (lit "/admin/vouchers")

unfoldable pub create_voucher : Json → Call
create_voucher data' = with_body post (lit "/admin/vouchers") data'

unfoldable pub delete_voucher : Text → Call
delete_voucher id = bare delete (lit "/admin/vouchers/" ++ id)

unfoldable pub batch_delete_vouchers : List Text → Call
batch_delete_vouchers ids =
    with_body post (lit "/admin/vouchers/batch-delete")
      (object ((lit "ids", arr (to_elems (map str ids))) ∷ []))

unfoldable pub redeem_voucher : Text → Call
redeem_voucher code =
    with_body post (lit "/user/vouchers/redeem") (object ((lit "code", str code) ∷ []))
