-- ===== src/Api/Client.antt =====
-- The session and the axios client: apps/react/src/store/auth.ts and apps/react/src/api/client.ts.
use any_gateway.Base.{ℕ, Option, none, some, ◌++◌, ◌==◌, if◌then◌else◌}
use any_gateway.Base.Text.{Text, lit, is_empty}

-- `AuthState` without its actions. The role is a text: `setAuth` takes any (`role as Role`).
pub record AuthState : Type 0 where
  pub token : Option Text
  pub username : Option Text
  pub role : Option Text

abbrev pub signed_out : AuthState
signed_out = record { token = none; username = none; role = none }

unfoldable pub set_auth : Text → Text → Text → AuthState → AuthState
set_auth token username role s = record {
  token = some token;
  username = some username;
  role = some role;
}

unfoldable pub logout : AuthState → AuthState
logout s = signed_out

-- the header `Authorization` that the request interceptor adds
unfoldable pub authorization : AuthState → Option Text
authorization s = elim s.token [
  | none ↦ none
  | some t ↦ if is_empty t then none else some (lit "Bearer " ++ t)
]

-- What the browser shows: the session and the address, if the client has set one.
pub record Browser : Type 0 where
  pub session : AuthState
  pub location : Option Text

-- The response interceptor on a rejection, with the status of the error's response if there is
-- one; the promise stays rejected.
unfoldable pub on_rejected : Option ℕ → Browser → Browser
unfolding logout
on_rejected none b = b
on_rejected (some status) b =
    if status == 401
    then record { session = logout b.session; location = some (lit "/login") }
    else b
