-- ===== src/Console/Tests.antt =====
-- Runs of the guards.
use any_gateway.Base.{◌≡◌, refl, true, false, none, some, [], ◌∷◌, All}
use any_gateway.Base.Text.{lit, text_eq}
use any_gateway.Base.Dict.{has, get, keys}
use any_gateway.Api.{navigate}
use any_gateway.Api.Client.{AuthState, Browser, on_rejected, logout}
use any_gateway.Console.{view, layout_view, auth_guard, menu, children, filled, handle_logout}
use any_gateway.Console.Access.{shows, menu-shows, view-shows, signed_out-view}

abbrev admin : AuthState
admin = record { token = some (lit "t"); username = some (lit "u"); role = some (lit "admin") }

abbrev browser : Browser
browser = record { session = admin; location = none }

runs : Unit {0}
unfolding lit text_eq has get view layout_view auth_guard menu on_rejected handle_logout logout
runs = tt

menu-shows_example :
    All (λ key. has (menu admin) key ≡ shows (view (47 ∷ key) admin)) (keys children)
unfolding runs
menu-shows_example = menu-shows admin (lit "admin") refl refl refl

view-shows_example : filled admin.token ≡ true
unfolding runs
view-shows_example = view-shows (lit "/channels") admin refl refl

signed_out-view_example :
    (shows (view (lit "/users") (on_rejected (some 401) browser).session) ≡ false)
    × ((on_rejected (some 401) browser).location ≡ some (lit "/login"))
    × (shows (view (lit "/users") (handle_logout admin).0) ≡ false)
    × ((handle_logout admin).1 ≡ navigate (lit "/login") ∷ [])
unfolding runs
signed_out-view_example = signed_out-view (lit "/users") browser refl
