-- ===== src/Console.antt =====
-- Who sees which page: the session's life, the guard of apps/react/src/components/AuthGuard, the
-- table of apps/react/src/router, the menu of apps/react/src/components/Layout and the sign-in of
-- apps/react/src/pages/Login. The router library matches an address exactly.
pub mod Access
mod Tests
use any_gateway.Base.{
  ℕ, Bool, true, false, not, ◌&&◌, ◌||◌, Option, none, some, List, [], ◌∷◌, ◌++◌, map, drop,
  if◌then◌else◌,
}
use any_gateway.Base.Text.{Text, lit, is_empty, text_eq}
use any_gateway.Base.Dict.{Dict, has, get}
use any_gateway.Json.{Json, str, Engine, member, string_of}
use any_gateway.Api.{Reply, fulfilled, rejected, Notice, Effect, call, notify, navigate, login}
use any_gateway.Api.Client.{AuthState, signed_out, set_auth, logout, Browser, on_rejected}

pub data Page : Type 0 where
  sign_in home pricing guide api_keys chat logs groups channels prices vouchers payment dashboard
        users :
      Page

-- What is displayed: a page, the message that access is denied, or a redirection.
pub data View : Type 0 where
  page : Page → View
  denied : View
  redirect : Text → View
  not_found : View

abbrev pub filled : Option Text → Bool
filled none = false
filled (some t) = not (is_empty t)

-- `roles && role && !roles.includes(role)`
abbrev pub refuses : Option (List Text) → Option Text → Bool
refuses none role = false
refuses (some roles) none = false
refuses (some roles) (some role) = not (is_empty role) && not (has roles role)

-- `AuthGuard`
unfoldable pub auth_guard : Option (List Text) → AuthState → View → View
auth_guard roles s inner =
    if not (filled s.token)
    then redirect (lit "/login")
    else if refuses roles s.role
    then denied
    else inner

abbrev pub admins : List Text
admins = lit "admin" ∷ lit "superadmin" ∷ []

abbrev superadmins : List Text
superadmins = lit "superadmin" ∷ []

-- the pages without a guard
abbrev pub public_pages : Dict Page
public_pages =
    (lit "/login", sign_in)
    ∷ (lit "/home", home)
    ∷ (lit "/pricing", pricing)
    ∷ (lit "/guide", guide)
    ∷ []

-- the children of `/`, with the roles of their own guard, if they have one
abbrev pub children : Dict (Page × Option (List Text))
children =
    (lit "apikeys", (api_keys, none))
    ∷ (lit "chat", (chat, none))
    ∷ (lit "logs", (logs, none))
    ∷ (lit "groups", (groups, some admins))
    ∷ (lit "channels", (channels, some admins))
    ∷ (lit "prices", (prices, some admins))
    ∷ (lit "vouchers", (vouchers, some admins))
    ∷ (lit "payment", (payment, some admins))
    ∷ (lit "dashboard", (dashboard, none))
    ∷ (lit "users", (users, some superadmins))
    ∷ []

abbrev pub own_guard : Page × Option (List Text) → AuthState → View
own_guard (p, none) s = page p
own_guard (p, some roles) s = auth_guard (some roles) s (page p)

abbrev pub child_view : Option (Page × Option (List Text)) → AuthState → View
child_view none s = not_found
child_view (some c) s = auth_guard none s (own_guard c s)

-- What the address `/key` shows below the layout; the empty key is the index.
unfoldable pub layout_view : Text → AuthState → View
layout_view key s =
    if is_empty key
    then auth_guard none s (redirect (lit "/apikeys"))
    else child_view (get key children) s

-- What an address shows.
unfoldable pub view : Text → AuthState → View
view path s = elim (get path public_pages) [ some p ↦ page p | none ↦ layout_view (drop 1 path) s ]

abbrev is_role : Text → Option Text → Bool
is_role r none = false
is_role r (some role) = text_eq r role

-- `isAdmin`
abbrev is_admin : AuthState → Bool
is_admin s = is_role (lit "admin") s.role || is_role (lit "superadmin") s.role

-- `isSuperAdmin`
abbrev is_super_admin : AuthState → Bool
is_super_admin s = is_role (lit "superadmin") s.role

-- The keys of the items of `navItems` that are visible.
unfoldable pub menu : AuthState → List Text
menu s =
    lit "dashboard"
      ∷ lit "apikeys"
      ∷ lit "chat"
      ∷ lit "logs"
      ∷ (if is_admin s
          then lit "groups" ∷ lit "channels" ∷ lit "prices" ∷ lit "vouchers" ∷ lit "payment" ∷ []
          else [])
    ++ (if is_super_admin s then lit "users" ∷ [] else [])

-- `handleLogout`
unfoldable pub handle_logout : AuthState → AuthState × List Effect
handle_logout s = (logout s, navigate (lit "/login") ∷ [])

abbrev text_of : Option Json → Option Text
text_of v = string_of v

-- `detail || '用户名或密码错误'`
abbrev login_message : Option Json → Text
login_message detail = elim (string_of detail) [
  | none ↦ lit "用户名或密码错误"
  | some t ↦ if is_empty t then lit "用户名或密码错误" else t
]

-- `handleSubmit` of the sign-in, with the server's reply. The members of a reply that is fulfilled
-- are texts (`LoginResponse`).
unfoldable pub handle_login : Text → Text → Reply → AuthState → AuthState × List Effect
handle_login username password (fulfilled data') s = (
  record {
    token = text_of (member (lit "access_token") data');
    username = some username;
    role = text_of (member (lit "role") data');
  },
  call (login username password) ∷ navigate (lit "/") ∷ [],
)
handle_login username password (rejected detail) s =
    (s, call (login username password) ∷ notify (Notice.error (login_message detail)) ∷ [])

-- `pageTitles`
abbrev page_titles : Dict Text
page_titles =
    (lit "dashboard", lit "Dashboard")
    ∷ (lit "apikeys", lit "API Keys")
    ∷ (lit "chat", lit "Conversations")
    ∷ (lit "logs", lit "Request Logs")
    ∷ (lit "groups", lit "Groups")
    ∷ (lit "channels", lit "Channels")
    ∷ (lit "prices", lit "Pricing")
    ∷ (lit "vouchers", lit "Vouchers")
    ∷ (lit "payment", lit "Payment")
    ∷ (lit "users", lit "User Management")
    ∷ []

-- `currentKey` of an address
unfoldable pub current_key : Text → Text
current_key path = if is_empty (drop 1 path) then lit "apikeys" else drop 1 path

-- `currentPageTitle`
unfoldable pub current_page_title : Text → Text
current_page_title path = elim (get (current_key path) page_titles) [
  | none ↦ lit "Workspace"
  | some title ↦ title
]

-- the entry of the menu that is highlighted
abbrev pub is_current : Text → Text → Bool
is_current path key = text_eq key (current_key path)
