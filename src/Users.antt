-- ===== src/Users.antt =====
-- apps/react/src/pages/Users: the administrators, and the groups of a user.
pub mod Membership
mod Tests
use any_gateway.Base.{
  Bool, true, false, not, ◌&&◌, Option, none, some, List, [], ◌∷◌, ◌++◌, map, keep, if◌then◌else◌,
}
use any_gateway.Base.Text.{Text, lit, is_empty, text_eq}
use any_gateway.Base.Dict.{has}
use any_gateway.Json.{Json, Engine}
use any_gateway.Api.{
  Call, get, post, delete, bare, Fetched, list, no_list, failed, fetched, failure, detail_or,
  Notice, Effect, call, notify, reload,
}
use any_gateway.Api.Accounts.{get_admin_users, get_users_list, promote_user, demote_user}
use any_gateway.Api.Groups.{get_groups}

-- What a request gives that only succeeds or fails: a rejection may have a `detail`.
pub data Outcome : Type 0 where
  done : Outcome
  rejected : Option Json → Outcome

-- The state hooks of the administrators.
pub record Admins : Type 0 where
  pub data' : List Json
  pub loading : Bool
  pub visible : Bool

-- `fetchData` with its reply; a failure is silent
unfoldable pub fetch_data : Fetched Json → Admins → Admins × List Effect
fetch_data reply s =
    (record s { data' = fetched reply s.data'; loading = false }, call get_admin_users ∷ [])

-- `handlePromote`; `ok` says whether the request succeeds.
unfoldable pub handle_promote : Text → Text → Bool → Admins → Admins × List Effect
handle_promote username role ok s =
    if ok
    then (
      record s { visible = false },
      call (promote_user username role) ∷ notify (Notice.success (lit "操作成功")) ∷ reload ∷ [],
    )
    else (s, call (promote_user username role) ∷ notify (Notice.error (lit "操作失败")) ∷ [])

-- `handleDemote`
unfoldable pub handle_demote : Engine → Text → Outcome → List Effect
handle_demote e username done =
    call (demote_user username) ∷ notify (Notice.success (lit "已降权")) ∷ reload ∷ []
handle_demote e username (rejected detail) =
    call (demote_user username) ∷ notify (Notice.error (detail_or e (lit "降权失败") detail)) ∷ []

-- The button of a row is disabled for the user of the session.
abbrev pub may_demote : Text → Text → Bool
may_demote current_user username = not (text_eq username current_user)

-- What the page reads of a group.
pub record Group : Type 0 where
  pub id : Text
  pub name : Text
  pub all_visible : Bool

-- The state hooks of the users' groups.
pub record UserGroups : Type 0 where
  pub ad_users : List Json
  pub ad_loading : Bool
  pub selected_user : Option Text
  pub user_groups : List Group
  pub user_group_loading : Bool
  pub all_groups : List Group
  pub adding_group_id : Text
  pub add_loading : Bool
  pub group_modal_open : Bool

-- `fetchAdUsers` with its reply
unfoldable pub fetch_ad_users : Fetched Json → UserGroups → UserGroups × List Effect
fetch_ad_users reply s = (
  record s { ad_users = fetched reply s.ad_users; ad_loading = false },
  call get_users_list ∷ failure (lit "获取用户列表失败") reply,
)

-- `fetchAllGroups` with its reply; a failure is silent
unfoldable pub fetch_all_groups : Fetched Group → UserGroups → UserGroups × List Effect
fetch_all_groups reply s =
    (record s { all_groups = fetched reply s.all_groups }, call get_groups ∷ [])

abbrev pub groups_url : Text → Text
groups_url username = lit "/admin/users-list/" ++ username ++ lit "/groups"

unfoldable pub get_groups_of : Text → Call
get_groups_of username = bare get (groups_url username)

unfoldable pub add_to_group : Text → Text → Call
add_to_group username id = bare post (groups_url username ++ lit "/" ++ id)

unfoldable pub remove_from_group : Text → Text → Call
remove_from_group username id = bare delete (groups_url username ++ lit "/" ++ id)

-- `openUserGroupModal` up to its request
unfoldable pub start_group_modal : Text → UserGroups → UserGroups × List Effect
start_group_modal username s = (
  record s {
    selected_user = some username;
    adding_group_id = [];
    group_modal_open = true;
    user_group_loading = true;
  },
  call (get_groups_of username) ∷ [],
)

-- `openUserGroupModal` behind its request
unfoldable pub finish_group_modal : Fetched Group → UserGroups → UserGroups × List Effect
finish_group_modal reply s = (
  record s { user_groups = fetched reply s.user_groups; user_group_loading = false },
  failure (lit "获取用户分组失败") reply,
)

-- The selected user as a template writes it.
abbrev pub user_text : Option Text → Text
user_text none = lit "null"
user_text (some username) = username

abbrev behind : List Effect → UserGroups × List Effect → UserGroups × List Effect
behind es (s, more) = (s, es ++ more)

abbrev refused : Engine → Option Json → UserGroups → UserGroups × List Effect
refused e detail s =
    (record s { add_loading = false }, notify (Notice.error (detail_or e (lit "操作失败") detail)) ∷ [])

-- the reload in `handleAddUserToGroup`; its rejection is caught there too
abbrev reloaded : Engine → Fetched Group → Option Json → UserGroups → UserGroups × List Effect
reloaded e failed detail s = refused e detail s
reloaded e reply detail s =
    (record s { user_groups = fetched reply s.user_groups; add_loading = false }, [])

abbrev added :
    Engine → Outcome → Fetched Group → Option Json → UserGroups → UserGroups × List Effect
added e (rejected detail) reply later s = refused e detail s
added e done reply later s =
    behind
      (notify (Notice.success (lit "已加入分组"))
        ∷ call (get_groups_of (user_text s.selected_user))
        ∷ [])
      (reloaded e reply later (record s { adding_group_id = [] }))

-- `handleAddUserToGroup`: the outcome of its request, and the reply of the reload with the `detail`
-- of its rejection.
unfoldable pub handle_add_user_to_group :
    Engine → Outcome → Fetched Group → Option Json → UserGroups → UserGroups × List Effect
handle_add_user_to_group e outcome reply later s =
    if is_empty s.adding_group_id
    then (s, notify (Notice.warning (lit "请选择要加入的分组")) ∷ [])
    else behind (call (add_to_group (user_text s.selected_user) s.adding_group_id) ∷ [])
        (added e outcome reply later s)

abbrev pub without : Text → List Group → List Group
without id gs = keep (λ (g : Group). not (text_eq g.id id)) gs

-- `handleRemoveUserFromGroup`
unfoldable pub handle_remove_user_from_group :
    Engine → Outcome → Text → UserGroups → UserGroups × List Effect
handle_remove_user_from_group e done id s = (
  record s { user_groups = without id s.user_groups },
  call (remove_from_group (user_text s.selected_user) id)
      ∷ notify (Notice.success (lit "已退出分组"))
      ∷ [],
)
handle_remove_user_from_group e (rejected detail) id s = (
  s,
  call (remove_from_group (user_text s.selected_user) id)
      ∷ notify (Notice.error (detail_or e (lit "操作失败") detail))
      ∷ [],
)

abbrev pub id_of : Group → Text
id_of g = g.id

abbrev pub is_offered : List Group → Group → Bool
is_offered mine g = not g.all_visible && not (has (map id_of mine) g.id)

-- `groupOptions`: the labels and the values
unfoldable pub group_options : UserGroups → List (Text × Text)
group_options s = map (λ (g : Group). (g.name, g.id)) (keep (is_offered s.user_groups) s.all_groups)

-- A row of the user's groups has a button to leave it.
abbrev pub may_leave : Group → Bool
may_leave g = not g.all_visible
