-- ===== src/Groups.antt =====
-- apps/react/src/pages/Groups: the table of the groups; the dialogs of a group's limits, channels
-- and prices are in the children. Numbers of the forms are the patterns of their doubles.

pub mod Limits
pub mod Members
pub mod GroupPrices
pub mod Channels
pub mod Windows
mod Tests
use any_gateway.Base.{
  ◌+◌, Bool, true, false, Option, none, some, List, [], ◌∷◌, ◌++◌, if◌then◌else◌,
}
use any_gateway.Base.Text.{Text, lit}
use any_gateway.Base.Dict.{Dict, remove}
use any_gateway.Json.{Json}
use any_gateway.Api.{
  fetched, failure, Call, Fetched, list, no_list, failed, Notice, Effect, call, notify, reload,
  object,
}
use any_gateway.Api.Groups.{get_groups, create_group, update_group, delete_group}

abbrev pub behind {ℓ} : {A : Type ℓ} → List Effect → A × List Effect → A × List Effect
behind es (a, more) = (a, es ++ more)

-- The state hooks of the table and of the form; `editing` is the group's identifier.
pub record Page : Type 0 where
  pub groups : List Json
  pub visible : Bool
  pub editing : Option Text

-- `fetchData` with its reply
unfoldable pub fetch_data : Fetched Json → Page → Page × List Effect
fetch_data reply s =
    (record s { groups = fetched reply s.groups }, call get_groups ∷ failure (lit "加载失败") reply)

-- `handleOpen`
abbrev pub handle_open : Option Text → Page → Page
handle_open group s = record s { editing = group; visible = true }

abbrev submit_call : Option Text → Dict Json → Call
submit_call none values = create_group (object values)
submit_call (some id) values = update_group id (object (remove (lit "name") values))

abbrev submitted : Option Text → Notice
submitted none = Notice.success (lit "已创建")
submitted (some id) = Notice.success (lit "已更新")

-- `handleSubmit`; `ok` says whether the request succeeds.
unfoldable pub handle_submit : Dict Json → Bool → Page → Page × List Effect
handle_submit values ok s =
    if ok
    then (
      record s { visible = false },
      call (submit_call s.editing values) ∷ notify (submitted s.editing) ∷ reload ∷ [],
    )
    else (s, call (submit_call s.editing values) ∷ notify (Notice.error (lit "操作失败")) ∷ [])

-- `handleDelete`
unfoldable pub handle_delete : Text → Bool → List Effect
handle_delete id ok =
    call (delete_group id)
    ∷ (if ok
        then notify (Notice.success (lit "已删除")) ∷ reload ∷ []
        else notify (Notice.error (lit "删除失败")) ∷ [])
