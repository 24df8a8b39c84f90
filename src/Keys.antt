-- ===== src/Keys.antt =====
-- apps/react/src/pages/ApiKeys: the keys of a user. Numbers are the patterns of their doubles.

use any_gateway.Base.{
  ℕ, Bool, true, false, Option, none, some, List, [], ◌∷◌, ◌++◌, take, if◌then◌else◌,
}
use any_gateway.Base.Text.{Text, lit, is_empty}
use any_gateway.Base.Dict.{Dict, get, put}
use any_gateway.Base.Double.{is_zero}
use any_gateway.Json.{Json, null, str, truthy, member, Engine}
use any_gateway.Api.{
  Reply, fulfilled, rejected, Fetched, fetched, failure, Notice, Effect, call, notify, reload,
  object,
}
use any_gateway.Api.Accounts.{
  get_tokens, create_token, update_token, delete_token, freeze_token, get_user_groups,
}

-- `Token`
pub record Token : Type 0 where
  pub id : Text
  pub name : Text
  pub key : Text
  pub group_id : Option Text
  pub quota_usd : ℕ
  pub used_usd : ℕ
  pub frozen : Bool
  pub expires_at : Option Text
  pub created_at : Text
  pub last_used : Option Text

-- `GroupOption`
pub record GroupOption : Type 0 where
  pub id : Text
  pub name : Text

-- The state hooks, and the group that the form of a key was last filled with.
pub record Page : Type 0 where
  pub data' : List Token
  pub groups : List GroupOption
  pub loading : Bool
  pub create_visible : Bool
  pub edit_visible : Bool
  pub editing_token : Option Token
  pub new_key_visible : Bool
  pub new_key : Json
  pub shown_group : Option Text

-- `groupMap`: a later group with the same identifier takes the place of an earlier one.
unfoldable pub group_map : List GroupOption → Dict Text → Dict Text
group_map [] d = d
group_map (g ∷ gs) d = group_map gs (put g.id g.name d)

-- `fetchData` with its reply
unfoldable pub fetch_data : Fetched Token → Page → Page × List Effect
fetch_data reply s = (
  record s { data' = fetched reply s.data'; loading = false },
  call get_tokens ∷ failure (lit "加载失败") reply,
)

-- `fetchGroups` with its reply; a failure is silent
unfoldable pub fetch_groups : Fetched GroupOption → Page → Page × List Effect
fetch_groups reply s = (record s { groups = fetched reply s.groups }, call get_user_groups ∷ [])

abbrev pub filled_or_null : Option Text → Json
filled_or_null none = null
filled_or_null (some t) = if is_empty t then null else str t

abbrev key_or_empty : Option Json → Json
key_or_empty none = str []
key_or_empty (some key) = if truthy key then key else str []

-- The body of the request for a new key: the values of the form, and the group.
abbrev pub create_payload : Dict Json → Option Text → Dict Json
create_payload values group = put (lit "group_id") (filled_or_null group) values

-- `handleCreate` with its reply; `group` is the group among the values
unfoldable pub handle_create : Dict Json → Option Text → Reply → Page → Page × List Effect
handle_create values group (fulfilled data') s = (
  record s {
    new_key = key_or_empty (member (lit "key") data');
    create_visible = false;
    new_key_visible = true;
  },
  call (create_token (object (create_payload values group))) ∷ [],
)
handle_create values group (rejected detail) s = (
  s,
  call (create_token (object (create_payload values group)))
      ∷ notify (Notice.error (lit "创建失败"))
      ∷ [],
)

-- Closing the dialog that shows a new key.
unfoldable pub close_new_key : Page → Page × List Effect
close_new_key s = (record s { new_key_visible = false }, reload ∷ [])

-- `handleEdit`
unfoldable pub handle_edit : Token → Page → Page
handle_edit row s = record s {
  editing_token = some row;
  shown_group = row.group_id;
  edit_visible = true;
}

-- Cancelling the form of a key.
abbrev pub cancel_edit : Page → Page
cancel_edit s = record s { edit_visible = false; editing_token = none; shown_group = none }

abbrev pub edit_payload : Option Text → Dict Json
edit_payload group = (lit "group_id", filled_or_null group) ∷ []

abbrev submit_edit : Token → Option Text → Bool → Page → Page × List Effect
submit_edit t group true s = (
  record s { edit_visible = false; editing_token = none },
  call (update_token t.id (object (edit_payload group)))
      ∷ notify (Notice.success (lit "已更新"))
      ∷ reload
      ∷ [],
)
submit_edit t group false s = (
  s,
  call (update_token t.id (object (edit_payload group))) ∷ notify (Notice.error (lit "更新失败")) ∷ [],
)

-- `handleEditSubmit`; `ok` says whether the request succeeds.
unfoldable pub handle_edit_submit : Option Text → Bool → Page → Page × List Effect
handle_edit_submit group ok s = elim s.editing_token [
  | none ↦ (s, [])
  | some t ↦ submit_edit t group ok s
]

-- `handleDelete`
unfoldable pub handle_delete : Text → Bool → List Effect
handle_delete id ok =
    call (delete_token id)
    ∷ (if ok
        then notify (Notice.success (lit "已删除")) ∷ reload ∷ []
        else notify (Notice.error (lit "删除失败")) ∷ [])

-- `handleFreeze`
unfoldable pub handle_freeze : Text → Bool → Bool → List Effect
handle_freeze id frozen ok =
    call (freeze_token id frozen)
    ∷ (if ok
        then notify (Notice.success (if frozen then lit "已冻结" else lit "已解冻")) ∷ reload ∷ []
        else notify (Notice.error (lit "操作失败")) ∷ [])

-- What the table shows of a key: its first eight code units and four stars.
unfoldable pub key_cell : Text → Text
key_cell key = take 8 key ++ lit "****"

abbrev name_or : Option Text → Text → Text
name_or none gid = gid
name_or (some name) gid = name

abbrev group_cell_of : Dict Text → Text → Text
group_cell_of names gid = if is_empty gid then lit "未绑定" else name_or (get gid names) gid

-- The cell of the group.
unfoldable pub group_cell : List GroupOption → Option Text → Text
group_cell groups none = lit "未绑定"
group_cell groups (some gid) = group_cell_of (group_map groups []) gid

-- The cell of the quota; a quota of zero has no bound.
unfoldable pub quota_cell : Engine → (ℕ → Text) → Token → Text
quota_cell e fixed t =
    fixed t.used_usd
    ++ lit " / "
    ++ (if is_zero t.quota_usd then lit "∞" else lit "$" ++ e.number_text t.quota_usd)

abbrev pub status_cell : Bool → Text
status_cell frozen = if frozen then lit "冻结" else lit "正常"

-- `groupOptions`: the labels and the values
abbrev options_from : List GroupOption → List (Text × Text)
options_from [] = []
options_from (g ∷ gs) = (g.name, g.id) ∷ options_from gs

abbrev pub group_options : List GroupOption → List (Text × Text)
group_options groups = (lit "不绑定（使用用户默认分组）", []) ∷ options_from groups
