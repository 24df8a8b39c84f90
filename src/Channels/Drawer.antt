-- ===== src/Channels/Drawer.antt =====
-- The table and the drawer that edits a channel, of apps/react/src/pages/Channels/index.tsx. The
-- form is the component library's: its values are a record, and `form.validate()` gives values or
-- a rejection that shows its errors itself.
pub mod Rules
mod Tests
use any_gateway.Base.{
  ℕ, zero, suc, ◌*◌, ◌^◌, Bool, true, false, not, ◌==◌, Option, none, some, List, [], ◌∷◌, ◌++◌,
  map, length, if◌then◌else◌,
}
use any_gateway.Base.Text.{Text, lit, is_empty, trim}
use any_gateway.Base.Dict.{Dict, put, unique}
use any_gateway.Json.{Json, str, num, bool, nil, Engine, member, present}
use any_gateway.Api.{
  Reply, fulfilled, rejected, Notice, Effect, call, notify, reload, object, get_channels,
  create_channel, update_channel, delete_channel,
}
use any_gateway.Channels.{Channel, Mapping, parse_mappings, or_default}

-- The values of the form; a field that is not set has none.
pub record Values : Type 0 where
  pub name : Option Text
  pub provider : Option Text
  pub base_url : Option Text
  pub api_key : Option Text
  pub weight : Option ℕ
  pub enabled : Option Bool
  pub proxy_url : Option Text
  pub disable_ssl : Option Bool
  pub disable_compression : Option Bool
  pub protocol : Option Text
  pub ws_path : Option Text
  pub ws_subprotocols : Option Text

-- The state hooks of the table and of the drawer.
pub record Drawer : Type 0 where
  pub channels : Json
  pub loading : Bool
  pub visible : Bool
  pub editing : Option Channel
  pub submitting : Bool
  pub mappings : List Mapping
  pub form : Values

-- The 64-bit pattern of the number 1.
abbrev one : ℕ
one = 1023 * 2 ^ 52

abbrev or_list : Option Json → Json
or_list none = Json.arr nil
or_list (some v) = v

abbrev page_of : Option Json → Json → Json
page_of none v = or_list (present (some v))
page_of (some d) v = d

-- `fetchData` behind its `await`
unfoldable pub fetch_data : Reply → Drawer → Drawer × List Effect
fetch_data (fulfilled v) s =
    (record s { channels = page_of (present (member (lit "data") v)) v; loading = false }, [])
fetch_data (rejected _) s =
    (record s { loading = false }, notify (Notice.error (lit "获取 Channel 列表失败")) ∷ [])

-- `openCreate`
unfoldable pub open_create : Drawer → Drawer
open_create s = record s {
  visible = true;
  editing = none;
  mappings = [];
  form = record {
    name = none;
    provider = some (lit "openai");
    base_url = none;
    api_key = none;
    weight = some one;
    enabled = some true;
    proxy_url = none;
    disable_ssl = some false;
    disable_compression = some false;
    protocol = some (lit "http");
    ws_path = none;
    ws_subprotocols = none;
  };
}

abbrev or_text : Text → Option Text → Option Text
or_text d none = some d
or_text d (some t) = some t

-- `openEdit`
unfoldable pub open_edit : Engine → Channel → Drawer → Drawer
open_edit e c s = record s {
  visible = true;
  editing = some c;
  mappings = parse_mappings e c.model_mapping;
  form = record {
    name = some c.name;
    provider = some c.provider;
    base_url = some c.base_url;
    api_key = some [];
    weight = some c.weight;
    enabled = some c.enabled;
    proxy_url = or_text [] c.proxy_url;
    disable_ssl = some c.disable_ssl;
    disable_compression = some c.disable_compression;
    protocol = or_text (lit "http") c.protocol;
    ws_path = or_text [] c.ws_path;
    ws_subprotocols = or_text [] c.ws_subprotocols;
  };
}

-- `addMapping`
unfoldable pub add_mapping : Drawer → Drawer
add_mapping s = record s { mappings = s.mappings ++ record { from = []; to = str [] } ∷ [] }

pub data Side : Type 0 where
  from to : Side

abbrev with_side : Side → Text → Mapping → Mapping
with_side from value m = record m { from = value }
with_side to value m = record m { to = str value }

-- The index comes from a row that is shown, so it is in range.
unfoldable pub update_at : ℕ → Side → Text → List Mapping → List Mapping
update_at i side value [] = []
update_at zero side value (m ∷ ms) = with_side side value m ∷ ms
update_at (suc i) side value (m ∷ ms) = m ∷ update_at i side value ms

-- `updateMapping`
unfoldable pub update_mapping : ℕ → Side → Text → Drawer → Drawer
update_mapping i side value s = record s { mappings = update_at i side value s.mappings }

unfoldable pub remove_at : ℕ → List Mapping → List Mapping
remove_at i [] = []
remove_at zero (m ∷ ms) = ms
remove_at (suc i) (m ∷ ms) = m ∷ remove_at i ms

-- `removeMapping`
unfoldable pub remove_mapping : ℕ → Drawer → Drawer
remove_mapping i s = record s { mappings = remove_at i s.mappings }

-- What the rules of the mapping come to: fine, refused with a message, or something throws
-- (`trim` of a value that is no text).
pub data Check : Type 0 where
  fine : Check
  refused : Text → Check
  thrown : Check

abbrev pub incomplete : Text
incomplete = lit "映射规则的 from 和 to 均不能为空"

abbrev pub check_to : Json → Check → Check
check_to (str t) rest = if is_empty (trim t) then refused incomplete else rest
check_to v rest = thrown

unfoldable pub check_complete : List Mapping → Check
check_complete [] = fine
check_complete (m ∷ ms) =
    let rest = check_to m.to (check_complete ms) in
    if is_empty (trim m.from) then refused incomplete else rest

abbrev pub from_of : Mapping → Text
from_of m = trim m.from

unfoldable pub check_distinct : List Mapping → Check
check_distinct ms =
    if not (length (unique (map from_of ms)) == length (map from_of ms))
    then refused (lit "映射规则中存在重复的 from 模型名")
    else fine

abbrev pub also : Check → Check → Check
also fine next = next
also (refused t) next = refused t
also thrown next = thrown

unfoldable pub check_rules : List Mapping → Check
check_rules ms = also (check_complete ms) (check_distinct ms)

abbrev pub trimmed : Json → Json
trimmed (str t) = str (trim t)
trimmed v = v

-- `mappingObj`
unfoldable pub mapping_object : List Mapping → Dict Json → Dict Json
mapping_object [] d = d
mapping_object (m ∷ ms) d = mapping_object ms (put (trim m.from) (trimmed m.to) d)

-- `(v || '').trim() || null`
abbrev pub text_or_null : Option Text → Json
text_or_null v =
    if is_empty (trim (or_default v [])) then Json.null else str (trim (or_default v []))

-- a member whose value may be `undefined`, which the request leaves out
abbrev pub text_field : Text → Option Text → Dict Json
text_field k none = []
text_field k (some t) = (k, str t) ∷ []

abbrev pub weight_field : Option ℕ → Dict Json
weight_field none = []
weight_field (some n) = (lit "weight", num n) ∷ []

abbrev pub enabled_field : Option Bool → Dict Json
enabled_field none = []
enabled_field (some b) = (lit "enabled", bool b) ∷ []

abbrev pub is_on : Option Bool → Bool
is_on none = false
is_on (some b) = b

-- the members of both payloads behind `enabled`
unfoldable pub rest_fields : Text → Values → Dict Json
rest_fields model_mapping v =
    (lit "model_mapping", str model_mapping)
    ∷ (lit "proxy_url", text_or_null v.proxy_url)
    ∷ (lit "disable_ssl", bool (is_on v.disable_ssl))
    ∷ (lit "disable_compression", bool (is_on v.disable_compression))
    ∷ (lit "protocol", str (or_default v.protocol (lit "http")))
    ∷ (lit "ws_path", text_or_null v.ws_path)
    ∷ (lit "ws_subprotocols", text_or_null v.ws_subprotocols)
    ∷ []

abbrev pub filled_key : Option Text → Dict Json
filled_key v = if is_empty (or_default v []) then [] else text_field (lit "api_key") v

abbrev pub first_fields : Values → Dict Json
first_fields v =
    text_field (lit "name") v.name
    ++ text_field (lit "provider") v.provider
    ++ text_field (lit "base_url") v.base_url

unfoldable pub update_payload : Text → Values → Json
update_payload model_mapping v = object (
    first_fields v
    ++ weight_field v.weight
    ++ enabled_field v.enabled
    ++ rest_fields model_mapping v
    ++ filled_key v.api_key)

unfoldable pub create_payload : Text → Values → Json
create_payload model_mapping v = object (
    first_fields v
    ++ text_field (lit "api_key") v.api_key
    ++ weight_field v.weight
    ++ enabled_field v.enabled
    ++ rest_fields model_mapping v)

abbrev failed : Effect
failed = notify (Notice.error (lit "操作失败，请重试"))

abbrev after_reply : Reply → Text → Drawer → Drawer × List Effect
after_reply (fulfilled _) message s =
    (record s { visible = false }, notify (Notice.success message) ∷ reload ∷ [])
after_reply (rejected _) message s = (s, failed ∷ [])

abbrev sent : Option Channel → Text → Values → Effect
sent none model_mapping v = call (create_channel (create_payload model_mapping v))
sent (some c) model_mapping v = call (update_channel c.id (update_payload model_mapping v))

abbrev saved_message : Option Channel → Text
saved_message none = lit "Channel 创建成功"
saved_message (some c) = lit "Channel 更新成功"

abbrev pub mapping_text : Engine → List Mapping → Text
mapping_text e ms = e.stringify (object (mapping_object ms []))

abbrev pub submit_checked : Check → Engine → Values → Reply → Drawer → Drawer × List Effect
submit_checked (refused message) e v reply s = (s, notify (Notice.error message) ∷ [])
submit_checked thrown e v reply s = (s, failed ∷ [])
submit_checked fine e v reply s =
    let done = after_reply reply (saved_message s.editing) s in
    (done.0, sent s.editing (mapping_text e s.mappings) v ∷ done.1)

-- `handleSubmit`, with what `form.validate()` gives (`none`: a rejection) and the server's reply.
-- `submitting` is true while the reply is awaited.
unfoldable pub handle_submit : Engine → Option Values → Reply → Drawer → Drawer × List Effect
handle_submit e none reply s = (record s { submitting = false }, [])
handle_submit e (some v) reply s =
    submit_checked (check_rules s.mappings) e v reply (record s { submitting = false })

-- `handleDelete`
unfoldable pub handle_delete : Text → Reply → List Effect
handle_delete id (fulfilled _) =
    call (delete_channel id) ∷ notify (Notice.success (lit "删除成功")) ∷ reload ∷ []
handle_delete id (rejected _) = call (delete_channel id) ∷ notify (Notice.error (lit "删除失败")) ∷ []
