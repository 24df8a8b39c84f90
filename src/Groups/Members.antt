-- ===== src/Groups/Members.antt =====
-- The dialog of a group's channels of apps/react/src/pages/Groups.
use any_gateway.Base.{
  Bool, true, false, not, Option, none, some, List, [], ◌∷◌, ◌++◌, map, keep, if◌then◌else◌,
}
use any_gateway.Base.Text.{Text, lit, is_empty, text_eq}
use any_gateway.Base.Dict.{has}
use any_gateway.Json.{Json, Engine}
use any_gateway.Api.{detail_or, Fetched, failed, Notice, Effect, call, notify, get_channels}
use any_gateway.Api.Groups.{get_group_channels, add_group_channel, remove_group_channel}
use any_gateway.Groups.{behind}
use any_gateway.Api.{fetched}

-- What the page reads of a channel.
pub record Channel : Type 0 where
  pub id : Text
  pub name : Text
  pub provider : Text

-- The state hooks of the dialog of the channels.
pub record Members : Type 0 where
  pub visible : Bool
  pub managing : Text
  pub group_channels : List Channel
  pub all_channels : List Channel
  pub adding_channel_id : Text
  pub loading : Bool
  pub adding : Bool

-- `openChannelModal` up to its requests
unfoldable pub start_channel_modal : Text → Members → Members × List Effect
start_channel_modal group s = (
  record s { managing = group; adding_channel_id = []; visible = true; loading = true },
  call (get_group_channels group) ∷ call get_channels ∷ [],
)

-- `openChannelModal` behind its requests: both replies, or none where one is rejected
unfoldable pub finish_channel_modal :
    Option (Option (List Channel) × Option (List Channel)) → Members → Members × List Effect
finish_channel_modal none s =
    (record s { loading = false }, notify (Notice.error (lit "加载渠道失败")) ∷ [])
finish_channel_modal (some (mine, all)) s =
    (record s { group_channels = or_none mine; all_channels = or_none all; loading = false }, [])
  where
    or_none : Option (List Channel) → List Channel
    or_none none = []
    or_none (some cs) = cs

-- What a request of the dialog gives: it succeeds, or it is rejected with or without a `detail`.
pub data Outcome : Type 0 where
  done : Outcome
  rejected : Option Json → Outcome

-- the reload in `handleAddChannelToGroup`; its rejection is caught there too
abbrev reloaded : Engine → Fetched Channel → Option Json → Members → Members × List Effect
reloaded e failed detail s =
    (record s { adding = false }, notify (Notice.error (detail_or e (lit "添加失败") detail)) ∷ [])
reloaded e reply detail s =
    (record s { group_channels = fetched reply s.group_channels; adding = false }, [])

abbrev added : Engine → Outcome → Fetched Channel → Option Json → Members → Members × List Effect
added e (rejected detail) reply later s =
    (record s { adding = false }, notify (Notice.error (detail_or e (lit "添加失败") detail)) ∷ [])
added e done reply later s =
    behind (notify (Notice.success (lit "渠道已添加")) ∷ call (get_group_channels s.managing) ∷ [])
      (reloaded e reply later (record s { adding_channel_id = [] }))

-- `handleAddChannelToGroup`: the outcome of its request, and the reply of the reload with the
-- `detail` of its rejection.
unfoldable pub handle_add_channel_to_group :
    Engine → Outcome → Fetched Channel → Option Json → Members → Members × List Effect
handle_add_channel_to_group e outcome reply later s =
    if is_empty s.adding_channel_id
    then (s, notify (Notice.warning (lit "请选择要添加的渠道")) ∷ [])
    else behind (call (add_group_channel s.managing s.adding_channel_id) ∷ [])
        (added e outcome reply later s)

abbrev pub without : Text → List Channel → List Channel
without id cs = keep (λ (c : Channel). not (text_eq c.id id)) cs

-- `handleRemoveChannelFromGroup`
unfoldable pub handle_remove_channel_from_group :
    Engine → Outcome → Text → Members → Members × List Effect
handle_remove_channel_from_group e done id s = (
  record s { group_channels = without id s.group_channels },
  call (remove_group_channel s.managing id) ∷ notify (Notice.success (lit "渠道已移除")) ∷ [],
)
handle_remove_channel_from_group e (rejected detail) id s = (
  s,
  call (remove_group_channel s.managing id)
      ∷ notify (Notice.error (detail_or e (lit "移除失败") detail))
      ∷ [],
)

abbrev pub id_of : Channel → Text
id_of c = c.id

-- `channelOptions`: the labels and the values
unfoldable pub channel_options : Members → List (Text × Text)
channel_options s =
    map (λ (c : Channel). (c.name ++ lit " (" ++ c.provider ++ lit ")", c.id))
      (keep (λ (c : Channel). not (has (map id_of s.group_channels) c.id)) s.all_channels)
