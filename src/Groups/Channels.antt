-- ===== src/Groups/Channels.antt =====
-- The channels of a group, and those on offer for it.
use any_gateway.Base.{
  ◌≡◌, refl, ap, ◌∙◌, Bool, not, ◌&&◌, Option, none, some, List, [], ◌∷◌, ◌++◌, map, keep,
}
use any_gateway.Base.Text.{Text, lit, text_eq}
use any_gateway.Base.Dict.{has}
use any_gateway.Base.Keep.{has-keep}
use any_gateway.Json.{Engine}
use any_gateway.Groups.Members.{
  Channel, Members, Outcome, done, id_of, channel_options, handle_remove_channel_from_group,
  rejected, start_channel_modal, finish_channel_modal,
}
use any_gateway.Api.{Effect, call, requests}
use any_gateway.Api.Groups.{remove_group_channel}

abbrev pub head? : List Effect → Option Effect
head? [] = none
head? (e ∷ es) = some e

abbrev pub value_of : Text × Text → Text
value_of (label, value) = value

map-value_of :
    (cs : List Channel)
    → map value_of (map (λ (c : Channel). (c.name ++ lit " (" ++ c.provider ++ lit ")", c.id)) cs)
      ≡ map id_of cs
map-value_of [] = refl
map-value_of (c ∷ cs) = ap (λ (r : List Text). c.id ∷ r) (map-value_of cs)

has-channel_options :
    (s : Members) (k : Text)
    → has (map value_of (channel_options s)) k
      ≡ (has (map id_of s.all_channels) k && not (has (map id_of s.group_channels) k))
unfolding channel_options
has-channel_options s k =
    rw
      (map-value_of
        (keep (λ (c : Channel). not (has (map id_of s.group_channels) c.id)) s.all_channels))
      (has-keep id_of (λ i. not (has (map id_of s.group_channels) i)) s.all_channels k)

-- The dialog shows what the server has for the group, given as a test on the channels'
-- identifiers.
abbrev pub IsShown : (Text → Bool) → Members → Type 0
IsShown server s = (k : Text) → has (map id_of s.group_channels) k ≡ server k

-- Where the dialog shows the group that the server has, and the removal of a channel succeeds: the
-- dialog shows the group without that channel, and on offer are just those of all channels that the
-- group does not have any more, the removed one among them. The one request is to remove that
-- channel from the dialog's group.
pub handle_remove-IsShown :
    (e : Engine) (server : Text → Bool) (id : Text) (s : Members)
    → IsShown server s
    → IsShown (λ k. server k && not (text_eq k id)) (handle_remove_channel_from_group e done id s).0
      × ((k : Text)
          → has (map value_of (channel_options (handle_remove_channel_from_group e done id s).0)) k
            ≡ (has (map id_of s.all_channels) k && not (server k && not (text_eq k id))))
      × (requests (handle_remove_channel_from_group e done id s).1
          ≡ remove_group_channel s.managing id ∷ [])
unfolding handle_remove_channel_from_group
handle_remove-IsShown e server id s h =
    let shown : IsShown (λ k. server k && not (text_eq k id))
        (handle_remove_channel_from_group e done id s).0 =
      λ k.
        has-keep id_of (λ i. not (text_eq i id)) s.group_channels k
        ∙ ap (λ b. b && not (text_eq k id)) (h k) in
    (
      shown,
      λ k.
          has-channel_options (handle_remove_channel_from_group e done id s).0 k
          ∙ ap (λ b. has (map id_of s.all_channels) k && not b) (shown k),
      refl,
    )

-- The channels of one group are on display, the dialog is opened for another one, and its requests
-- fail: it then stands for the other group, shows the channels of the first, and the removal of any
-- of them is asked of the server for the other group.
pub stale_channels :
    (e : Engine) (outcome : Outcome) (group id : Text) (s : Members)
    → let t = (finish_channel_modal none (start_channel_modal group s).0).0 in
      (t.managing ≡ group)
      × (t.group_channels ≡ s.group_channels)
      × (head? (handle_remove_channel_from_group e outcome id t).1
          ≡ some (call (remove_group_channel group id)))
unfolding finish_channel_modal start_channel_modal handle_remove_channel_from_group
stale_channels e done group id s = (refl, refl, refl)
stale_channels e (rejected detail) group id s = (refl, refl, refl)
