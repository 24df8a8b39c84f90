-- ===== src/Groups/Tests.antt =====
-- Runs of the page of the groups.
use any_gateway.Base.{◌≡◌, refl, Bool, true, false, not, ◌&&◌, none, some, [], ◌∷◌, map}
use any_gateway.Base.Text.{Text, lit, text_eq}
use any_gateway.Base.Dict.{has}
use any_gateway.Json.{Engine}
use any_gateway.Api.{call, requests}
use any_gateway.Api.Groups.{remove_group_channel}
use any_gateway.Groups.Members.{
  Channel, Members, done, id_of, channel_options, start_channel_modal, finish_channel_modal,
  handle_remove_channel_from_group,
}
use any_gateway.Groups.Channels.{IsShown, value_of, head?, handle_remove-IsShown, stale_channels}

abbrev engine : Engine
engine = record {
  parse = λ t. none;
  stringify = λ v. lit "null";
  pretty = λ v. lit "null";
  number_text = λ n. lit "0";
}

abbrev channel : Text → Channel
channel id = record { id = id; name = id; provider = lit "openai" }

abbrev members : Members
members = record {
  visible = true;
  managing = lit "g";
  group_channels = channel (lit "a") ∷ channel (lit "b") ∷ [];
  all_channels = channel (lit "a") ∷ channel (lit "b") ∷ channel (lit "c") ∷ [];
  adding_channel_id = [];
  loading = false;
  adding = false;
}

abbrev server : Text → Bool
server k = has (lit "a" ∷ lit "b" ∷ []) k

runs : Unit {0}
unfolding lit text_eq has channel_options start_channel_modal finish_channel_modal
    handle_remove_channel_from_group
runs = tt

handle_remove-IsShown_example :
    IsShown
      (λ k. server k && not (text_eq k (lit "a")))
      (handle_remove_channel_from_group engine done (lit "a") members).0
    × ((k : Text)
        → has
            (map value_of
              (channel_options (handle_remove_channel_from_group engine done (lit "a") members).0))
            k
          ≡ (has (map id_of members.all_channels) k && not (server k && not (text_eq k (lit "a")))))
    × (requests (handle_remove_channel_from_group engine done (lit "a") members).1
        ≡ remove_group_channel members.managing (lit "a") ∷ [])
unfolding runs
handle_remove-IsShown_example = handle_remove-IsShown engine server (lit "a") members (λ k. refl)

stale_channels_example :
    let t = (finish_channel_modal none (start_channel_modal (lit "h") members).0).0 in
    (t.managing ≡ lit "h")
    × (t.group_channels ≡ members.group_channels)
    × (head? (handle_remove_channel_from_group engine done (lit "a") t).1
        ≡ some (call (remove_group_channel (lit "h") (lit "a"))))
stale_channels_example = stale_channels engine done (lit "h") (lit "a") members
