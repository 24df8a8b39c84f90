-- ===== src/Channels/Dialog/Tests.antt =====
-- Runs of the dialog "manage models".
use any_gateway.Base.{
  All, map, ◌≡◌, refl, true, false, Option, none, some, List, [], ◌∷◌, ◌++◌, if◌then◌else◌,
}
use any_gateway.Base.Text.{Text, lit, text_eq, join, trim, trim_start, trim_end, is_space, to_lower}
use any_gateway.Base.Dict.{Distinct, has, get, put, add, add_all, unique}
use any_gateway.Json.{Json, str, arr, obj, nil, cons, end, Engine, elems, member, to_text, iterate}
use any_gateway.Api.{object, fulfilled}
use any_gateway.Toml.{VoiceEntry}
use any_gateway.Channels.{
  Channel, parse_model_ids, parse_models_detail, detail_entries, detail_voices, detail_entry,
  parse_voice, to_storage_voice,
}
use any_gateway.Channels.Dialog.{
  Dialog, Pending, initial, open_manage_models, show_detail, show_with, start_load, start_with,
  finish_load, toggle_model, select_all_visible, add_manual_model, models_payload, saved_ids,
  payload_entry, index_entries, entry_id, match_keyword, visible_upstream,
}
use any_gateway.Channels.Dialog.Loading.{opened, replied, here, next, fresh, HasSeq, Reach-HasSeq}
use any_gateway.Channels.Dialog.Cache.{WasBrought, Reach-WasBrought, stale_candidates}
use any_gateway.Channels.Dialog.Selection.{selected-Distinct}
use any_gateway.Channels.Dialog.View.{Row, rows, clear_selected}
use any_gateway.Channels.Dialog.View.Ticked.{id_of, rows-ticked}
use any_gateway.Channels.Dialog.Saving.{detail_entry-payload_entry, parse_model_ids-models_payload}

abbrev quoted : Json → Text
quoted (str s) = lit "\"" ++ s ++ lit "\""
quoted v = lit "null"

abbrev quoted_all : List Json → List Text
quoted_all [] = []
quoted_all (v ∷ vs) = quoted v ∷ quoted_all vs

abbrev print : Json → Text
print (arr vs) = lit "[" ++ join (lit ",") (quoted_all (elems vs)) ++ lit "]"
print v = quoted v

-- An engine that knows three texts.
abbrev engine : Engine
engine = record {
  parse = λ t.
      if text_eq t (lit "{}")
      then some (obj end)
      else if text_eq t (lit "[]")
      then some (arr nil)
      else if text_eq t (lit "[\"gpt\"]")
      then some (arr (cons (str (lit "gpt")) nil))
      else none;
  stringify = print;
  pretty = print;
  number_text = λ n. lit "0";
}

abbrev channel_of : Text → Option Text → Channel
channel_of id models = record {
  id = id;
  name = id;
  provider = lit "openai";
  base_url = lit "http://h";
  api_key = [];
  weight = 1;
  enabled = true;
  models = models;
  model_mapping = none;
  proxy_url = none;
  disable_ssl = false;
  disable_compression = false;
  protocol = none;
  ws_path = none;
  ws_subprotocols = none;
  created_at = [];
}

abbrev channel_a : Channel
channel_a = channel_of (lit "a") none

abbrev voice : VoiceEntry
voice = record { voice = lit "Bob"; info = lit "calm"; trial_url = some (lit "http://u") }

abbrev chosen : Dialog
chosen = record initial { selected = lit "gpt" ∷ [] }

-- What `GET …/upstream-models` answers.
abbrev answer : Json
answer = object ((lit "models", arr (cons (str (lit "gpt")) nil)) ∷ [])

runs : Unit {0}
unfolding lit text_eq join trim trim_start trim_end is_space has get put add add_all unique member
    to_text iterate parse_model_ids parse_models_detail detail_entries detail_voices detail_entry
    parse_voice to_storage_voice open_manage_models show_detail show_with start_load start_with
    finish_load toggle_model select_all_visible add_manual_model models_payload saved_ids
    payload_entry index_entries entry_id match_keyword to_lower
runs = tt

Reach-HasSeq_example : HasSeq 1 (record { channel = lit "a"; seq = 1 } ∷ [])
unfolding runs
Reach-HasSeq_example = Reach-HasSeq (next here (opened engine channel_a fresh)) refl

Reach-WasBrought_example : WasBrought (lit "a") (lit "gpt" ∷ []) ((lit "a", lit "gpt" ∷ []) ∷ [])
unfolding runs
Reach-WasBrought_example =
    Reach-WasBrought
      (next (next here (opened engine channel_a fresh))
        (replied [] [] (record { channel = lit "a"; seq = 1 }) (fulfilled answer) _ refl))
      (lit "a") (lit "gpt" ∷ []) refl

stale_candidates_example :
    let s = record initial { upstream_cache = (lit "a", lit "m" ∷ []) ∷ []; fetch_seq = 1 } in
    let p : Pending = record { channel = lit "b"; seq = 1 } in
    ((open_manage_models engine channel_a s).0.upstream_ids ≡ some (lit "m" ∷ []))
    × ((finish_load p (fulfilled answer) (open_manage_models engine channel_a s).0).0.managing
        ≡ some channel_a)
    × ((finish_load p (fulfilled answer) (open_manage_models engine channel_a s).0).0.upstream_ids
        ≡ some (lit "gpt" ∷ []))
unfolding runs
stale_candidates_example =
    stale_candidates engine channel_a
      (record initial { upstream_cache = (lit "a", lit "m" ∷ []) ∷ []; fetch_seq = 1 })
      (record { channel = lit "b"; seq = 1 }) answer (lit "m" ∷ []) ([], []) refl refl refl

detail_entry-payload_entry_example :
    detail_entry engine (payload_entry [] ((lit "m", voice ∷ []) ∷ []) (lit "m")) []
    ≡ some ((lit "m", voice ∷ []) ∷ [])
unfolding runs
detail_entry-payload_entry_example =
    detail_entry-payload_entry engine [] ((lit "m", voice ∷ []) ∷ []) (lit "m") (voice ∷ []) [] refl
      refl ((refl, refl), tt)

parse_model_ids-models_payload_example :
    parse_model_ids engine (some (lit "[\"gpt\"]")) none ≡ lit "gpt" ∷ []
unfolding runs
parse_model_ids-models_payload_example =
    parse_model_ids-models_payload engine chosen (str (lit "gpt") ∷ []) refl tt refl refl refl

-- A dialog with a candidate of the upstream.
abbrev offered : Dialog
offered = record chosen { upstream_ids = some (lit "m" ∷ []) }

rows-ticked_example :
    ((k : Text)
      → has (map id_of (rows engine (select_all_visible offered))) k
        ≡ has (map id_of (rows engine offered)) k)
    × All (λ (r : Row). r.ticked ≡ true) (rows engine (select_all_visible offered))
    × ((k : Text)
        → has (map id_of (rows engine (clear_selected offered))) k
          ≡ has (visible_upstream offered) k)
    × All (λ (r : Row). r.ticked ≡ false) (rows engine (clear_selected offered))
rows-ticked_example = rows-ticked engine offered

selected-Distinct_example :
    Distinct (open_manage_models engine channel_a chosen).0.selected
    × Distinct (toggle_model (lit "m") true chosen).selected
    × Distinct (select_all_visible chosen).selected
    × Distinct (add_manual_model chosen).0.selected
unfolding runs
selected-Distinct_example = selected-Distinct engine channel_a chosen (lit "m") true (refl, tt)
