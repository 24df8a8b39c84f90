-- ===== src/Channels/Dialog.antt =====
-- The dialog "manage models" of apps/react/src/pages/Channels/index.tsx: its state, the handlers,
-- and the loading of the upstream's models, whose replies may come late.
pub mod Loading
pub mod Selection
pub mod Saving
pub mod Cache
pub mod View
mod Tests
use any_gateway.Base.{
  ℕ, suc, Bool, true, false, not, ◌&&◌, ◌||◌, Option, none, some, List, [], ◌∷◌, ◌++◌, map, length,
  ltb, ◌==◌, if◌then◌else◌, keep, ◌⊎◌, inl, inr,
}
use any_gateway.Base.Text.{Text, lit, is_empty, trim, to_lower, includes, decimal, text_eq}
use any_gateway.Base.Dict.{Dict, has, get, put, remove, unique}
use any_gateway.Json.{
  Json, str, obj, arr, Engine, elems, to_elems, fields, member, array_of, to_text, string_of,
}
use any_gateway.Toml.{VoiceEntry, parse_voices_toml}
use any_gateway.Toml.Writer.{voices_to_toml}
use any_gateway.Api.{
  Reply, fulfilled, rejected, Notice, Effect, call, notify, reload, object, update_channel,
  get_upstream_models,
}
use any_gateway.Channels.{
  Channel, parse_model_ids, parse_models_detail, entry_name, to_storage_voice,
}

-- The state hooks of the dialog. `fetch_seq` is the ref `upstreamFetchSeq`.
pub record Dialog : Type 0 where
  pub managing : Option Channel
  pub selected : List Text
  pub upstream_ids : Option (List Text)
  pub loading_upstream : Bool
  pub saving : Bool
  pub search : Text
  pub manual_model : Text
  pub upstream_cache : Dict (List Text)
  pub fetch_seq : ℕ
  pub model_voices : Dict (List VoiceEntry)
  pub original_entries : List Json
  pub editor_model : Option Text
  pub editor_text : Text

-- The first values of the hooks.
abbrev pub initial : Dialog
initial = record {
  managing = none;
  selected = [];
  upstream_ids = none;
  loading_upstream = false;
  saving = false;
  search = [];
  manual_model = [];
  upstream_cache = [];
  fetch_seq = 0;
  model_voices = [];
  original_entries = [];
  editor_model = none;
  editor_text = [];
}

-- A request for the upstream's models that has no reply yet: the channel and its `seq`.
pub record Pending : Type 0 where
  pub channel : Text
  pub seq : ℕ

-- The derived values of a render.
abbrev pub upstream_list : Dialog → List Text
upstream_list s = elim s.upstream_ids [ none ↦ [] | some ids ↦ ids ]

unfoldable pub match_keyword : Dialog → Text → Bool
match_keyword s id =
    let keyword = to_lower (trim s.search) in is_empty keyword || includes keyword (to_lower id)

unfoldable pub custom_ids : Dialog → List Text
custom_ids s = keep (λ id. not (has (upstream_list s) id)) s.selected

unfoldable pub visible_custom : Dialog → List Text
unfolding custom_ids match_keyword
visible_custom s = keep (match_keyword s) (custom_ids s)

unfoldable pub visible_upstream : Dialog → List Text
unfolding match_keyword
visible_upstream s = keep (match_keyword s) (upstream_list s)

-- A cached list is shown; without one a request is started.
unfoldable pub start_with : Option (List Text) → Text → Dialog → Dialog × Option Pending
start_with (some ids) id s = (record s { upstream_ids = some ids }, none)
start_with none id s = (
  record s { fetch_seq = suc s.fetch_seq; loading_upstream = true },
  some (record { channel = id; seq = suc s.fetch_seq }),
)

-- `loadUpstreamModels(id, force)` up to its `await`: the request that it starts, if any.
unfoldable pub start_load : Text → Bool → Dialog → Dialog × Option Pending
start_load id force s = start_with (if force then none else get id s.upstream_cache) id s

-- `res.data?.models ?? []`, taken to be an array of texts
abbrev reply_texts : List Json → List Text
reply_texts [] = []
reply_texts (str t ∷ vs) = t ∷ reply_texts vs
reply_texts (v ∷ vs) = reply_texts vs

abbrev pub reply_ids : Json → List Text
reply_ids data' = elim (array_of (member (lit "models") data')) [
  | none ↦ []
  | some vs ↦ reply_texts vs
]

-- The rest of `loadUpstreamModels`, behind the `await`.
unfoldable pub finish_load : Pending → Reply → Dialog → Dialog × List Effect
finish_load p (fulfilled data') s = if not (p.seq == s.fetch_seq) then (s, []) else (
  record s {
    upstream_cache = put p.channel (reply_ids data') s.upstream_cache;
    upstream_ids = some (reply_ids data');
    loading_upstream = false;
  },
  [],
)
finish_load p (rejected detail) s = if not (p.seq == s.fetch_seq) then (s, []) else (
  record s { upstream_ids = some []; loading_upstream = false },
  notify (Notice.warning (lit "上游模型列表获取失败，可手动添加模型名")) ∷ [],
)

-- The end of `openManageModels`: the candidates come from the cache or are loaded.
unfoldable pub show_with : Option (List Text) → Text → Dialog → Dialog × Option Pending
show_with (some ids) id s = (record s { upstream_ids = some ids }, none)
show_with none id s = start_load id false (record s { upstream_ids = none })

unfoldable pub show_detail :
    Option (List Json × Dict (List VoiceEntry)) → Text → Dialog → Dialog × Option Pending
show_detail none id s = (s, none)
show_detail (some detail) id s = show_with (get id s.upstream_cache) id (record s {
  original_entries = detail.0;
  model_voices = detail.1;
  search = [];
  manual_model = [];
})

abbrev pub opened_on : Engine → Channel → Dialog → Dialog
opened_on e channel s = record s {
  managing = some channel;
  selected = parse_model_ids e channel.models none;
}

-- `openManageModels`. Where reading the details throws, the states set before stay set.
unfoldable pub open_manage_models : Engine → Channel → Dialog → Dialog × Option Pending
open_manage_models e channel s =
    show_detail (parse_models_detail e channel.models) channel.id (opened_on e channel s)

unfoldable pub close_dialog : Dialog → Dialog
close_dialog s = record s { managing = none }

unfoldable pub toggle_model : Text → Bool → Dialog → Dialog
toggle_model id checked s =
    if checked
    then (if has s.selected id then s else record s { selected = s.selected ++ id ∷ [] })
    else record s { selected = keep (λ x. not (text_eq x id)) s.selected }

unfoldable pub select_all_visible : Dialog → Dialog
select_all_visible s = record s {
  selected = unique (s.selected ++ (visible_custom s ++ visible_upstream s));
}

unfoldable pub add_manual_model : Dialog → Dialog × List Effect
add_manual_model s =
    let id = trim s.manual_model in
    if is_empty id
    then (s, [])
    else if has s.selected id
    then (s, notify (Notice.info (lit "该模型已在列表中")) ∷ [])
    else (record s { selected = s.selected ++ id ∷ []; manual_model = [] }, [])

abbrev voice_count : Text → Dialog → ℕ
voice_count id s = elim (get id s.model_voices) [ none ↦ 0 | some vs ↦ length vs ]

-- `toggleTtsModel`; the answer to the confirmation is the third argument.
unfoldable pub toggle_tts_model : Text → Bool → Bool → Dialog → Dialog
toggle_tts_model id checked confirmed s =
    if checked
    then elim (get id s.model_voices) [
      | none ↦ record s { model_voices = put id [] s.model_voices }
      | some vs ↦ s
    ]
    else if ltb 0 (voice_count id s) && not confirmed
    then s
    else record s { model_voices = remove id s.model_voices }

unfoldable pub open_voice_editor : Text → Dialog → Dialog
open_voice_editor id s = record s {
  editor_model = some id;
  editor_text = voices_to_toml (elim (get id s.model_voices) [ none ↦ [] | some vs ↦ vs ]);
}

abbrev save_parsed : Text → List VoiceEntry ⊎ Text → Dialog → Dialog × List Effect
save_parsed id (inr message) s = (s, notify (Notice.error message) ∷ [])
save_parsed id (inl voices) s =
    (record s { model_voices = put id voices s.model_voices; editor_model = none }, [])

-- `saveVoiceEditor`
unfoldable pub save_voice_editor : Dialog → Dialog × List Effect
save_voice_editor s = elim s.editor_model [
  | none ↦ (s, [])
  | some id ↦ if is_empty id then (s, []) else save_parsed id (parse_voices_toml s.editor_text) s
]

-- the identifier of an original entry; reading a member of `null` throws
unfoldable pub entry_id : Engine → Json → Option Text
entry_id e (str s) = some s
entry_id e Json.null = none
entry_id e m = some (entry_name e m)

-- the loop that fills `entryById`
unfoldable pub index_entries : Engine → List Json → Dict Json → Option (Dict Json)
index_entries e [] d = some d
index_entries e (m ∷ ms) d = elim (entry_id e m) [
  | none ↦ none
  | some id ↦ index_entries e ms (if is_empty id then d else put id m d)
]

abbrev pub spread : Option Json → Dict Json
spread (some (obj fs)) = fields fs
spread _ = []

abbrev pub or_text : Option Json → Text → Json
or_text none id = str id
or_text (some v) id = v

-- one element of `modelsPayload`
unfoldable pub payload_entry : Dict Json → Dict (List VoiceEntry) → Text → Json
payload_entry entries voices id = elim (get id voices) [
  | none ↦ or_text (get id entries) id
  | some vs ↦ object (
      put (lit "voices") (arr (to_elems (map to_storage_voice vs)))
        (put (lit "id") (str id) (spread (get id entries))))
]

unfoldable pub saved_ids : Dialog → List Text
saved_ids s = unique (keep (λ t. not (is_empty t)) (map trim s.selected))

abbrev pub payload_with : Option (Dict Json) → Dialog → Option (List Json)
payload_with none s = none
payload_with (some entries) s = some (map (payload_entry entries s.model_voices) (saved_ids s))

-- `modelsPayload`; `none` where indexing the original entries throws
unfoldable pub models_payload : Engine → Dialog → Option (List Json)
models_payload e s = payload_with (index_entries e s.original_entries []) s

abbrev saved_notice : ℕ → Notice
saved_notice n = Notice.success (lit "已保存 " ++ decimal n ++ lit " 个模型")

abbrev after_save : Reply → ℕ → Dialog → Dialog × List Effect
after_save (fulfilled _) n s = (record s { managing = none }, notify (saved_notice n) ∷ reload ∷ [])
after_save (rejected _) n s = (s, notify (Notice.error (lit "保存失败")) ∷ [])

abbrev save_call : Engine → Channel → List Json → Effect
save_call e channel payload = call (
    update_channel channel.id
      (object ((lit "models", str (e.stringify (arr (to_elems payload)))) ∷ [])))

abbrev pub save_payload :
    Option (List Json) → Engine → Channel → Reply → Dialog → Dialog × List Effect
save_payload none e channel reply s =
    (record s { saving = false }, notify (Notice.error (lit "保存失败")) ∷ [])
save_payload (some payload) e channel reply s =
    let done = after_save reply (length (saved_ids s)) (record s { saving = false }) in
    (done.0, save_call e channel payload ∷ done.1)

abbrev pub save_for : Option Channel → Engine → Reply → Dialog → Dialog × List Effect
save_for none e reply s = (s, [])
save_for (some channel) e reply s = save_payload (models_payload e s) e channel reply s

-- `handleSaveModels`, with the server's reply to its request. `savingModels` is true while the
-- reply is awaited, and false at the end of every branch that reaches the `try`.
unfoldable pub handle_save_models : Engine → Reply → Dialog → Dialog × List Effect
handle_save_models e reply s = save_for s.managing e reply s
