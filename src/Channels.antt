-- ===== src/Channels.antt =====
-- Channels and the JSON texts in them: the module-level functions of
-- apps/react/src/pages/Channels/index.tsx and the interfaces of apps/react/src/api/channels.ts.
pub mod Dialog
pub mod Drawer
use any_gateway.Base.{
  ℕ, Bool, true, false, not, ◌&&◌, ◌||◌, Option, none, some, List, [], ◌∷◌, ◌++◌, map, length,
  if◌then◌else◌, keep,
}
use any_gateway.Base.Text.{Text, lit, is_empty}
use any_gateway.Base.Dict.{Dict, get, put, keys, unique, add_all}
use any_gateway.Json.{
  Json, str, obj, arr, Engine, elems, fields, member, present, string_of, array_of, to_text,
  iterate, entries_of,
}
use any_gateway.Toml.{VoiceEntry}
use any_gateway.Api.{object}

-- `Channel`; a weight is the pattern of a number.
pub record Channel : Type 0 where
  pub id : Text
  pub name : Text
  pub provider : Text
  pub base_url : Text
  pub api_key : Text
  pub weight : ℕ
  pub enabled : Bool
  pub models : Option Text
  pub model_mapping : Option Text
  pub proxy_url : Option Text
  pub disable_ssl : Bool
  pub disable_compression : Bool
  pub protocol : Option Text
  pub ws_path : Option Text
  pub ws_subprotocols : Option Text
  pub created_at : Text

-- `Mapping`; `to` is what stands in the parsed object, a text only by assertion (`to as string`).
pub record Mapping : Type 0 where
  pub from : Text
  pub to : Json

-- `s || d`
abbrev pub or_default : Option Text → Text → Text
or_default none d = d
or_default (some s) d = if is_empty s then d else s

abbrev pub entries_or_none : Option Json → Dict Json
entries_or_none none = []
entries_or_none (some v) = elim (entries_of v) [ none ↦ [] | some d ↦ d ]

abbrev pub to_mappings : Dict Json → List Mapping
to_mappings [] = []
to_mappings ((k, v) ∷ d) = record { from = k; to = v } ∷ to_mappings d

abbrev pub elements : Option Json → List Json
elements none = []
elements (some v) = elim (iterate v) [ none ↦ [] | some vs ↦ vs ]

module _ (e : Engine) where
  -- `parseMappingKeys`
  unfoldable pub parse_mapping_keys : Option Text → List Text
  parse_mapping_keys mapping = keys (entries_or_none (e.parse (or_default mapping (lit "{}"))))

  -- `parseMappings`
  unfoldable pub parse_mappings : Option Text → List Mapping
  parse_mappings mapping = to_mappings (entries_or_none (e.parse (or_default mapping (lit "{}"))))

  abbrev pub id_or : Option Json → Json → Text
  id_or none m = to_text e m
  id_or (some id) m = to_text e id

  -- The identifier of an element of `models`, an object with a member `id` or any other value.
  unfoldable pub model_id : Json → Text
  model_id (obj fs) = id_or (get (lit "id") (fields fs)) (obj fs)
  model_id m = to_text e m

  -- `parseModelIds`: the keys of the mapping, then the identifiers of `models`, each once
  unfoldable pub parse_model_ids : Option Text → Option Text → List Text
  unfolding parse_mapping_keys
  parse_model_ids models mapping =
      add_all (map model_id (elements (e.parse (or_default models (lit "[]")))))
        (unique (parse_mapping_keys mapping))

  -- `parseModelsCount`
  unfoldable pub parse_models_count : Option Text → Option Text → ℕ
  unfolding parse_model_ids
  parse_models_count models mapping = length (parse_model_ids models mapping)

  -- `String(a ?? b ?? '')`
  abbrev pub text_or_empty : Option Json → Option Json → Text
  text_or_empty a b = elim (present a) [
    | some v ↦ to_text e v
    | none ↦ elim (present b) [ none ↦ [] | some v ↦ to_text e v ]
  ]

  abbrev stored_url : Option Json → Option Text
  stored_url v = elim (string_of v) [ none ↦ none | some u ↦ if is_empty u then none else some u ]

  -- One element of `voices`; `none`: reading a member of `null` throws.
  unfoldable pub parse_voice : Json → Option VoiceEntry
  parse_voice (str v) = some (record { voice = v; info = []; trial_url = none })
  parse_voice Json.null = none
  parse_voice o = some (record {
    voice = text_or_empty (member (lit "voice") o) none;
    info = text_or_empty (member (lit "info") o) (member (lit "desc") o);
    trial_url = stored_url (member (lit "trial_url") o);
  })

  abbrev cons_voice : Option VoiceEntry → Option (List VoiceEntry) → Option (List VoiceEntry)
  cons_voice none r = none
  cons_voice (some v) none = none
  cons_voice (some v) (some vs) = some (if is_empty v.voice then vs else v ∷ vs)

  -- `.map(…).filter((v) => v.voice)`
  unfoldable pub parse_voice_list : List Json → Option (List VoiceEntry)
  parse_voice_list [] = some []
  parse_voice_list (v ∷ vs) = cons_voice (parse_voice v) (parse_voice_list vs)

  -- The identifier under which an entry's voices are kept.
  abbrev pub entry_name : Json → Text
  entry_name m = text_or_empty (member (lit "id") m) (member (lit "name") m)

  abbrev put_voices :
      Text → Option (List VoiceEntry) → Dict (List VoiceEntry) → Option (Dict (List VoiceEntry))
  put_voices id none d = none
  put_voices id (some vs) d = some (put id vs d)

  unfoldable pub store_voices :
      Option (List Json) → Text → Dict (List VoiceEntry) → Option (Dict (List VoiceEntry))
  store_voices none name d = some d
  store_voices (some vs) name d =
      if is_empty name then some d else put_voices name (parse_voice_list vs) d

  -- One round of the loop of `parseModelsDetail`.
  unfoldable pub detail_entry : Json → Dict (List VoiceEntry) → Option (Dict (List VoiceEntry))
  detail_entry m d = store_voices (array_of (member (lit "voices") m)) (entry_name m) d

  unfoldable pub detail_voices :
      List Json → Dict (List VoiceEntry) → Option (Dict (List VoiceEntry))
  detail_voices [] d = some d
  detail_voices (m ∷ ms) d = elim (detail_entry m d) [ none ↦ none | some d' ↦ detail_voices ms d' ]

  abbrev array_or_empty : Option (List Json) → List Json
  array_or_empty none = []
  array_or_empty (some vs) = vs

  -- `parseModelsDetail(models).entries`
  unfoldable pub detail_entries : Option Text → List Json
  detail_entries models = array_or_empty (array_of (e.parse (or_default models (lit "[]"))))

  -- `entries` and `voices` of `parseModelsDetail`; `none` where it throws
  unfoldable pub parse_models_detail : Option Text → Option (List Json × Dict (List VoiceEntry))
  unfolding detail_entries detail_voices
  parse_models_detail models = elim (detail_voices (detail_entries models) []) [
    | none ↦ none
    | some d ↦ some (detail_entries models, d)
  ]

-- `toStorageVoice`
unfoldable pub to_storage_voice : VoiceEntry → Json
to_storage_voice v = object (
    (lit "voice", str v.voice)
    ∷ ((if is_empty v.info then [] else (lit "info", str v.info) ∷ []) ++ (elim v.trial_url [
      | none ↦ []
      | some u ↦ if is_empty u then [] else (lit "trial_url", str u) ∷ []
    ])))
