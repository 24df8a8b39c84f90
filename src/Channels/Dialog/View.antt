-- ===== src/Channels/Dialog/View.antt =====
-- What the dialog "manage models" displays: the line above the list, the buttons and the rows of
-- the models, of apps/react/src/pages/Channels/index.tsx.
pub mod Ticked
use any_gateway.Base.{
  ℕ, Bool, true, false, not, ◌&&◌, ◌==◌, ◌+◌, Option, none, some, List, [], ◌∷◌, ◌++◌, map, length,
  if◌then◌else◌,
}
use any_gateway.Base.Text.{Text, lit, decimal}
use any_gateway.Base.Dict.{has, get}
use any_gateway.Json.{Engine}
use any_gateway.Channels.{Channel, parse_mapping_keys}
use any_gateway.Channels.Dialog.{
  Dialog, Pending, upstream_list, custom_ids, visible_custom, visible_upstream, start_load,
}

-- The tag behind a model's name.
pub data Badge : Type 0 where
  mapped manual plain : Badge

-- The box for speech, with the count of the voices where it is ticked.
pub record Speech : Type 0 where
  pub ticked : Bool
  pub voices : ℕ

pub record Row : Type 0 where
  pub id : Text
  pub ticked : Bool
  pub badge : Badge
  pub speech : Option Speech

-- `mappingKeySet`
unfoldable pub mapping_key_set : Engine → Option Channel → List Text
mapping_key_set e none = parse_mapping_keys e none
mapping_key_set e (some c) = parse_mapping_keys e c.model_mapping

abbrev badge_of : Bool → Bool → Badge
badge_of is_mapped is_custom = if is_mapped then mapped else if is_custom then manual else plain

-- `id in modelVoices` and the count of the voices
abbrev speech_of : Text → Dialog → Speech
speech_of id s = elim (get id s.model_voices) [
  | none ↦ record { ticked = false; voices = 0 }
  | some vs ↦ record { ticked = true; voices = length vs }
]

abbrev pub row_of : Engine → Dialog → Text → Row
row_of e s id = record {
  id = id;
  ticked = has s.selected id;
  badge = badge_of (has (mapping_key_set e s.managing) id) (has (custom_ids s) id);
  speech = if has s.selected id then some (speech_of id s) else none;
}

abbrev pub visible : Dialog → List Text
visible s = visible_custom s ++ visible_upstream s

unfoldable pub rows : Engine → Dialog → List Row
rows e s = map (row_of e s) (visible s)

-- The list: it spins, it says that it is empty, or it has rows.
pub data Listing : Type 0 where
  spinning : Listing
  empty : Text → Listing
  listed : List Row → Listing

abbrev is_nil : List Text → Bool
is_nil [] = true
is_nil (k ∷ ks) = false

abbrev is_none : Option (List Text) → Bool
is_none none = true
is_none (some ks) = false

unfoldable pub listing : Engine → Dialog → Listing
listing e s =
    if is_none s.upstream_ids && s.loading_upstream
    then spinning
    else if length (visible_custom s) + length (visible_upstream s) == 0
    then empty (
        if is_nil (upstream_list s) && is_nil (custom_ids s)
        then lit "上游无候选，可在上方手动添加模型名"
        else lit "无匹配模型")
    else listed (rows e s)

-- the line above the list
unfoldable pub status_line : Dialog → Text
status_line s = elim s.upstream_ids [
  | none ↦ lit "正在从上游获取候选…"
  | some ids ↦
      lit "上游候选 "
      ++ decimal (length ids)
      ++ lit " · 显示 "
      ++ decimal (length (visible_custom s) + length (visible_upstream s))
      ++ lit " · 已选 "
      ++ decimal (length s.selected)
]

-- The button that selects all that is visible is disabled where nothing is.
abbrev pub may_select_all : Dialog → Bool
may_select_all s = not (length (visible_custom s) + length (visible_upstream s) == 0)

abbrev pub may_clear : Dialog → Bool
may_clear s = not (is_nil s.selected)

-- the button that clears the selection
unfoldable pub clear_selected : Dialog → Dialog
clear_selected s = record s { selected = [] }

-- the button that asks the upstream once more
unfoldable pub refresh : Dialog → Dialog × Option Pending
refresh s = elim s.managing [ none ↦ (s, none) | some c ↦ start_load c.id true s ]

abbrev pub voices_tag : ℕ → Text
voices_tag n = if n == 0 then lit "未配音色" else lit "音色 ×" ++ decimal n
