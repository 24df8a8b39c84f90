-- ===== src/Prices.antt =====
-- The prices of models: apps/react/src/pages/Prices/index.tsx. A price and a context length are the
-- patterns of numbers. `localeCompare` is a parameter, the test that a name may stand before
-- another.
pub mod Cells
pub mod Groups
pub mod Editing
pub mod Billing
pub mod Submit
mod Tests
use any_gateway.Base.{
  ℕ, Bool, true, false, not, ◌&&◌, Option, none, some, List, [], ◌∷◌, ◌++◌, map, any, keep,
  if◌then◌else◌,
}
use any_gateway.Base.Text.{Text, lit, is_empty, text_eq, to_lower, includes}
use any_gateway.Base.Dict.{Dict, has, get, put, values, add, add_all, keys}
use any_gateway.Base.Sort.{sort_by, text_le}
use any_gateway.Base.Double.{is_truthy}
use any_gateway.Json.{Json, str, Engine, truthy, member, to_text}
use any_gateway.Api.{Fetched, list, no_list, failed, Notice, Effect, notify}
use any_gateway.Channels.{Channel, or_default, elements, entries_or_none}

-- `PriceRow`
pub record PriceRow : Type 0 where
  pub id : Text
  pub model_name : Text
  pub unit : Text
  pub price_per_unit : ℕ
  pub context_length : Option ℕ
  pub vendor : Option Text
  pub stability : Option Text

-- `ModelGroup`; `prices` has its members that are named for units.
pub record ModelGroup : Type 0 where
  pub model_name : Text
  pub vendor : Option Text
  pub context_length : Option ℕ
  pub stability : Option Text
  pub prices : Dict ℕ
  pub rows : List PriceRow

abbrev pub token_units : List Text
token_units =
    lit "input_token"
    ∷ lit "output_token"
    ∷ lit "cache_read_token"
    ∷ lit "cache_write_token"
    ∷ lit "extra_context_token"
    ∷ []

abbrev pub known_units : List Text
known_units = token_units ++ lit "request" ∷ lit "audio_second" ∷ lit "character" ∷ []

abbrev pub new_group : Text → ModelGroup
new_group name = record {
  model_name = name;
  vendor = none;
  context_length = none;
  stability = none;
  prices = [];
  rows = [];
}

abbrev text_or : Option Text → Option Text → Option Text
text_or none old = old
text_or (some t) old = if is_empty t then old else some t

abbrev number_or : Option ℕ → Option ℕ → Option ℕ
number_or none old = old
number_or (some n) old = if is_truthy n then some n else old

-- one round of the loop, on the row's group
unfoldable pub add_row : PriceRow → ModelGroup → ModelGroup
add_row row g = record {
  model_name = g.model_name;
  vendor = text_or row.vendor g.vendor;
  context_length = number_or row.context_length g.context_length;
  stability = text_or row.stability g.stability;
  prices = if has known_units row.unit then put row.unit row.price_per_unit g.prices else g.prices;
  rows = g.rows ++ row ∷ [];
}

abbrev pub or_new : Text → Option ModelGroup → ModelGroup
or_new name none = new_group name
or_new name (some g) = g

-- The loop of `groupByModel`.
unfoldable pub collect : List PriceRow → Dict ModelGroup → Dict ModelGroup
collect [] d = d
collect (row ∷ rows) d =
    collect rows (put row.model_name (add_row row (or_new row.model_name (get row.model_name d))) d)

abbrev pub name_of : ModelGroup → Text
name_of g = g.model_name

module _ (before : Text → Text → Bool) where
  abbrev pub by_name : ModelGroup → ModelGroup → Bool
  by_name a b = before a.model_name b.model_name

  -- `groupByModel`
  unfoldable pub group_by_model : List PriceRow → List ModelGroup
  group_by_model rows = sort_by by_name (values (collect rows []))

  -- `filtered`
  unfoldable pub filtered : Text → List PriceRow → List ModelGroup
  filtered search rows =
      if is_empty search
      then group_by_model rows
      else keep (λ g. includes (to_lower search) (to_lower g.model_name)) (group_by_model rows)

-- The state hooks of the page's table.
pub record Table : Type 0 where
  pub rows : List PriceRow
  pub loading : Bool

-- `fetchData` behind its `await`
unfoldable pub fetch_data : Fetched PriceRow → Table → Table × List Effect
fetch_data (list rows) t = (record { rows = rows; loading = false }, [])
fetch_data no_list t = (record { rows = []; loading = false }, [])
fetch_data failed t = (record t { loading = false }, notify (Notice.error (lit "加载失败")) ∷ [])

module _ (e : Engine) where
  abbrev add_id : Option Json → List Text → List Text
  add_id none names = names
  add_id (some id) names = if truthy id then add (to_text e id) names else names

  -- one element of a channel's `models`
  unfoldable pub add_model : Json → List Text → List Text
  add_model (str m) names = add m names
  add_model m names = add_id (member (lit "id") m) names

  unfoldable pub add_models : List Json → List Text → List Text
  add_models [] names = names
  add_models (m ∷ ms) names = add_models ms (add_model m names)

  -- one channel
  unfoldable pub add_channel : Channel → List Text → List Text
  add_channel ch names =
      add_all (keys (entries_or_none (e.parse (or_default ch.model_mapping (lit "{}")))))
        (add_models (elements (e.parse (or_default ch.models (lit "[]")))) names)

  unfoldable pub add_channels : List Channel → List Text → List Text
  add_channels [] names = names
  add_channels (ch ∷ chs) names = add_channels chs (add_channel ch names)

  -- `modelOptions` behind the request for the channels
  unfoldable pub model_options : List Channel → List Text
  model_options chs = sort_by text_le (add_channels chs [])
