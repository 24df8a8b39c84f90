-- ===== src/Prices/Editing.antt =====
-- The form of the prices: `handleOpen`, `handleSubmit` and `handleDeleteModel`.
use any_gateway.Base.{
  ℕ, zero, suc, Bool, true, false, not, Option, none, some, List, [], ◌∷◌, ◌++◌, map, any, keep,
  length, leb, if◌then◌else◌,
}
use any_gateway.Base.Text.{Text, lit, is_empty, text_eq}
use any_gateway.Base.Dict.{Dict, has, get}
use any_gateway.Base.Double.{is_truthy, is_positive}
use any_gateway.Json.{Json, str, num}
use any_gateway.Api.{
  Call, Notice, Effect, call, notify, reload, object, create_price, update_price, delete_price,
}
use any_gateway.Prices.{PriceRow, ModelGroup, token_units}

-- `PriceMode`
pub data PriceMode : Type 0 where
  token request audio_second character : PriceMode

-- `MODE_UNITS`
abbrev pub mode_units : PriceMode → List Text
mode_units token = token_units
mode_units request = lit "request" ∷ []
mode_units audio_second = lit "audio_second" ∷ []
mode_units character = lit "character" ∷ []

abbrev pub all_mode_units : List Text
all_mode_units =
    mode_units token ++ mode_units request ++ mode_units audio_second ++ mode_units character

-- The values of the form.
pub record Values : Type 0 where
  pub model_name : Text
  pub vendor : Option Text
  pub context_length : Option ℕ
  pub stability : Option Text
  pub input_price : Option ℕ
  pub output_price : Option ℕ
  pub cache_read_price : Option ℕ
  pub cache_write_price : Option ℕ
  pub extra_context_price : Option ℕ
  pub request_price : Option ℕ
  pub audio_price : Option ℕ
  pub char_price : Option ℕ

-- The state hooks of the form.
pub record Form : Type 0 where
  pub visible : Bool
  pub editing : Option ModelGroup
  pub mode : PriceMode
  pub shown : Option Values

abbrev pub has_unit : List PriceRow → Text → Bool
has_unit rows u = any (λ (r : PriceRow). text_eq r.unit u) rows

-- the mode of the rows that are there
unfoldable pub infer_mode : List PriceRow → PriceMode
infer_mode rows =
    if has_unit rows (lit "request")
    then request
    else if has_unit rows (lit "audio_second")
    then audio_second
    else if has_unit rows (lit "character")
    then character
    else token

abbrev filled : Option Text → Option Text
filled none = none
filled (some t) = if is_empty t then none else some t

abbrev nonzero : Option ℕ → Option ℕ
nonzero none = none
nonzero (some n) = if is_truthy n then some n else none

abbrev values_of : ModelGroup → Values
values_of g = record {
  model_name = g.model_name;
  vendor = filled g.vendor;
  context_length = nonzero g.context_length;
  stability = filled g.stability;
  input_price = get (lit "input_token") g.prices;
  output_price = get (lit "output_token") g.prices;
  cache_read_price = get (lit "cache_read_token") g.prices;
  cache_write_price = get (lit "cache_write_token") g.prices;
  extra_context_price = get (lit "extra_context_token") g.prices;
  request_price = get (lit "request") g.prices;
  audio_price = get (lit "audio_second") g.prices;
  char_price = get (lit "character") g.prices;
}

-- `handleOpen`; `shown` is none where the fields are reset.
unfoldable pub handle_open : Option ModelGroup → Form → Form
handle_open none s = record { visible = true; editing = none; mode = token; shown = none }
handle_open (some g) s = record {
  visible = true;
  editing = some g;
  mode = infer_mode g.rows;
  shown = some (values_of g);
}

-- `meta`
pub record Meta : Type 0 where
  pub context_length : Option ℕ
  pub vendor : Option Text
  pub stability : Option Text

abbrev pub meta_of : Values → Meta
meta_of v = record {
  context_length = nonzero v.context_length;
  vendor = filled v.vendor;
  stability = filled v.stability;
}

-- `modePrices[priceMode]`
abbrev pub mode_prices : PriceMode → Values → List (Text × Option ℕ)
mode_prices token v =
    (lit "input_token", v.input_price)
    ∷ (lit "output_token", v.output_price)
    ∷ (lit "cache_read_token", v.cache_read_price)
    ∷ (lit "cache_write_token", v.cache_write_price)
    ∷ (lit "extra_context_token", v.extra_context_price)
    ∷ []
mode_prices request v = (lit "request", v.request_price) ∷ []
mode_prices audio_second v = (lit "audio_second", v.audio_price) ∷ []
mode_prices character v = (lit "character", v.char_price) ∷ []

-- What a submit asks of the server, in its order.
pub data Op : Type 0 where
  remove : (id : Text) → Op
  set : (id : Text) (price : ℕ) → Meta → Op
  create : (model unit : Text) (price : ℕ) → Meta → Op

-- `staleUnits`
unfoldable pub stale_units : PriceMode → List Text
stale_units mode = keep (λ u. not (has (mode_units mode) u)) all_mode_units

-- the loop that deletes
unfoldable pub removals : PriceMode → List PriceRow → List Op
removals mode [] = []
removals mode (r ∷ rs) =
    (if has (stale_units mode) r.unit then remove r.id ∷ [] else []) ++ removals mode rs

-- `rowsByUnit.get(unit)`: of several rows with the unit the last one
unfoldable pub row_by_unit : Text → List PriceRow → Option PriceRow
row_by_unit u [] = none
row_by_unit u (r ∷ rs) = elim (row_by_unit u rs) [
  | some q ↦ some q
  | none ↦ if text_eq r.unit u then some r else none
]

abbrev pub create_if : Text → Text → Option ℕ → Meta → List Op
create_if model u none meta = []
create_if model u (some p) meta = if is_positive p then create model u p meta ∷ [] else []

abbrev or_price : Option ℕ → ℕ → ℕ
or_price none p = p
or_price (some q) p = q

-- one round of the loop that updates and creates
abbrev pub price_ops : Option PriceRow → Text → Text → Option ℕ → Meta → List Op
price_ops (some r) model u price meta = set r.id (or_price price r.price_per_unit) meta ∷ []
price_ops none model u price meta = create_if model u price meta

unfoldable pub updates : List (Text × Option ℕ) → Text → List PriceRow → Meta → List Op
updates [] model rows meta = []
updates ((u, price) ∷ ps) model rows meta =
    price_ops (row_by_unit u rows) model u price meta ++ updates ps model rows meta

-- The requests of an edit, in order.
unfoldable pub edit_ops : PriceMode → Values → ModelGroup → List Op
edit_ops mode v g =
    removals mode g.rows ++ updates (mode_prices mode v) g.model_name g.rows (meta_of v)

unfoldable pub creations : List (Text × Option ℕ) → Text → Meta → List Op
creations [] model meta = []
creations ((u, price) ∷ ps) model meta = create_if model u price meta ++ creations ps model meta

-- The requests of a creation.
unfoldable pub create_ops : PriceMode → Values → List Op
create_ops mode v = creations (mode_prices mode v) v.model_name (meta_of v)

abbrev pub text_field : Text → Option Text → Dict Json
text_field k none = []
text_field k (some t) = (k, str t) ∷ []

abbrev pub number_field : Text → Option ℕ → Dict Json
number_field k none = []
number_field k (some n) = (k, num n) ∷ []

abbrev pub meta_fields : Meta → Dict Json
meta_fields m =
    number_field (lit "context_length") m.context_length
    ++ text_field (lit "vendor") m.vendor
    ++ text_field (lit "stability") m.stability

unfoldable pub call_of : Op → Call
call_of (remove id) = delete_price id
call_of (set id price meta) =
    update_price id (object ((lit "price_per_unit", num price) ∷ meta_fields meta))
call_of (create model u price meta) = create_price (
    object (
      (lit "model_name", str model)
      ∷ (lit "unit", str u)
      ∷ (lit "price_per_unit", num price)
      ∷ meta_fields meta))

-- Requests one after the other, of which the first `n` succeed: what is called, until one fails.
unfoldable pub called : ℕ → List Op → List Effect
called n [] = []
called zero (o ∷ os) = call (call_of o) ∷ []
called (suc n) (o ∷ os) = call (call_of o) ∷ called n os

-- `Promise.all`: all are called at once
unfoldable pub all_called : List Op → List Effect
all_called [] = []
all_called (o ∷ os) = call (call_of o) ∷ all_called os

abbrev closed_with : Text → Form → Form × List Effect
closed_with message s =
    (record s { visible = false }, notify (Notice.success message) ∷ reload ∷ [])

abbrev refused : Form → Form × List Effect
refused s = (s, notify (Notice.error (lit "操作失败")) ∷ [])

abbrev behind : List Effect → Form × List Effect → Form × List Effect
behind es (s, more) = (s, es ++ more)

abbrev submit_edit : ℕ → List Op → Form → Form × List Effect
submit_edit n ops s =
    behind (called n ops) (if leb (length ops) n then closed_with (lit "已更新") s else refused s)

abbrev submit_create : ℕ → List Op → Form → Form × List Effect
submit_create n [] s = (s, notify (Notice.warning (lit "请至少填写一项单价")) ∷ [])
submit_create n (o ∷ os) s =
    behind (all_called (o ∷ os))
      (if leb (length (o ∷ os)) n then closed_with (lit "已创建") s else refused s)

-- `handleSubmit`; the first argument says how many of its requests succeed.
unfoldable pub handle_submit : ℕ → Values → Form → Form × List Effect
handle_submit n v s = elim s.editing [
  | some g ↦ submit_edit n (edit_ops s.mode v g) s
  | none ↦ submit_create n (create_ops s.mode v) s
]

-- `handleDeleteModel`; the first argument says whether all of its requests succeed.
unfoldable pub handle_delete_model : Bool → ModelGroup → List Effect
handle_delete_model ok g =
    all_called (map (λ (r : PriceRow). remove r.id) g.rows)
    ++ (if ok
        then notify (Notice.success (lit "已删除")) ∷ reload ∷ []
        else notify (Notice.error (lit "删除失败")) ∷ [])
