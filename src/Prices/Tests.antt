-- ===== src/Prices/Tests.antt =====
-- Runs of the prices.
use any_gateway.Base.{◌≡◌, refl, true, false, ◌⊎◌, leb, length, none, some, List, [], ◌∷◌, map, All}
use any_gateway.Base.Text.{Text, lit, text_eq}
use any_gateway.Base.Dict.{has, get, put, Distinct}
use any_gateway.Base.Sort.{sort_by, text_le, insert_by}
use any_gateway.Base.Double.{is_positive, is_truthy}
use any_gateway.Api.{requests}
use any_gateway.Prices.{PriceRow, ModelGroup, group_by_model, collect, add_row, name_of, new_group}
use any_gateway.Prices.Groups.{IsGroup, group_by_model-IsGroup}
use any_gateway.Prices.Editing.{
  request, Values, Form, edit_ops, handle_submit, infer_mode, stale_units, removals, row_by_unit,
  updates, called, call_of,
}
use any_gateway.Prices.Submit.{IsBilledBy, received, handle_submit-IsBilledBy}
use any_gateway.Prices.Billing.{all_served, infer_mode-edit_ops}

abbrev row : Text → Text → PriceRow
row id u = record {
  id = id;
  model_name = lit "gpt";
  unit = u;
  price_per_unit = 1;
  context_length = none;
  vendor = none;
  stability = none;
}

abbrev rows : List PriceRow
rows = row (lit "1") (lit "input_token") ∷ row (lit "2") (lit "output_token") ∷ []

abbrev group : ModelGroup
group = record (new_group (lit "gpt")) { rows = rows }

-- The model is changed to a price per request.
abbrev values : Values
values = record {
  model_name = lit "gpt";
  vendor = none;
  context_length = none;
  stability = none;
  input_price = none;
  output_price = none;
  cache_read_price = none;
  cache_write_price = none;
  extra_context_price = none;
  request_price = some 0x3FF0000000000000;
  audio_price = none;
  char_price = none;
}

abbrev form : Form
form = record { visible = true; editing = some group; mode = request; shown = none }

runs : Unit {0}
unfolding lit text_eq has get put sort_by text_le insert_by is_positive is_truthy group_by_model
    collect add_row edit_ops handle_submit infer_mode stale_units removals row_by_unit updates
    called call_of
runs = tt

group_by_model-IsGroup_example :
    All (IsGroup rows) (group_by_model text_le rows)
    × Distinct (map name_of (group_by_model text_le rows))
    × (has (map name_of (group_by_model text_le rows)) (lit "gpt") ≡ true)
unfolding runs
group_by_model-IsGroup_example = group_by_model-IsGroup text_le rows (lit "gpt")

infer_mode-edit_ops_example : infer_mode (all_served (edit_ops request values group) rows) ≡ request
unfolding runs
infer_mode-edit_ops_example = infer_mode-edit_ops request values group refl

handle_submit-IsBilledBy_example :
    (((handle_submit 3 values form).0.visible ≡ false)
      × (leb (length (requests (handle_submit 3 values form).1)) 3 ≡ true)
      × All (IsBilledBy request) (received (requests (handle_submit 3 values form).1) rows))
    ⊎ ((handle_submit 3 values form).0.visible ≡ true)
      × (length (requests (handle_submit 3 values form).1) ≡ 4)
handle_submit-IsBilledBy_example = handle_submit-IsBilledBy 3 values form group refl refl
