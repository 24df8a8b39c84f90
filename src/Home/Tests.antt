-- ===== src/Home/Tests.antt =====
-- Runs of the home page.
use any_gateway.Base.{◌≡◌, List, [], ◌∷◌, map, none}
use any_gateway.Base.Text.{lit}
use any_gateway.Base.Sort.{text_le}
use any_gateway.Base.Values.{map_values}
use any_gateway.Pricing.{PriceRow}
use any_gateway.Pricing
use any_gateway.Home.{build_models, sorted_vendors}
use any_gateway.Home.Copy.{narrowed, build_models-public}

abbrev rows : List PriceRow
rows =
    record {
      model_name = lit "gpt-4o";
      unit = lit "request";
      price_per_unit = 1;
      context_length = none;
      vendor = none;
      stability = none;
    }
    ∷ []

build_models-public_example :
    (build_models text_le rows ≡ map_values (map narrowed) (Pricing.build_models text_le rows))
    × (sorted_vendors (build_models text_le rows)
        ≡ Pricing.sorted_vendors (Pricing.build_models text_le rows))
build_models-public_example = build_models-public text_le rows
