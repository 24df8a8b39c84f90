-- ===== src/Pricing/Tests.antt =====
-- Runs of the public list of prices.
use any_gateway.Base.{◌≡◌, false, Option, none, some, List, [], ◌∷◌, map}
use any_gateway.Base.Text.{Text, lit, text_eq, includes, starts_with, to_lower}
use any_gateway.Base.Dict.{has, get, put}
use any_gateway.Base.Sort.{sort_by, insert_by, text_le}
use any_gateway.Pricing.{
  PriceRow, classify_vendor, add_row, collect, by_vendor, sort_groups, build_models, sorted_vendors,
  listing, displayed,
}
use any_gateway.Pricing.Listing.{name_of, displayed-listed}

abbrev row : Text → Option Text → PriceRow
row name vendor = record {
  model_name = name;
  unit = lit "input_token";
  price_per_unit = 1;
  context_length = none;
  vendor = vendor;
  stability = none;
}

abbrev rows : List PriceRow
rows = row (lit "gpt-4o") none ∷ row (lit "mistral-large") (some (lit "Mistral")) ∷ []

runs : Unit {0}
unfolding lit text_eq includes starts_with to_lower has get put sort_by insert_by text_le
    classify_vendor add_row collect by_vendor sort_groups build_models sorted_vendors listing
    displayed
runs = tt

displayed-listed_example :
    has (map name_of (displayed (build_models text_le rows))) (lit "mistral-large") ≡ false
unfolding runs
displayed-listed_example = displayed-listed text_le rows (lit "mistral-large")
