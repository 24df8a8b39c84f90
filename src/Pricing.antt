-- ===== src/Pricing.antt =====
-- apps/react/src/pages/Pricing/public.tsx: the public list of prices, by model and vendor.
pub mod Cells
pub mod Listing
mod Tests
use any_gateway.Base.{
  ℕ, Bool, true, false, not, ◌||◌, Option, none, some, List, [], ◌∷◌, ◌++◌, keep, if◌then◌else◌,
}
use any_gateway.Base.Text.{Text, lit, is_empty, includes, to_lower}
use any_gateway.Base.Dict.{Dict, has, get, put, values}
use any_gateway.Base.Double.{is_truthy}
use any_gateway.Base.Sort.{sort_by}
use any_gateway.Api.{Fetched, list, no_list, failed}

-- `PriceRow`
pub record PriceRow : Type 0 where
  pub model_name : Text
  pub unit : Text
  pub price_per_unit : ℕ
  pub context_length : Option ℕ
  pub vendor : Option Text
  pub stability : Option Text

-- `ModelEntry`; `prices` has its members that are named for units.
pub record ModelEntry : Type 0 where
  pub model_name : Text
  pub vendor : Text
  pub context_length : Option ℕ
  pub stability : Option Text
  pub prices : Dict ℕ

abbrev guessed : Text → Text
guessed name =
    if includes (lit "deepseek") name
    then lit "DeepSeek"
    else if includes (lit "claude") name
    then lit "Anthropic"
    else if includes (lit "gpt") name
        || includes (lit "o1") name
        || includes (lit "o3") name
        || includes (lit "o4") name
    then lit "OpenAI"
    else if includes (lit "gemini") name
    then lit "Google"
    else if includes (lit "qwen") name
    then lit "Alibaba"
    else if includes (lit "glm") name || includes (lit "chatglm") name
    then lit "Zhipu AI"
    else if includes (lit "doubao") name || includes (lit "skylark") name
    then lit "Volcengine"
    else lit "Other"

abbrev vendor_or : Option Text → Text → Text
vendor_or none d = d
vendor_or (some v) d = if is_empty v then d else v

-- `classifyVendor`
unfoldable pub classify_vendor : PriceRow → Text
classify_vendor r = vendor_or r.vendor (guessed (to_lower r.model_name))

abbrev pub units : List Text
units =
    lit "input_token"
    ∷ lit "output_token"
    ∷ lit "cache_read_token"
    ∷ lit "cache_write_token"
    ∷ lit "request"
    ∷ lit "audio_second"
    ∷ lit "character"
    ∷ []

abbrev length_or : Option ℕ → Option ℕ → Option ℕ
length_or none old = old
length_or (some n) old = if is_truthy n then some n else old

abbrev stability_or : Option Text → Option Text → Option Text
stability_or none old = old
stability_or (some t) old = if is_empty t then old else some t

-- what a row sets in its entry
unfoldable pub add_row : PriceRow → ModelEntry → ModelEntry
add_row r m = record {
  model_name = m.model_name;
  vendor = m.vendor;
  context_length = length_or r.context_length m.context_length;
  stability = stability_or r.stability m.stability;
  prices = if has units r.unit then put r.unit r.price_per_unit m.prices else m.prices;
}

abbrev pub or_new : PriceRow → Option ModelEntry → ModelEntry
or_new r none = record {
  model_name = r.model_name;
  vendor = classify_vendor r;
  context_length = none;
  stability = none;
  prices = [];
}
or_new r (some m) = m

-- The loop over the rows.
unfoldable pub collect : List PriceRow → Dict ModelEntry → Dict ModelEntry
collect [] d = d
collect (r ∷ rs) d = collect rs (put r.model_name (add_row r (or_new r (get r.model_name d))) d)

abbrev pub or_empty : Option (List ModelEntry) → List ModelEntry
or_empty none = []
or_empty (some ms) = ms

-- The loop over the entries.
unfoldable pub by_vendor : List ModelEntry → Dict (List ModelEntry) → Dict (List ModelEntry)
by_vendor [] g = g
by_vendor (m ∷ ms) g = by_vendor ms (put m.vendor (or_empty (get m.vendor g) ++ m ∷ []) g)

-- `vendorOrder`
abbrev pub vendor_order : List Text
vendor_order =
    lit "DeepSeek"
    ∷ lit "Anthropic"
    ∷ lit "OpenAI"
    ∷ lit "Google"
    ∷ lit "Alibaba"
    ∷ lit "Volcengine"
    ∷ lit "Zhipu AI"
    ∷ lit "Other"
    ∷ []

abbrev pub is_filled : Option (List ModelEntry) → Bool
is_filled (some (m ∷ ms)) = true
is_filled _ = false

abbrev pub has_models : Dict (List ModelEntry) → Text → Bool
has_models g v = is_filled (get v g)

-- `sortedVendors`
unfoldable pub sorted_vendors : Dict (List ModelEntry) → List Text
sorted_vendors g = keep (has_models g) vendor_order

-- The entries of these vendors, in the order of the vendors.
unfoldable pub listing : List Text → Dict (List ModelEntry) → List ModelEntry
listing [] g = []
listing (v ∷ vs) g = or_empty (get v g) ++ listing vs g

-- The rows of the tables, from the first to the last.
unfoldable pub displayed : Dict (List ModelEntry) → List ModelEntry
displayed g = listing (sorted_vendors g) g

-- The state hooks.
pub record Page : Type 0 where
  pub groups : Dict (List ModelEntry)
  pub loading : Bool
  pub error : Bool

module _ (before : Text → Text → Bool) where
  abbrev pub by_name : ModelEntry → ModelEntry → Bool
  by_name a b = before a.model_name b.model_name

  unfoldable pub sort_groups : Dict (List ModelEntry) → Dict (List ModelEntry)
  sort_groups [] = []
  sort_groups ((v, ms) ∷ g) = (v, sort_by by_name ms) ∷ sort_groups g

  -- `buildModels`
  unfoldable pub build_models : List PriceRow → Dict (List ModelEntry)
  build_models rows = sort_groups (by_vendor (values (collect rows [])) [])

  -- The effect with its reply; a reply without rows is an empty list, and one that is no list at
  -- all throws.
  unfoldable pub load : Fetched PriceRow → Page → Page
  load (list rows) s = record { groups = build_models rows; loading = false; error = s.error }
  load no_list s = record s { loading = false; error = true }
  load failed s = record s { loading = false; error = true }
