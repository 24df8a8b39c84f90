-- ===== src/Home.antt =====
-- apps/react/src/pages/Home: the table of models, which has its own copy of the grouping of
-- pages/Pricing/public.tsx, with three prices in place of seven. A row and an entry are those of
-- Pricing.
pub mod Copy
mod Tests
use any_gateway.Base.{
  ℕ, Bool, true, false, ◌||◌, Option, none, some, List, [], ◌∷◌, ◌++◌, keep, find?, if◌then◌else◌,
}
use any_gateway.Base.Text.{Text, lit, is_empty, includes, to_lower}
use any_gateway.Base.Dict.{Dict, has, get, put, values}
use any_gateway.Base.Double.{is_truthy, at_least, Numerals}
use any_gateway.Base.Sort.{sort_by}
use any_gateway.Api.{Fetched, list, no_list, failed}
use any_gateway.Pricing.{PriceRow, ModelEntry}

-- the guess by the name of the model
abbrev guessed : Text → Text
guessed name =
    if includes (lit "deepseek") name
    then lit "DeepSeek"
    else if includes (lit "claude") name
    then lit "Anthropic"
    else if includes (lit "gpt") name
        || includes (lit "o1") name
        || includes (lit "o3") name
        || includes (lit "o4") name
    then lit "OpenAI"
    else if includes (lit "gemini") name
    then lit "Google"
    else if includes (lit "qwen") name
    then lit "Alibaba"
    else if includes (lit "glm") name || includes (lit "chatglm") name
    then lit "Zhipu AI"
    else if includes (lit "doubao") name || includes (lit "skylark") name
    then lit "Volcengine"
    else lit "Other"

abbrev written_or : Option Text → Text → Text
written_or none d = d
written_or (some v) d = if is_empty v then d else v

-- `classifyVendor`
unfoldable pub classify_vendor : PriceRow → Text
classify_vendor r = written_or r.vendor (guessed (to_lower r.model_name))

abbrev pub units : List Text
units = lit "input_token" ∷ lit "output_token" ∷ lit "cache_read_token" ∷ []

abbrev length_or : Option ℕ → Option ℕ → Option ℕ
length_or none old = old
length_or (some n) old = if is_truthy n then some n else old

abbrev stability_or : Option Text → Option Text → Option Text
stability_or none old = old
stability_or (some t) old = if is_empty t then old else some t

-- what a row sets in its entry
unfoldable pub add_row : PriceRow → ModelEntry → ModelEntry
add_row r m = record {
  model_name = m.model_name;
  vendor = m.vendor;
  context_length = length_or r.context_length m.context_length;
  stability = stability_or r.stability m.stability;
  prices = if has units r.unit then put r.unit r.price_per_unit m.prices else m.prices;
}

abbrev pub or_new : PriceRow → Option ModelEntry → ModelEntry
or_new r none = record {
  model_name = r.model_name;
  vendor = classify_vendor r;
  context_length = none;
  stability = none;
  prices = [];
}
or_new r (some m) = m

-- The loop over the rows.
unfoldable pub collect : List PriceRow → Dict ModelEntry → Dict ModelEntry
collect [] d = d
collect (r ∷ rs) d = collect rs (put r.model_name (add_row r (or_new r (get r.model_name d))) d)

abbrev pub or_empty : Option (List ModelEntry) → List ModelEntry
or_empty none = []
or_empty (some ms) = ms

-- The loop over the entries.
unfoldable pub by_vendor : List ModelEntry → Dict (List ModelEntry) → Dict (List ModelEntry)
by_vendor [] g = g
by_vendor (m ∷ ms) g = by_vendor ms (put m.vendor (or_empty (get m.vendor g) ++ m ∷ []) g)

-- `vendorOrder`
abbrev pub vendor_order : List Text
vendor_order =
    lit "DeepSeek"
    ∷ lit "Anthropic"
    ∷ lit "OpenAI"
    ∷ lit "Google"
    ∷ lit "Alibaba"
    ∷ lit "Volcengine"
    ∷ lit "Zhipu AI"
    ∷ lit "Other"
    ∷ []

abbrev pub is_filled : Option (List ModelEntry) → Bool
is_filled (some (m ∷ ms)) = true
is_filled _ = false

abbrev pub has_models : Dict (List ModelEntry) → Text → Bool
has_models g v = is_filled (get v g)

-- `sortedVendors`
unfoldable pub sorted_vendors : Dict (List ModelEntry) → List Text
sorted_vendors g = keep (has_models g) vendor_order

-- The state hooks.
pub record Page : Type 0 where
  pub groups : Dict (List ModelEntry)
  pub models_loading : Bool
  pub active_vendor : Text

abbrev pub or_old : Option Text → Text → Text
or_old none old = old
or_old (some v) old = v

-- A click on the name of a vendor.
abbrev pub choose_vendor : Text → Page → Page
choose_vendor v s = record s { active_vendor = v }

-- `activeModels`
unfoldable pub active_models : Page → List ModelEntry
active_models s = if is_empty s.active_vendor then [] else or_empty (get s.active_vendor s.groups)

abbrev ctx_text : Numerals → ℕ → Text
ctx_text c n =
    if at_least 0x412E848000000000 n
    then c.millions n ++ lit "M"
    else if at_least 0x408F400000000000 n
    then c.thousands n ++ lit "K"
    else c.plain n

-- `formatCtx`
unfoldable pub format_ctx : Numerals → Option ℕ → Text
format_ctx c none = lit "-"
format_ctx c (some n) = if is_truthy n then ctx_text c n else lit "-"

-- `formatPrice`
unfoldable pub format_price : Numerals → Option ℕ → Text
format_price c none = lit "-"
format_price c (some v) = lit "¥" ++ c.price v

module _ (before : Text → Text → Bool) where
  abbrev pub by_name : ModelEntry → ModelEntry → Bool
  by_name a b = before a.model_name b.model_name

  unfoldable pub sort_groups : Dict (List ModelEntry) → Dict (List ModelEntry)
  sort_groups [] = []
  sort_groups ((v, ms) ∷ g) = (v, sort_by by_name ms) ∷ sort_groups g

  -- `buildModels`
  unfoldable pub build_models : List PriceRow → Dict (List ModelEntry)
  build_models rows = sort_groups (by_vendor (values (collect rows [])) [])

  -- The effect with its reply; failures are silent.
  unfoldable pub load : Fetched PriceRow → Page → Page
  load (list rows) s =
      let g = build_models rows in
      record {
        groups = g;
        models_loading = false;
        active_vendor = or_old (find? (has_models g) vendor_order) s.active_vendor;
      }
  load no_list s = record s { models_loading = false }
  load failed s = record s { models_loading = false }
