-- ===== src/Pricing/Cells.antt =====
-- The cells of the tables of apps/react/src/pages/Pricing/public.tsx.
use any_gateway.Base.{ℕ, ◌||◌, Option, none, some, List, [], ◌∷◌, ◌++◌, if◌then◌else◌}
use any_gateway.Base.Double.{is_truthy, at_least, Numerals}
use any_gateway.Base.Text.{Text, lit, text_eq, to_lower}
use any_gateway.Base.Dict.{get}
use any_gateway.Pricing.{ModelEntry}

abbrev ctx_text : Numerals → ℕ → Text
ctx_text c n =
    if at_least 0x412E848000000000 n
    then c.millions n ++ lit "M"
    else if at_least 0x408F400000000000 n
    then c.thousands n ++ lit "K"
    else c.plain n

-- `formatCtx`
unfoldable pub format_ctx : Numerals → Option ℕ → Text
format_ctx c none = lit "-"
format_ctx c (some n) = if is_truthy n then ctx_text c n else lit "-"

-- `formatPrice`
unfoldable pub format_price : Numerals → Option ℕ → Text
format_price c none = lit "-"
format_price c (some v) = lit "¥" ++ c.price v

abbrev other_price : Numerals → Option ℕ → Text → List (Text × Text)
other_price c none unit = []
other_price c (some v) unit = (format_price c (some v), unit) ∷ []

-- The cell of the prices that are not by the token, each with its unit; without any it has a dash.
unfoldable pub other_prices : Numerals → ModelEntry → List (Text × Text)
other_prices c m =
    other_price c (get (lit "request") m.prices) (lit " / 次")
    ++ other_price c (get (lit "audio_second") m.prices) (lit " / 秒")
    ++ other_price c (get (lit "character") m.prices) (lit " / 1M 字符")

-- the style of a stability
unfoldable pub stability_style : Text → Text
stability_style t =
    if text_eq t (lit "稳定") || text_eq (to_lower t) (lit "stable")
    then lit "stable"
    else if text_eq (to_lower t) (lit "beta") || text_eq t (lit "测试")
    then lit "beta"
    else lit "default"
