-- ===== src/Prices/Cells.antt =====
-- The cells of the table of apps/react/src/pages/Prices/index.tsx. A price is in dollars there.
use any_gateway.Base.{ℕ, Option, none, some, ◌++◌, if◌then◌else◌}
use any_gateway.Base.Double.{is_truthy, at_least, Numerals}
use any_gateway.Base.Text.{Text, lit}

abbrev ctx_text : Numerals → ℕ → Text
ctx_text c n =
    if at_least 0x412E848000000000 n
    then c.millions n ++ lit "M"
    else if at_least 0x408F400000000000 n
    then c.thousands n ++ lit "K"
    else c.plain n

-- `formatCtx`
unfoldable pub format_ctx : Numerals → Option ℕ → Text
format_ctx c none = lit "-"
format_ctx c (some n) = if is_truthy n then ctx_text c n else lit "-"

-- `formatPrice`
unfoldable pub format_price : Numerals → Option ℕ → Text
format_price c none = lit "-"
format_price c (some v) = lit "$" ++ c.price v

-- The cell of the price of a request or of a second; `fixed` is `v.toFixed(4)`.
abbrev pub small_price_cell : (ℕ → Text) → Option ℕ → Text
small_price_cell fixed none = lit "-"
small_price_cell fixed (some v) = lit "$" ++ fixed v
