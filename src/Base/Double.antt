-- ===== src/Base/Double.antt =====
-- Tests on a double, given by its 64-bit pattern.
use any_gateway.Base.{ℕ, ◌^◌, ◌%◌, Bool, not, ◌&&◌, ◌||◌, ◌==◌, leb, ltb}
use any_gateway.Base.Text.{Text}

-- `v > 0`: the sign bit is clear, and the number is neither zero nor NaN.
unfoldable pub is_positive : ℕ → Bool
is_positive n = ltb 0 n && leb n 0x7FF0000000000000

-- `v <= 0`: a zero, or the sign bit is set and the number is not NaN.
unfoldable pub is_at_most_zero : ℕ → Bool
is_at_most_zero n = n == 0 || (leb (2 ^ 63) n && leb n 0xFFF0000000000000)

-- The truth value of a number: zeros and NaN are falsy.
unfoldable pub is_truthy : ℕ → Bool
is_truthy n = not (n % 2 ^ 63 == 0) && leb (n % 2 ^ 63) 0x7FF0000000000000

-- `v === 0`: both zeros
unfoldable pub is_zero : ℕ → Bool
is_zero n = n % 2 ^ 63 == 0

-- The numbers in a table of prices, as the engine writes them: `(n / 1000000).toFixed(1)`,
-- `Math.round(n / 1000)`, `String(n)` and `v.toFixed(2)`.
pub record Numerals : Type 0 where
  pub millions : ℕ → Text
  pub thousands : ℕ → Text
  pub plain : ℕ → Text
  pub price : ℕ → Text

-- `n >= m` for a positive double `m`
abbrev pub at_least : ℕ → ℕ → Bool
at_least m n = leb m n && leb n 0x7FF0000000000000
