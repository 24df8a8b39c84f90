-- ===== src/Groups/Windows.antt =====
-- The windows of the limits, as they are displayed.
use any_gateway.Base.{ℕ, ◌+◌, ◌*◌, ◌/◌, ◌%◌, ◌==◌, ◌≡◌, ◌≢◌, refl, true, false, ◌++◌, arith}
use any_gateway.Base.Text.{lit, decimal}
use any_gateway.Groups.Limits.{format_window_sec}

-- A window of the form, a number of days, hours or minutes, is displayed as that number of the same
-- unit, unless it is a whole number of a greater unit.
pub format_window_sec-units :
    (n : ℕ)
    → (format_window_sec (n * 86400) ≡ decimal n ++ lit " 天")
      × (n % 24 ≢ 0 → format_window_sec (n * 3600) ≡ decimal n ++ lit " 小时")
      × (n % 60 ≢ 0 → format_window_sec (n * 60) ≡ decimal n ++ lit " 分钟")
unfolding format_window_sec
format_window_sec-units n =
    let days : n * 86400 / 86400 ≡ n = omega arith in
    let hours : n * 3600 / 3600 ≡ n = omega arith in
    let minutes : (n * 60 + 30) / 60 ≡ n = omega arith in
    let a : (n * 86400 % 86400 == 0) ≡ true = ground arith in
    let c : (n * 3600 % 3600 == 0) ≡ true = ground arith in
    (
      rw (a, days) refl,
      (λ h. let b : (n * 3600 % 86400 == 0) ≡ false = ground arith in rw (b, c, hours) refl),
      λ h.
          let d : (n * 60 % 86400 == 0) ≡ false = ground arith in
          let f : (n * 60 % 3600 == 0) ≡ false = ground arith in rw (d, f, minutes) refl,
    )
