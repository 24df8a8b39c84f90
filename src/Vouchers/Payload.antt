-- ===== src/Vouchers/Payload.antt =====
-- What the request for a new voucher says.
use any_gateway.Base.{
  ◌≡◌, refl, ℕ, Option, none, some, [], ◌∷◌, ◌++◌, if◌then◌else◌, Bool-cases, inl, inr,
}
use any_gateway.Base.Text.{Text, lit, is_empty, text_eq}
use any_gateway.Base.Dict.{Dict, get}
use any_gateway.Base.Double.{is_truthy}
use any_gateway.Json.{Json, num, str}
use any_gateway.Vouchers.{Values, voucher_payload, text_field, duration_fields}

abbrev pub filled_text : Option Text → Option Json
filled_text none = none
filled_text (some t) = if is_empty t then none else some (str t)

abbrev pub filled_days : Option ℕ → Option Json
filled_days none = none
filled_days (some n) = if is_truthy n then some (num n) else none

-- Bound to a group only together with a duration.
abbrev pub group_within : Option Json → Option Text → Option Json
group_within none group = none
group_within (some days) group = filled_text group

-- What a request says of the duration, the group and the day of expiry.
abbrev Says : Dict Json → Option Json → Option Json → Option Json → Type 0
Says payload days group expiry =
    (get (lit "duration_days") payload ≡ days)
    × (get (lit "group_id") payload ≡ group)
    × (get (lit "expires_at") payload ≡ expiry)

-- The request with these members behind the amount and the number of vouchers.
abbrev payload_of : (amount count : Json) → Dict Json → Dict Json
payload_of amount count rest = (lit "amount_usd", amount) ∷ (lit "count", count) ∷ rest

Says-without_days :
    (amount count : Json) (x : Option Text)
    → Says (payload_of amount count (text_field (lit "expires_at") x)) none none (filled_text x)
unfolding get lit text_eq
Says-without_days amount count none = (refl, refl, refl)
Says-without_days amount count (some []) = (refl, refl, refl)
Says-without_days amount count (some (c ∷ t)) = (refl, refl, refl)

Says-with_days :
    (amount count days : Json) (g x : Option Text)
    → Says
        (payload_of amount count (
          (lit "duration_days", days) ∷ text_field (lit "group_id") g
          ++ text_field (lit "expires_at") x))
        (some days)
        (filled_text g)
        (filled_text x)
unfolding get lit text_eq
Says-with_days amount count days none none = (refl, refl, refl)
Says-with_days amount count days none (some []) = (refl, refl, refl)
Says-with_days amount count days none (some (c ∷ t)) = (refl, refl, refl)
Says-with_days amount count days (some []) none = (refl, refl, refl)
Says-with_days amount count days (some []) (some []) = (refl, refl, refl)
Says-with_days amount count days (some []) (some (c ∷ t)) = (refl, refl, refl)
Says-with_days amount count days (some (b ∷ g)) none = (refl, refl, refl)
Says-with_days amount count days (some (b ∷ g)) (some []) = (refl, refl, refl)
Says-with_days amount count days (some (b ∷ g)) (some (c ∷ t)) = (refl, refl, refl)

Says-duration_fields :
    (amount count : Json) (d : Option ℕ) (g x : Option Text)
    → Says
        (payload_of amount count (duration_fields d g ++ text_field (lit "expires_at") x))
        (filled_days d)
        (group_within (filled_days d) g)
        (filled_text x)
Says-duration_fields amount count none g x = Says-without_days amount count x
Says-duration_fields amount count (some n) g x = elim (Bool-cases (is_truthy n)) [
  | inl e ↦ rw e (Says-with_days amount count (num n) g x)
  | inr e ↦ rw e (Says-without_days amount count x)
]

-- The duration stands in the request exactly if it was filled with a number other than zero; the
-- group exactly if it was chosen and there is such a duration, so a voucher without a duration is
-- never bound to a group; the day of expiry exactly if it was chosen.
pub get-voucher_payload :
    (v : Values)
    → (get (lit "duration_days") (voucher_payload v) ≡ filled_days v.duration_days)
      × (get (lit "group_id") (voucher_payload v)
          ≡ group_within (filled_days v.duration_days) v.group_id)
      × (get (lit "expires_at") (voucher_payload v) ≡ filled_text v.expires_at)
unfolding voucher_payload
get-voucher_payload v = Says-duration_fields _ _ v.duration_days v.group_id v.expires_at
