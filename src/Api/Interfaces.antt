-- ===== src/Api/Interfaces.antt =====
-- The TypeScript interfaces of what the requests of apps/react/src/api send.
use any_gateway.Base.{
  ◌≡◌, refl, ap, Bool, true, false, not, ◌&&◌, ◌||◌, Option, none, some, List, [], ◌∷◌, ◌++◌, arith,
}
use any_gateway.Base.Text.{Text, lit}
use any_gateway.Base.Dict.{Dict, has, get, keys, has-append}
use any_gateway.Json.{Json, null, bool, num, str, arr, obj, elems, fields, fields-to_fields}
use any_gateway.Api.{object}

-- A type of a member.
pub data Shape : Type 0 where
  text number boolean nothing texts : Shape
  either : Shape → Shape → Shape

pub record Member : Type 0 where
  pub needed : Bool
  pub shape : Shape

-- The members of an interface, by their names.
abbrev pub Interface : Type 0
Interface = Dict Member

abbrev is_text : Json → Bool
is_text (str t) = true
is_text _ = false

abbrev pub all_texts : List Json → Bool
all_texts [] = true
all_texts (v ∷ vs) = is_text v && all_texts vs

-- The value has the type.
unfoldable pub conforms : Shape → Json → Bool
conforms text v = is_text v
conforms number (num n) = true
conforms number _ = false
conforms boolean (bool b) = true
conforms boolean _ = false
conforms nothing null = true
conforms nothing _ = false
conforms texts (arr vs) = all_texts (elems vs)
conforms texts _ = false
conforms (either s t) v = conforms s v || conforms t v

abbrev pub declared : Option Member → Json → Bool
declared none v = false
declared (some m) v = conforms m.shape v

-- Every member of the object is one of the interface, and has its type.
unfoldable pub entries_fit : Interface → Dict Json → Bool
entries_fit i [] = true
entries_fit i ((k, v) ∷ d) = declared (get k i) v && entries_fit i d

-- The object has what the interface needs.
unfoldable pub is_complete : Interface → Dict Json → Bool
is_complete [] d = true
is_complete ((k, m) ∷ i) d = (not m.needed || has (keys d) k) && is_complete i d

-- The body of the request is an object of the interface.
abbrev pub body_fits : Interface → Option Json → Bool
body_fits i (some (obj fs)) = entries_fit i (fields fs) && is_complete i (fields fs)
body_fits i _ = false

abbrev pub needs : Text → Shape → Text × Member
needs name shape = (name, record { needed = true; shape = shape })

abbrev pub takes : Text → Shape → Text × Member
takes name shape = (name, record { needed = false; shape = shape })

abbrev or_null : Shape → Shape
or_null s = either s nothing

-- `Partial<…>`
abbrev pub partial : Interface → Interface
partial [] = []
partial ((k, m) ∷ i) = (k, record { needed = false; shape = m.shape }) ∷ partial i

-- prices.ts
unfoldable pub model_price_create : Interface
model_price_create =
    needs (lit "model_name") text
    ∷ needs (lit "unit") text
    ∷ needs (lit "price_per_unit") number
    ∷ takes (lit "context_length") number
    ∷ takes (lit "vendor") text
    ∷ takes (lit "stability") text
    ∷ []

unfoldable pub model_price_update : Interface
model_price_update =
    takes (lit "price_per_unit") number
    ∷ takes (lit "context_length") number
    ∷ takes (lit "vendor") text
    ∷ takes (lit "stability") text
    ∷ []

-- payments.ts
unfoldable pub payment_settings_update : Interface
payment_settings_update =
    takes (lit "gateway_base_url") text
    ∷ takes (lit "api_key") text
    ∷ takes (lit "callback_secret") text
    ∷ takes (lit "public_base_url") text
    ∷ takes (lit "enabled_channels") texts
    ∷ takes (lit "enabled") boolean
    ∷ []

unfoldable pub payment_package_payload : Interface
payment_package_payload =
    needs (lit "label") text
    ∷ needs (lit "amount_cny_cents") number
    ∷ needs (lit "credit_usd") number
    ∷ takes (lit "duration_days") (or_null number)
    ∷ takes (lit "group_id") (or_null text)
    ∷ takes (lit "group_name") (or_null text)
    ∷ takes (lit "enabled") boolean
    ∷ takes (lit "sort_order") number
    ∷ []

-- vouchers.ts
unfoldable pub voucher_create : Interface
voucher_create =
    needs (lit "amount_usd") number
    ∷ takes (lit "count") number
    ∷ takes (lit "duration_days") number
    ∷ takes (lit "group_id") text
    ∷ takes (lit "expires_at") text
    ∷ []

-- channels.ts
unfoldable pub channel_create : Interface
channel_create =
    needs (lit "name") text
    ∷ needs (lit "provider") text
    ∷ needs (lit "base_url") text
    ∷ needs (lit "api_key") text
    ∷ takes (lit "weight") number
    ∷ takes (lit "enabled") boolean
    ∷ takes (lit "models") (or_null text)
    ∷ takes (lit "model_mapping") (or_null text)
    ∷ takes (lit "proxy_url") (or_null text)
    ∷ takes (lit "disable_ssl") boolean
    ∷ takes (lit "disable_compression") boolean
    ∷ takes (lit "protocol") text
    ∷ takes (lit "ws_path") (or_null text)
    ∷ takes (lit "ws_subprotocols") (or_null text)
    ∷ []

-- tokens.ts
unfoldable pub token_create : Interface
token_create =
    needs (lit "name") text
    ∷ takes (lit "group_id") (or_null text)
    ∷ takes (lit "quota_usd") number
    ∷ takes (lit "expires_at") (or_null text)
    ∷ []

unfoldable pub token_update : Interface
token_update =
    takes (lit "name") text
    ∷ takes (lit "group_id") (or_null text)
    ∷ takes (lit "quota_usd") number
    ∷ takes (lit "expires_at") (or_null text)
    ∷ takes (lit "frozen") boolean
    ∷ []

pub entries_fit-append :
    (i : Interface) (d e : Dict Json)
    → entries_fit i (d ++ e) ≡ (entries_fit i d && entries_fit i e)
unfolding entries_fit
entries_fit-append i [] e = refl
entries_fit-append i ((k, v) ∷ d) e = let rest = entries_fit-append i d e in ground arith

keys-append : (d e : Dict Json) → keys (d ++ e) ≡ keys d ++ keys e
keys-append [] e = refl
keys-append ((k, v) ∷ d) e = ap (λ (r : List Text). k ∷ r) (keys-append d e)

-- What an object has already, it has with more members.
pub is_complete-append :
    (i : Interface) (d e : Dict Json) → is_complete i d ≡ true → is_complete i (d ++ e) ≡ true
unfolding is_complete
is_complete-append [] d e h = refl
is_complete-append ((k, m) ∷ i) d e h =
    let rest = is_complete-append i d e (ground arith) in
    let there = has-append (keys d) (keys e) k in rw (keys-append d e, there, rest) (ground arith)

pub is_complete-partial : (i : Interface) (d : Dict Json) → is_complete (partial i) d ≡ true
unfolding is_complete
is_complete-partial [] d = refl
is_complete-partial ((k, m) ∷ i) d = is_complete-partial i d

pub body_fits-object :
    (i : Interface) (d : Dict Json)
    → entries_fit i d ≡ true
    → is_complete i d ≡ true
    → body_fits i (some (object d)) ≡ true
body_fits-object i d h k = rw (fields-to_fields d, h, k) refl
