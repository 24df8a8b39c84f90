-- ===== src/Payment/Secrets.antt =====
-- What the settings of the payments do to the stored secrets.
use any_gateway.Base.{◌≡◌, refl, Option, none, some, [], ◌∷◌, if◌then◌else◌}
use any_gateway.Base.Text.{Text, lit, is_empty, trim, text_eq}
use any_gateway.Base.Dict.{get}
use any_gateway.Json.{Json, str}
use any_gateway.Payment.{SettingsValues, settings_payload}

-- A secret as it is sent: nothing where the field is undefined or empty.
abbrev pub sent : Option Text → Option Json
sent none = none
sent (some t) = if is_empty t then none else some (str (trim t))

-- Each of the two secrets stands in the request exactly if its field is not empty, and then as the
-- trimmed text of its own field, whatever was typed into the other fields: a secret whose field is
-- empty is never sent, and blanks alone are sent as the empty text.
pub get-settings_payload :
    (v : SettingsValues)
    → (get (lit "api_key") (settings_payload v) ≡ sent v.api_key)
      × (get (lit "callback_secret") (settings_payload v) ≡ sent v.callback_secret)
unfolding settings_payload get lit text_eq
get-settings_payload v = go v.api_key v.callback_secret
  where
    go :
        (a c : Option Text)
        → (get (lit "api_key") (settings_payload (record v { api_key = a; callback_secret = c }))
            ≡ sent a)
          × (get
                (lit "callback_secret")
                (settings_payload (record v { api_key = a; callback_secret = c }))
              ≡ sent c)
    go none none = (refl, refl)
    go none (some []) = (refl, refl)
    go none (some (x ∷ t)) = (refl, refl)
    go (some []) none = (refl, refl)
    go (some []) (some []) = (refl, refl)
    go (some []) (some (x ∷ t)) = (refl, refl)
    go (some (y ∷ s)) none = (refl, refl)
    go (some (y ∷ s)) (some []) = (refl, refl)
    go (some (y ∷ s)) (some (x ∷ t)) = (refl, refl)
