-- ===== src/Payment.antt =====
-- apps/react/src/pages/Payment: the settings of the payments, with the packages and the orders in the
-- children. Numbers are the patterns of their doubles. The form is the component library: a field
-- that it leaves undefined is none.
pub mod Display
pub mod Orders
pub mod Packages
pub mod Secrets
mod Tests
use any_gateway.Base.{Bool, false, Option, none, some, List, [], ◌∷◌, ◌++◌, map, if◌then◌else◌}
use any_gateway.Base.Text.{Text, lit, is_empty, trim}
use any_gateway.Base.Dict.{Dict}
use any_gateway.Json.{Json, bool, str, arr, to_elems, truthy, member, present}
use any_gateway.Api.{or_whole, Reply, fulfilled, rejected, Notice, Effect, call, notify, object}
use any_gateway.Api.Payments.{get_payment_settings, update_payment_settings}

-- The values of the form of the settings.
pub record SettingsValues : Type 0 where
  pub enabled : Bool
  pub gateway_base_url : Option Text
  pub public_base_url : Option Text
  pub enabled_channels : Option (List Text)
  pub api_key : Option Text
  pub callback_secret : Option Text

-- The state hooks of the settings, and what the form was last filled with.
pub record Settings : Type 0 where
  pub loading : Bool
  pub saving : Bool
  pub public_base : Json
  pub shown : Dict Json

-- `v ?? d`
abbrev else_ : Json → Option Json → Json
else_ d none = d
else_ d (some v) = v

-- `!!v`
abbrev is_set : Option Json → Bool
is_set none = false
is_set (some v) = truthy v

abbrev pub field_or : Json → Text → Json → Json
field_or d name s = else_ d (present (member name s))

abbrev shown_settings : Json → Dict Json
shown_settings s =
    (lit "enabled", bool (is_set (member (lit "enabled") s)))
    ∷ (lit "gateway_base_url", field_or (str []) (lit "gateway_base_url") s)
    ∷ (lit "public_base_url", field_or (str []) (lit "public_base_url") s)
    ∷ (lit "enabled_channels", field_or (arr (to_elems [])) (lit "enabled_channels_list") s)
    ∷ (lit "api_key", str [])
    ∷ (lit "callback_secret", str [])
    ∷ []

abbrev settings_in : Json → Json
settings_in data' = or_whole data' (present (member (lit "data") data'))

-- `fetchData` of the settings with its reply
unfoldable pub fetch_settings : Reply → Settings → Settings × List Effect
fetch_settings (fulfilled data') s = (
  record s {
    shown = shown_settings (settings_in data');
    public_base = field_or (str []) (lit "public_base_url") (settings_in data');
    loading = false;
  },
  call get_payment_settings ∷ [],
)
fetch_settings (rejected detail) s = (
  record s { loading = false },
  call get_payment_settings ∷ notify (Notice.error (lit "加载支付配置失败")) ∷ [],
)

abbrev pub text_or : Option Text → Text
text_or none = []
text_or (some t) = t

abbrev pub list_or : Option (List Text) → List Text
list_or none = []
list_or (some ts) = ts

-- A secret that is left empty is left out.
abbrev pub secret_field : Text → Option Text → Dict Json
secret_field name none = []
secret_field name (some t) = if is_empty t then [] else (name, str (trim t)) ∷ []

-- `payload`
unfoldable pub settings_payload : SettingsValues → Dict Json
settings_payload v =
    (lit "enabled", bool v.enabled)
    ∷ (lit "gateway_base_url", str (trim (text_or v.gateway_base_url)))
    ∷ (lit "public_base_url", str (trim (text_or v.public_base_url)))
    ∷ (lit "enabled_channels", arr (to_elems (map str (list_or v.enabled_channels))))
    ∷ (secret_field (lit "api_key") v.api_key
        ++ secret_field (lit "callback_secret") v.callback_secret)

-- What the form shows of the secrets once they are saved.
abbrev cleared : Dict Json
cleared = (lit "api_key", str []) ∷ (lit "callback_secret", str []) ∷ []

-- `handleSubmit` of the settings; `ok` says whether the request succeeds. The last component is
-- what the form is filled with.
unfoldable pub handle_submit_settings : SettingsValues → Bool → List Effect × Dict Json
handle_submit_settings v ok =
    let request = call (update_payment_settings (object (settings_payload v))) in
    if ok
    then (request ∷ notify (Notice.success (lit "支付配置已保存")) ∷ [], cleared)
    else (request ∷ notify (Notice.error (lit "保存失败")) ∷ [], [])
