-- ===== src/Payment/Tests.antt =====
-- Runs of the settings of the payments.
use any_gateway.Base.{◌≡◌, true, none, some, []}
use any_gateway.Base.Text.{lit, trim, trim_start, trim_end, is_space}
use any_gateway.Base.Dict.{get}
use any_gateway.Json.{str}
use any_gateway.Payment.{SettingsValues, settings_payload}
use any_gateway.Payment.Secrets.{get-settings_payload}

abbrev values : SettingsValues
values = record {
  enabled = true;
  gateway_base_url = some (lit "https://pay.example");
  public_base_url = none;
  enabled_channels = none;
  api_key = some (lit " secret ");
  callback_secret = some [];
}

runs : Unit {0}
unfolding lit trim trim_start trim_end is_space
runs = tt

get-settings_payload_example :
    (get (lit "api_key") (settings_payload values) ≡ some (str (lit "secret")))
    × (get (lit "callback_secret") (settings_payload values) ≡ none)
unfolding runs
get-settings_payload_example = get-settings_payload values
