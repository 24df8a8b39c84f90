-- ===== src/Payloads/Tests.antt =====
-- A run of the bodies of the requests.
use any_gateway.Base.{◌≡◌, refl, true, false, none, some, [], ◌∷◌}
use any_gateway.Base.Text.{lit}
use any_gateway.Api.{rejected, object, create_channel, update_channel}
use any_gateway.Api.Accounts.{create_voucher, update_token}
use any_gateway.Api.Interfaces.{
  token_create, body_fits, partial, payment_settings_update, payment_package_payload,
  voucher_create, channel_create, token_update,
}
use any_gateway.Api.Payments.{create_payment_package, update_payment_settings}
use any_gateway.Prices.Editing.{Op, set}
use any_gateway.Payment.{SettingsValues, settings_payload}
use any_gateway.Payment.Packages.{
  Packages, PackageValues, package_payload, handle_submit_package, handle_toggle,
}
use any_gateway.Vouchers
use any_gateway.Vouchers.{voucher_payload}
use any_gateway.Keys
use any_gateway.Keys.{edit_payload, handle_create}
use any_gateway.Channels.{Channel}
use any_gateway.Channels.Dialog.{Dialog, initial, handle_save_models}
use any_gateway.Json.{str, Engine}
use any_gateway.Channels.Drawer
use any_gateway.Channels.Drawer.{create_payload, update_payload}
use any_gateway.Payloads.Bodies.{AreFit, key_values, OpFits, bodies_fit}

abbrev price_op : Op
price_op =
    set (lit "p") 0x4000000000000000
      (record { context_length = none; vendor = some (lit "OpenAI"); stability = none })

abbrev small_package : PackageValues
small_package = record {
  label = lit "small";
  amount_yuan = some 0x4024000000000000;
  credit_usd = none;
  duration_days = none;
  group_id = none;
  group_name = some (lit " vip ");
  sort_order = none;
  enabled = none;
}

abbrev settings : SettingsValues
settings = record {
  enabled = true;
  gateway_base_url = some (lit "https://pay.example");
  public_base_url = none;
  enabled_channels = some (lit "wxpay" ∷ []);
  api_key = some (lit " secret ");
  callback_secret = some [];
}

abbrev vouchers : Vouchers.Values
vouchers = record {
  amount_usd = 0x4024000000000000;
  count = some 0x4000000000000000;
  duration_days = some 0x4000000000000000;
  group_id = some (lit "g");
  expires_at = none;
}

abbrev channel : Drawer.Values
channel = record {
  name = some (lit "main");
  provider = some (lit "openai");
  base_url = some (lit "https://api.example");
  api_key = some (lit "sk");
  weight = some 0x3FF0000000000000;
  enabled = some true;
  proxy_url = none;
  disable_ssl = none;
  disable_compression = some true;
  protocol = none;
  ws_path = some (lit " /ws ");
  ws_subprotocols = some [];
}

abbrev packages : Packages
packages = record {
  data' = [];
  visible = true;
  editing = some (lit "p");
  shown = none;
  pkg_groups = [];
}

abbrev keys : Keys.Page
keys = record {
  data' = [];
  groups = [];
  loading = false;
  create_visible = true;
  edit_visible = false;
  editing_token = none;
  new_key_visible = false;
  new_key = str [];
  shown_group = none;
}

abbrev managed : Channel
managed = record {
  id = lit "c";
  name = lit "c";
  provider = lit "openai";
  base_url = lit "http://h";
  api_key = [];
  weight = 1;
  enabled = true;
  models = none;
  model_mapping = none;
  proxy_url = none;
  disable_ssl = false;
  disable_compression = false;
  protocol = none;
  ws_path = none;
  ws_subprotocols = none;
  created_at = [];
}

abbrev engine : Engine
engine = record {
  parse = λ t. none;
  stringify = λ v. lit "[]";
  pretty = λ v. lit "[]";
  number_text = λ n. lit "0";
}

abbrev dialog : Dialog
dialog = record initial { managing = some managed; selected = lit "gpt" ∷ [] }

bodies_fit_example :
    OpFits price_op
    × (body_fits payment_package_payload
          (create_payment_package (object (package_payload (λ n. n) small_package))).body
        ≡ true)
    × AreFit
        (partial payment_package_payload)
        (handle_submit_package (λ n. n) small_package true packages).1
    × AreFit (partial payment_package_payload) (handle_toggle (lit "p") true true)
    × (body_fits payment_settings_update
          (update_payment_settings (object (settings_payload settings))).body
        ≡ true)
    × (body_fits voucher_create (create_voucher (object (voucher_payload vouchers))).body ≡ true)
    × AreFit token_create
        (handle_create
          (key_values (lit "k") none (some (lit "g")))
          (some (lit "g"))
          (rejected none)
          keys).1
    × (body_fits token_update (update_token (lit "p") (object (edit_payload (some (lit "g"))))).body
        ≡ true)
    × (body_fits channel_create (create_channel (create_payload (lit "{}") channel)).body ≡ true)
    × (body_fits
          (partial channel_create)
          (update_channel (lit "p") (update_payload (lit "{}") channel)).body
        ≡ true)
    × AreFit (partial channel_create) (handle_save_models engine (rejected none) dialog).1
bodies_fit_example =
    bodies_fit price_op (λ n. n) small_package true packages (lit "p") refl settings vouchers
      (lit "k") none (some (lit "g")) keys engine (rejected none) dialog (lit "{}") channel
      (refl, refl, refl, refl)
