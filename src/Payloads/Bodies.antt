-- ===== src/Payloads/Bodies.antt =====
-- The bodies of the requests of the pages.
use any_gateway.Base.{
  ◌∙◌, Bool, true, false, List, ◌++◌, All, ℕ, ◌≡◌, refl, Option, none, some, [], ◌∷◌, map,
  Bool-cases, inl, inr,
}
use any_gateway.Base.Text.{Text, lit, trim, text_eq}
use any_gateway.Base.Dict.{Dict, has, get, put}
use any_gateway.Base.Double.{is_truthy}
use any_gateway.Json.{Json, Engine, num, str, elems-to_elems}
use any_gateway.Api.{
  Call, Reply, fulfilled, rejected, Effect, requests, object, create_price, update_price,
  delete_price,
}
use any_gateway.Api.Interfaces.{
  Interface, token_create, is_complete-partial, conforms, entries_fit, is_complete, body_fits,
  partial, body_fits-object, model_price_create, model_price_update, payment_settings_update,
  payment_package_payload, voucher_create, channel_create, token_update,
}
use any_gateway.Prices.Editing.{Op, remove, set, create, meta_fields, call_of}
use any_gateway.Payment.{SettingsValues, settings_payload, secret_field, list_or, text_or}
use any_gateway.Payment.Packages.{
  Packages, handle_submit_package, handle_toggle, PackageValues, package_payload, zero_if,
}
use any_gateway.Vouchers.{voucher_payload, duration_fields}
use any_gateway.Vouchers
use any_gateway.Channels.Drawer.{update_payload, create_payload}
use any_gateway.Channels.Drawer
use any_gateway.Keys
use any_gateway.Keys.{edit_payload, handle_create}
use any_gateway.Prices.Editing
use any_gateway.Channels.Dialog.{Dialog, handle_save_models, models_payload, save_payload, save_for}
use any_gateway.Channels.{Channel}
use any_gateway.Api.{create_channel, update_channel}
use any_gateway.Api.Accounts.{create_voucher, create_token, update_token}
use any_gateway.Api.Payments.{
  create_payment_package, update_payment_package, update_payment_settings,
}
use any_gateway.Payloads.Channels.{IsFilled, entries_fit-partial, create_fits, update_fits}
use any_gateway.Payloads.{
  secret_fits, voucher_text_fits, both_fit, meta_fit, text_conforms, number_conforms,
  num_or-conforms, num_or_null-conforms, text_or_null-conforms, name_or_null-conforms,
  bool_or-conforms, all_texts-str,
}

-- The request of an operation on a price.
abbrev pub OpFits : Op → Type 0
OpFits (remove id) = (call_of (remove id)).body ≡ none
OpFits (set id price m) = body_fits model_price_update (call_of (set id price m)).body ≡ true
OpFits (create model u price m) =
    body_fits model_price_create (call_of (create model u price m)).body ≡ true

op_fits : (o : Op) → OpFits o
unfolding call_of create_price update_price delete_price get lit text_eq conforms model_price_create
    model_price_update entries_fit is_complete has
op_fits (remove id) = refl
op_fits (set id price m) =
    body_fits-object model_price_update ((lit "price_per_unit", num price) ∷ meta_fields m)
      (meta_fit model_price_update m (λ n. refl) (λ t. refl) (λ t. refl)) refl
op_fits (create model u price m) =
    body_fits-object model_price_create
      ((lit "model_name", str model)
        ∷ (lit "unit", str u)
        ∷ (lit "price_per_unit", num price)
        ∷ meta_fields m)
      (meta_fit model_price_create m (λ n. refl) (λ t. refl) (λ t. refl)) refl

package_entries :
    (cents : ℕ → ℕ) (v : PackageValues)
    → entries_fit payment_package_payload (package_payload cents v) ≡ true
unfolding package_payload get lit text_eq payment_package_payload entries_fit
package_entries cents v =
    rw
      (
        text_conforms v.label,
        number_conforms (cents (zero_if v.amount_yuan)),
        num_or-conforms 0 v.credit_usd,
        num_or_null-conforms v.duration_days,
        text_or_null-conforms v.group_id,
        name_or_null-conforms (trim (text_or v.group_name)),
        num_or-conforms 0 v.sort_order,
        bool_or-conforms true v.enabled,
      )
      refl

package_fits :
    (cents : ℕ → ℕ) (v : PackageValues)
    → body_fits payment_package_payload (some (object (package_payload cents v))) ≡ true
unfolding package_payload get lit text_eq payment_package_payload entries_fit is_complete has
package_fits cents v =
    body_fits-object payment_package_payload (package_payload cents v) (package_entries cents v)
      refl

settings_fit :
    (v : SettingsValues)
    → body_fits payment_settings_update (some (object (settings_payload v))) ≡ true
unfolding settings_payload get lit text_eq conforms payment_settings_update entries_fit is_complete
    has
settings_fit v =
    body_fits-object payment_settings_update (settings_payload v)
      (rw
        (
          elems-to_elems (map str (list_or v.enabled_channels)),
          all_texts-str (list_or v.enabled_channels),
        )
        (both_fit payment_settings_update (secret_field (lit "api_key") v.api_key)
          (secret_field (lit "callback_secret") v.callback_secret)
          (secret_fits payment_settings_update (lit "api_key") v.api_key (λ t. refl))
          (secret_fits payment_settings_update (lit "callback_secret") v.callback_secret
            (λ t. refl))))
      refl

duration_fits :
    (d : Option ℕ) (group : Option Text)
    → entries_fit voucher_create (duration_fields d group) ≡ true
unfolding get lit text_eq conforms voucher_create entries_fit
duration_fits none group = refl
duration_fits (some n) group = elim (Bool-cases (is_truthy n)) [
  | inl e ↦ rw e (voucher_text_fits voucher_create (lit "group_id") group (λ t. refl))
  | inr e ↦ rw e refl
]

vouchers_fit :
    (v : Vouchers.Values) → body_fits voucher_create (some (object (voucher_payload v))) ≡ true
unfolding voucher_payload get lit text_eq conforms voucher_create entries_fit is_complete has
vouchers_fit v =
    body_fits-object voucher_create (voucher_payload v)
      (both_fit voucher_create (duration_fields v.duration_days v.group_id)
        (Vouchers.text_field (lit "expires_at") v.expires_at)
        (duration_fits v.duration_days v.group_id)
        (voucher_text_fits voucher_create (lit "expires_at") v.expires_at (λ t. refl)))
      refl

edit_fits :
    (group : Option Text) → body_fits token_update (some (object (edit_payload group))) ≡ true
unfolding get lit text_eq conforms token_update entries_fit is_complete has
edit_fits none = refl
edit_fits (some []) = refl
edit_fits (some (c ∷ t)) = refl

package_change_fits :
    (cents : ℕ → ℕ) (v : PackageValues)
    → body_fits (partial payment_package_payload) (some (object (package_payload cents v))) ≡ true
package_change_fits cents v =
    body_fits-object (partial payment_package_payload) (package_payload cents v)
      (entries_fit-partial payment_package_payload (package_payload cents v)
        ∙ package_entries cents v)
      (is_complete-partial payment_package_payload (package_payload cents v))

-- What the form of a new key gives.
abbrev pub key_values : Text → Option ℕ → Option Text → Dict Json
key_values name quota group =
    (lit "name", str name) ∷ Editing.number_field (lit "quota_usd") quota
    ++ Editing.text_field (lit "group_id") group

key_fits :
    (name : Text) (quota : Option ℕ) (group : Option Text)
    → body_fits token_create
        (some (object (Keys.create_payload (key_values name quota group) group)))
      ≡ true
unfolding put get lit text_eq conforms token_create entries_fit is_complete has
key_fits name none none = refl
key_fits name none (some []) = refl
key_fits name none (some (c ∷ t)) = refl
key_fits name (some n) none = refl
key_fits name (some n) (some []) = refl
key_fits name (some n) (some (c ∷ t)) = refl

-- The requests, if there are any, have bodies of the interface.
abbrev pub AreFit : Interface → List Effect → Type 0
AreFit i es = All (λ (c : Call). body_fits i c.body ≡ true) (requests es)

handle_create-AreFit :
    (name : Text) (quota : Option ℕ) (group : Option Text) (reply : Reply) (s : Keys.Page)
    → AreFit token_create (handle_create (key_values name quota group) group reply s).1
unfolding handle_create create_token
handle_create-AreFit name quota group (fulfilled d) s = (key_fits name quota group, tt)
handle_create-AreFit name quota group (rejected d) s = (key_fits name quota group, tt)

handle_submit_package-AreFit :
    (cents : ℕ → ℕ) (v : PackageValues) (ok : Bool) (id : Text) (s : Packages)
    → s.editing ≡ some id
    → AreFit (partial payment_package_payload) (handle_submit_package cents v ok s).1
unfolding handle_submit_package update_payment_package
handle_submit_package-AreFit cents v true id s h = rw h (package_change_fits cents v, tt)
handle_submit_package-AreFit cents v false id s h = rw h (package_change_fits cents v, tt)

handle_toggle-AreFit :
    (id : Text) (checked ok : Bool)
    → AreFit (partial payment_package_payload) (handle_toggle id checked ok)
unfolding handle_toggle update_payment_package get lit text_eq conforms payment_package_payload
    entries_fit is_complete has
handle_toggle-AreFit id checked true = (refl, tt)
handle_toggle-AreFit id checked false = (refl, tt)

save_payload-AreFit :
    (o : Option (List Json)) (e : Engine) (c : Channel) (reply : Reply) (s : Dialog)
    → AreFit (partial channel_create) (save_payload o e c reply s).1
unfolding update_channel get lit text_eq conforms channel_create entries_fit is_complete has
save_payload-AreFit none e c reply s = tt
save_payload-AreFit (some payload) e c (fulfilled d) s = (refl, tt)
save_payload-AreFit (some payload) e c (rejected d) s = (refl, tt)

save_for-AreFit :
    (o : Option Channel) (e : Engine) (reply : Reply) (s : Dialog)
    → AreFit (partial channel_create) (save_for o e reply s).1
save_for-AreFit none e reply s = tt
save_for-AreFit (some c) e reply s = save_payload-AreFit (models_payload e s) e c reply s

handle_save_models-AreFit :
    (e : Engine) (reply : Reply) (s : Dialog)
    → AreFit (partial channel_create) (handle_save_models e reply s).1
unfolding handle_save_models
handle_save_models-AreFit e reply s = save_for-AreFit s.managing e reply s

-- These requests have bodies of the type that their function declares, each member being one of
-- the interface with its type and what the interface needs being there: to create or change a
-- price (one that deletes a price sends no body), to create a package of the payments, to change
-- it by its form or by its switch, to change the settings of the payments, to create vouchers, to
-- create a key with the values of its form, to bind it to a group, to create or change a channel
-- by its drawer, and to save a channel's models. To create a channel, the fields that the form's
-- rules require must be set.
pub bodies_fit :
    (o : Op) (cents : ℕ → ℕ) (p : PackageValues) (ok : Bool) (packages : Packages) (id : Text)
    (h : packages.editing ≡ some id) (s : SettingsValues) (w : Vouchers.Values) (name : Text)
    (quota : Option ℕ) (group : Option Text) (keys : Keys.Page) (e : Engine) (reply : Reply)
    (dialog : Dialog) (mapping : Text) (v : Drawer.Values) (filled : IsFilled v)
    → OpFits o
      × (body_fits payment_package_payload
            (create_payment_package (object (package_payload cents p))).body
          ≡ true)
      × AreFit (partial payment_package_payload) (handle_submit_package cents p ok packages).1
      × AreFit (partial payment_package_payload) (handle_toggle id ok ok)
      × (body_fits payment_settings_update
            (update_payment_settings (object (settings_payload s))).body
          ≡ true)
      × (body_fits voucher_create (create_voucher (object (voucher_payload w))).body ≡ true)
      × AreFit token_create (handle_create (key_values name quota group) group reply keys).1
      × (body_fits token_update (update_token id (object (edit_payload group))).body ≡ true)
      × (body_fits channel_create (create_channel (create_payload mapping v)).body ≡ true)
      × (body_fits (partial channel_create) (update_channel id (update_payload mapping v)).body
          ≡ true)
      × AreFit (partial channel_create) (handle_save_models e reply dialog).1
unfolding create_payment_package update_payment_settings create_voucher update_token create_channel
    update_channel
bodies_fit o cents p ok packages id h s w name quota group keys e reply dialog mapping v filled = (
  op_fits o,
  package_fits cents p,
  handle_submit_package-AreFit cents p ok id packages h,
  handle_toggle-AreFit id ok ok,
  settings_fit s,
  vouchers_fit w,
  handle_create-AreFit name quota group reply keys,
  edit_fits group,
  create_fits mapping v filled,
  update_fits mapping v,
  handle_save_models-AreFit e reply dialog,
)
