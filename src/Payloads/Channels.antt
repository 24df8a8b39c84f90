-- ===== src/Payloads/Channels.antt =====
-- The bodies that the drawer of a channel sends.
use any_gateway.Base.{
  ℕ, ◌≡◌, refl, ◌∙◌, Bool, true, Option, none, some, [], ◌∷◌, ◌++◌, Bool-cases, inl, inr,
}
use any_gateway.Base.Text.{Text, lit, is_empty, trim, text_eq}
use any_gateway.Base.Dict.{Dict, has, get}
use any_gateway.Json.{Json, str}
use any_gateway.Api.Interfaces.{
  Interface, text, nothing, either, conforms, declared, entries_fit, is_complete, body_fits,
  partial, is_complete-append, is_complete-partial, body_fits-object, channel_create,
}
use any_gateway.Channels.Drawer.{
  update_payload, create_payload, rest_fields, weight_field, enabled_field, first_fields,
  filled_key, is_on,
}
use any_gateway.Channels.{or_default}
use any_gateway.Channels.Drawer
use any_gateway.Payloads.{channel_text_fits, is_some, both_fit, text_conforms, bool_conforms}

model_mapping_conforms : (t : Text) → conforms (either text nothing) (str t) ≡ true
unfolding conforms
model_mapping_conforms t = refl

path_conforms : (o : Option Text) → conforms (either text nothing) (Drawer.text_or_null o) ≡ true
path_conforms o = elim (Bool-cases (is_empty (trim (or_default o [])))) [
  | inl e ↦ unfold conforms in rw e refl
  | inr e ↦ unfold conforms in rw e refl
]

key_fits :
    (o : Option Text) → entries_fit channel_create (Drawer.text_field (lit "api_key") o) ≡ true
unfolding get lit text_eq conforms channel_create
key_fits o = channel_text_fits channel_create (lit "api_key") o (λ t. refl)

channel_rest_fits :
    (mapping : Text) (v : Drawer.Values) → entries_fit channel_create (rest_fields mapping v) ≡ true
unfolding rest_fields get lit text_eq channel_create entries_fit
channel_rest_fits mapping v =
    rw
      (
        model_mapping_conforms mapping,
        path_conforms v.proxy_url,
        bool_conforms (is_on v.disable_ssl),
        bool_conforms (is_on v.disable_compression),
        text_conforms (or_default v.protocol (lit "http")),
        path_conforms v.ws_path,
        path_conforms v.ws_subprotocols,
      )
      refl

weight_fits : (o : Option ℕ) → entries_fit channel_create (weight_field o) ≡ true
unfolding get lit text_eq conforms channel_create entries_fit
weight_fits none = refl
weight_fits (some n) = refl

enabled_fits : (o : Option Bool) → entries_fit channel_create (enabled_field o) ≡ true
unfolding get lit text_eq conforms channel_create entries_fit
enabled_fits none = refl
enabled_fits (some b) = refl

first_fit : (v : Drawer.Values) → entries_fit channel_create (first_fields v) ≡ true
unfolding get lit text_eq conforms channel_create
first_fit v =
    both_fit channel_create _ _
      (both_fit channel_create _ _
        (channel_text_fits channel_create (lit "name") v.name (λ t. refl))
        (channel_text_fits channel_create (lit "provider") v.provider (λ t. refl)))
      (channel_text_fits channel_create (lit "base_url") v.base_url (λ t. refl))

filled_fits : (o : Option Text) → entries_fit channel_create (filled_key o) ≡ true
unfolding get lit text_eq conforms channel_create entries_fit
filled_fits none = refl
filled_fits (some []) = refl
filled_fits (some (c ∷ t)) = refl

get-partial :
    (i : Interface) (k : Text) (v : Json) → declared (get k (partial i)) v ≡ declared (get k i) v
unfolding get
get-partial [] k v = refl
get-partial ((j, m) ∷ i) k v = elim (Bool-cases (text_eq j k)) [
  | inl e ↦ rw e refl
  | inr e ↦ rw e (get-partial i k v)
]

pub entries_fit-partial :
    (i : Interface) (d : Dict Json) → entries_fit (partial i) d ≡ entries_fit i d
unfolding entries_fit
entries_fit-partial i [] = refl
entries_fit-partial i ((k, v) ∷ d) = rw (get-partial i k v, entries_fit-partial i d) refl

pub update_fits :
    (mapping : Text) (v : Drawer.Values)
    → body_fits (partial channel_create) (some (update_payload mapping v)) ≡ true
unfolding update_payload
update_fits mapping v =
    body_fits-object (partial channel_create) _
      (entries_fit-partial channel_create _
        ∙ both_fit channel_create _ _
            (both_fit channel_create _ _
              (both_fit channel_create _ _
                (both_fit channel_create _ _ (first_fit v) (weight_fits v.weight))
                (enabled_fits v.enabled))
              (channel_rest_fits mapping v))
            (filled_fits v.api_key))
      (is_complete-partial channel_create _)

-- The fields that the rules of the form require are there.
abbrev pub IsFilled : Drawer.Values → Type 0
IsFilled v =
    (is_some v.name ≡ true)
    × (is_some v.provider ≡ true)
    × (is_some v.base_url ≡ true)
    × (is_some v.api_key ≡ true)

abbrev needed_fields : Option Text → Option Text → Option Text → Option Text → Dict Json
needed_fields a b c d =
    Drawer.text_field (lit "name") a
    ++ Drawer.text_field (lit "provider") b
    ++ Drawer.text_field (lit "base_url") c
    ++ Drawer.text_field (lit "api_key") d

needed_fields_complete :
    (a b c d : Option Text)
    → is_some a ≡ true
    → is_some b ≡ true
    → is_some c ≡ true
    → is_some d ≡ true
    → is_complete channel_create (needed_fields a b c d) ≡ true
unfolding is_complete channel_create has lit text_eq
needed_fields_complete none b c d h i j k = absurd cc
needed_fields_complete (some x) none c d h i j k = absurd cc
needed_fields_complete (some x) (some y) none d h i j k = absurd cc
needed_fields_complete (some x) (some y) (some z) none h i j k = absurd cc
needed_fields_complete (some x) (some y) (some z) (some w) h i j k = refl

pub create_fits :
    (mapping : Text) (v : Drawer.Values)
    → IsFilled v
    → body_fits channel_create (some (create_payload mapping v)) ≡ true
unfolding create_payload
create_fits mapping v h =
    body_fits-object channel_create _
      (both_fit channel_create _ _
        (both_fit channel_create _ _
          (both_fit channel_create _ _
            (both_fit channel_create _ _ (first_fit v) (key_fits v.api_key)) (weight_fits v.weight))
          (enabled_fits v.enabled))
        (channel_rest_fits mapping v))
      (is_complete-append channel_create _ (rest_fields mapping v) (
        is_complete-append channel_create _ (enabled_field v.enabled) (
          is_complete-append channel_create _ (weight_field v.weight)
            (needed_fields_complete v.name v.provider v.base_url v.api_key h.0 h.1 h.2 h.3))))
