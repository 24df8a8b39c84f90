-- ===== src/Channels/Dialog/Selection.antt =====
-- The selection of models in the dialog.
use any_gateway.Base.{
  ◌≡◌, refl, Bool, true, false, not, ◌&&◌, ◌||◌, Option, none, some, List, [], ◌∷◌, ◌++◌, arith,
  keep, Bool-cases, inl, inr, if◌then◌else◌,
}
use any_gateway.Base.Text.{Text, is_empty, trim, text_eq, text_eq_iff}
use any_gateway.Base.Dict.{
  Dict, Distinct, has, get, has-append, has-unique, Distinct-unique, Distinct-add_all,
  Distinct-concat,
}
use any_gateway.Json.{Json, Engine}
use any_gateway.Toml.{VoiceEntry}
use any_gateway.Channels.{Channel, parse_model_ids, parse_models_detail}
use any_gateway.Channels.Dialog.{
  Dialog, upstream_list, match_keyword, custom_ids, visible_custom, visible_upstream, start_with,
  start_load, show_with, show_detail, opened_on, open_manage_models, toggle_model,
  select_all_visible, add_manual_model,
}

has-keep : (p : Text → Bool) (ks : List Text) (k : Text) → has (keep p ks) k ≡ (has ks k && p k)
unfolding has
has-keep p [] k = refl
has-keep p (j ∷ js) k = elim (Bool-cases (text_eq j k)) [
  | inl e ↦
      let same = (text_eq_iff j k).0 e in rw same (ground (arith, has-keep p js k, text_eq_iff k k))
  | inr e ↦ ground (arith, has-keep p js k)
]

Distinct-keep : (p : Text → Bool) (ks : List Text) → Distinct ks → Distinct (keep p ks)
Distinct-keep p [] d = tt
Distinct-keep p (k ∷ ks) (n, d) = elim (Bool-cases (p k)) [
  | inl e ↦ rw e (rw (has-keep p ks k) (rw n refl), Distinct-keep p ks d)
  | inr e ↦ rw e (Distinct-keep p ks d)
]

pub has-visible_custom :
    (s : Dialog) (id : Text)
    → has (visible_custom s) id
      ≡ ((has s.selected id && not (has (upstream_list s) id)) && match_keyword s id)
unfolding visible_custom
has-visible_custom s id =
    rw (has-keep (match_keyword s) (custom_ids s) id)
      (rw (has-keep (λ i. not (has (upstream_list s) i)) s.selected id))

pub has-visible_upstream :
    (s : Dialog) (id : Text)
    → has (visible_upstream s) id ≡ (has (upstream_list s) id && match_keyword s id)
unfolding visible_upstream
has-visible_upstream s id = has-keep (match_keyword s) (upstream_list s) id

-- "Select all": the models that were selected, and the candidates that match the search.
pub has-select_all_visible :
    (s : Dialog) (id : Text)
    → has (select_all_visible s).selected id
      ≡ (has s.selected id || (has (upstream_list s) id && match_keyword s id))
unfolding select_all_visible
has-select_all_visible s id = ground (
  arith,
  has-unique (s.selected ++ (visible_custom s ++ visible_upstream s)) id,
  has-append s.selected (visible_custom s ++ visible_upstream s) id,
  has-append (visible_custom s) (visible_upstream s) id,
  has-visible_custom s id,
  has-visible_upstream s id,
)

-- After a click on a model's box the model is selected exactly if the box is ticked, and no other
-- model's selection has changed.
pub has-toggle_model :
    (s : Dialog) (id other : Text) (checked : Bool)
    → has (toggle_model id checked s).selected other
      ≡ (if text_eq id other then checked else has s.selected other)
unfolding toggle_model has
has-toggle_model s id other true =
    ground (arith, has-append s.selected (id ∷ []) other, text_eq_iff id other)
has-toggle_model s id other false = ground (
  arith,
  has-keep (λ x. not (text_eq x id)) s.selected other,
  text_eq_iff id other,
  text_eq_iff other id,
)

Distinct-toggle_model :
    (s : Dialog) (id : Text) (checked : Bool)
    → Distinct s.selected
    → Distinct (toggle_model id checked s).selected
unfolding toggle_model
Distinct-toggle_model s id true d = elim (Bool-cases (has s.selected id)) [
  | inl old ↦ rw old d
  | inr new ↦ rw new (Distinct-concat s.selected id d new)
]
Distinct-toggle_model s id false d = Distinct-keep _ s.selected d

add_manual_model-selected :
    (s : Dialog) → Distinct s.selected → Distinct (add_manual_model s).0.selected
unfolding add_manual_model
add_manual_model-selected s d = elim (Bool-cases (is_empty (trim s.manual_model))) [
  | inl e ↦ rw e d
  | inr e ↦ elim (Bool-cases (has s.selected (trim s.manual_model))) [
    | inl old ↦ rw (e, old) d
    | inr new ↦ rw (e, new) (Distinct-concat s.selected (trim s.manual_model) d new)
  ]
]

start_with-selected :
    (o : Option (List Text)) (id : Text) (s : Dialog) → (start_with o id s).0.selected ≡ s.selected
unfolding start_with
start_with-selected none id s = refl
start_with-selected (some ids) id s = refl

show_with-selected :
    (o : Option (List Text)) (id : Text) (s : Dialog) → (show_with o id s).0.selected ≡ s.selected
unfolding show_with start_load
show_with-selected none id s = start_with-selected (get id s.upstream_cache) id _
show_with-selected (some ids) id s = refl

show_detail-selected :
    (o : Option (List Json × Dict (List VoiceEntry))) (id : Text) (s : Dialog)
    → (show_detail o id s).0.selected ≡ s.selected
unfolding show_detail
show_detail-selected none id s = refl
show_detail-selected (some d) id s = show_with-selected _ id _

Distinct-open_manage_models :
    (e : Engine) (c : Channel) (s : Dialog) → Distinct (open_manage_models e c s).0.selected
unfolding open_manage_models parse_model_ids
Distinct-open_manage_models e c s =
    rw (show_detail-selected (parse_models_detail e c.models) c.id (opened_on e c s))
      (Distinct-add_all _ _ (Distinct-unique _))

-- No model is selected twice: opening the dialog selects each model once, and ticking a box,
-- selecting all that is visible and adding a model by hand keep that.
pub selected-Distinct :
    (e : Engine) (c : Channel) (s : Dialog) (id : Text) (checked : Bool)
    → Distinct s.selected
    → Distinct (open_manage_models e c s).0.selected
      × Distinct (toggle_model id checked s).selected
      × Distinct (select_all_visible s).selected
      × Distinct (add_manual_model s).0.selected
unfolding select_all_visible
selected-Distinct e c s id checked d = (
  Distinct-open_manage_models e c s,
  Distinct-toggle_model s id checked d,
  Distinct-unique _,
  add_manual_model-selected s d,
)
