-- ===== src/Chat/Models.antt =====
-- The keys and models to choose from, of apps/react/src/pages/Chat/index.tsx.
use any_gateway.Base.{
  ◌≡◌, ◌∙◌, Bool, true, false, not, ◌&&◌, ◌||◌, Option, none, some, List, [], ◌∷◌, keep, any, arith,
  if◌then◌else◌, Bool-cases, inl, inr,
}
use any_gateway.Base.Text.{Text, lit, is_empty, text_eq, text_eq_iff}
use any_gateway.Base.Dict.{Dict, has, get, put, keys, add, get-put, has-add}
use any_gateway.Base.Sort.{sort_by, text_le}
use any_gateway.Json.{Json, truthy, member, present, array_of}
use any_gateway.Api.{Reply, fulfilled, rejected}

-- An element of the list of `/v1/models`.
pub record ModelInfo : Type 0 where
  pub id : Option Text
  pub owned_by : Option Text

-- What `fetch('/v1/models')` gives: a response that is ok with its list, one that is not, or
-- nothing.
pub data Listing : Type 0 where
  listed : List ModelInfo → Listing
  refused failed : Listing

-- The state hooks of the choice.
pub record Choice : Type 0 where
  pub chosen_keys : List Json
  pub all_models : List Text
  pub providers : List Text
  pub provider_models : Dict (List Text)

abbrev key_kept : Json → Bool
key_kept k = elim (member (lit "frozen") k) [ none ↦ true | some f ↦ not (truthy f) ]

-- `loadKeys` behind its `await`
unfoldable pub load_keys : Reply → Choice → Choice
load_keys (rejected _) s = s
load_keys (fulfilled v) s =
    let raw : Option Json = elim (present (member (lit "data") v)) [
      | none ↦ some v
      | some d ↦ some d
    ] in
    record s { chosen_keys = elim (array_of raw) [ none ↦ [] | some ks ↦ keep key_kept ks ] }

abbrev filled : Option Text → Option Text
filled none = none
filled (some t) = if is_empty t then none else some t

abbrev cons_filled : Option Text → List Text → List Text
cons_filled none ts = ts
cons_filled (some t) ts = t ∷ ts

-- `data.map(m => m.id).filter(Boolean)`
unfoldable pub model_ids : List ModelInfo → List Text
model_ids [] = []
model_ids (m ∷ ms) = cons_filled (filled m.id) (model_ids ms)

abbrev pub or_none : Option (List Text) → List Text
or_none none = []
or_none (some ts) = ts

abbrev add_owned : Option Text → Option Text → Dict (List Text) → Dict (List Text)
add_owned none p d = d
add_owned (some id) none d = d
add_owned (some id) (some p) d = put p (add id (or_none (get p d))) d

-- The loop that fills `map`.
unfoldable pub owned_models : List ModelInfo → Dict (List Text) → Dict (List Text)
owned_models [] d = d
owned_models (m ∷ ms) d = owned_models ms (add_owned (filled m.id) (filled m.owned_by) d)

-- `loadModels` behind its `await`
unfoldable pub load_models : Listing → Choice → Choice
load_models (listed ms) s = record s {
  all_models = model_ids ms;
  provider_models = owned_models ms [];
  providers = sort_by text_le (keys (owned_models ms []));
}
load_models refused s = record s { all_models = []; provider_models = []; providers = [] }
load_models failed s = s

-- `filteredModels`
unfoldable pub filtered_models : Option Text → Choice → List Text
filtered_models none s = s.all_models
filtered_models (some p) s = if is_empty p then s.all_models else or_none (get p s.provider_models)

abbrev is_text : Text → Option Text → Bool
is_text t none = false
is_text t (some u) = text_eq u t

-- The model has this name and this owner.
abbrev pub is_owned : Text → Text → ModelInfo → Bool
is_owned p id m = is_text id (filled m.id) && is_text p (filled m.owned_by)

owned-add_owned :
    (i o : Option Text) (d : Dict (List Text)) (p id : Text)
    → has (or_none (get p (add_owned i o d))) id
      ≡ (has (or_none (get p d)) id || (is_text id i && is_text p o))
owned-add_owned none o d p id = ground arith
owned-add_owned (some i) none d p id = ground arith
owned-add_owned (some i) (some o) d p id = elim (Bool-cases (text_eq o p)) [
  | inl e ↦
      let same = (text_eq_iff o p).0 e in
      rw (get-put o p, e) (rw (has-add i (or_none (get o d)) id, same) (ground arith))
  | inr e ↦ rw (get-put o p, e) (ground arith)
]

owned_models-has :
    (ms : List ModelInfo) (d : Dict (List Text)) (p id : Text)
    → has (or_none (get p (owned_models ms d))) id
      ≡ (has (or_none (get p d)) id || any (is_owned p id) ms)
unfolding owned_models
owned_models-has [] d p id = ground arith
owned_models-has (m ∷ ms) d p id =
    owned_models-has ms (add_owned (filled m.id) (filled m.owned_by) d) p id
    ∙ ground (arith, owned-add_owned (filled m.id) (filled m.owned_by) d p id)

-- With a provider chosen, the models to choose from are just those that the server lists under a
-- name that is not empty and with this provider as their owner.
pub filtered_models-listed :
    (ms : List ModelInfo) (s : Choice) (p id : Text)
    → is_empty p ≡ false
    → has (filtered_models (some p) (load_models (listed ms) s)) id ≡ any (is_owned p id) ms
unfolding filtered_models load_models get has
filtered_models-listed ms s p id h = rw h (owned_models-has ms [] p id)
