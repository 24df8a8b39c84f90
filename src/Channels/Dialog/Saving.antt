-- ===== src/Channels/Dialog/Saving.antt =====
-- What the dialog saves is what it reads when it is opened again.
use any_gateway.Base.{
  ◌≡◌, refl, ap, ◌∙◌, true, false, Option, none, some, List, [], ◌∷◌, map, All, Bool-cases,
  Option-cases, inl, inr, ◌⊎◌, if◌then◌else◌,
}
use any_gateway.Base.Text.{Text, lit, is_empty, text_eq, text_eq_refl}
use any_gateway.Base.Dict.{
  Dict, Distinct, get, put, get-put, unique, unique_of_Distinct, Distinct-unique, Each, Each-put,
  Each-get,
}
use any_gateway.Json.{
  Json, str, obj, arr, Engine, iterate, fields-to_fields, array_of, Fields, entries_of, to_elems,
  elems-to_elems, member, to_text,
}
use any_gateway.Api.{object}
use any_gateway.Toml.{VoiceEntry}
use any_gateway.Channels.{
  id_or, parse_mapping_keys, parse_voice, parse_voice_list, to_storage_voice, model_id,
  store_voices, detail_entry, entry_name, parse_model_ids,
}
use any_gateway.Channels.Dialog.{
  Dialog, payload_entry, saved_ids, models_payload, entry_id, index_entries, or_text, payload_with,
}

abbrev pub UrlIsStored : Option Text → Type 0
UrlIsStored none = Unit
UrlIsStored (some u) = is_empty u ≡ false

stored_voice :
    (e : Engine) (voice info : Text) (url : Option Text)
    → UrlIsStored url
    → parse_voice e (to_storage_voice (record { voice = voice; info = info; trial_url = url }))
      ≡ some (record { voice = voice; info = info; trial_url = url })
unfolding parse_voice to_storage_voice member to_text get lit text_eq
stored_voice e voice [] none h = refl
stored_voice e voice (c ∷ i) none h = refl
stored_voice e voice [] (some (c ∷ u)) h = refl
stored_voice e voice (d ∷ i) (some (c ∷ u)) h = refl
stored_voice e voice info (some []) h = cc

-- A voice is read back from its stored form.
pub parse_voice-to_storage_voice :
    (e : Engine) (v : VoiceEntry)
    → UrlIsStored v.trial_url
    → parse_voice e (to_storage_voice v) ≡ some v
parse_voice-to_storage_voice e v h = stored_voice e v.voice v.info v.trial_url h

-- A voice that has a name, and no empty trial URL.
abbrev pub IsStorable : VoiceEntry → Type 0
IsStorable v = (is_empty v.voice ≡ false) × UrlIsStored v.trial_url

parse_voice_list-stored :
    (e : Engine) (vs : List VoiceEntry)
    → All IsStorable vs
    → parse_voice_list e (map to_storage_voice vs) ≡ some vs
unfolding parse_voice_list
parse_voice_list-stored e [] h = refl
parse_voice_list-stored e (v ∷ vs) ((n, u), h) =
    rw (parse_voice-to_storage_voice e v u, parse_voice_list-stored e vs h, n)

abbrev stored_entry : Text → List VoiceEntry → Dict Json → Dict Json
stored_entry id vs base =
    put (lit "voices") (arr (to_elems (map to_storage_voice vs))) (put (lit "id") (str id) base)

get-voices :
    (id : Text) (vs : List VoiceEntry) (base : Dict Json)
    → get (lit "voices") (stored_entry id vs base) ≡ some (arr (to_elems (map to_storage_voice vs)))
get-voices id vs base =
    rw (get-put (lit "voices") (lit "voices")) (rw (text_eq_refl (lit "voices")))

get-id :
    (id : Text) (vs : List VoiceEntry) (base : Dict Json)
    → get (lit "id") (stored_entry id vs base) ≡ some (str id)
unfolding lit text_eq
get-id id vs base = rw (get-put (lit "voices") (lit "id")) (rw (get-put (lit "id") (lit "id")))

member-object : (k : Text) (base : Dict Json) → member k (object base) ≡ get k base
unfolding member
member-object k base = ap (get k) (fields-to_fields base)

entry_name-object :
    (e : Engine) (base : Dict Json) (id : Text)
    → get (lit "id") base ≡ some (str id)
    → entry_name e (object base) ≡ id
unfolding to_text
entry_name-object e base id i = rw (member-object (lit "id") base, i)

detail_entry-object :
    (e : Engine) (base : Dict Json) (id : Text) (ws : List Json) (vs : List VoiceEntry)
    (d : Dict (List VoiceEntry))
    → get (lit "voices") base ≡ some (arr (to_elems ws))
    → get (lit "id") base ≡ some (str id)
    → is_empty id ≡ false
    → parse_voice_list e ws ≡ some vs
    → detail_entry e (object base) d ≡ some (put id vs d)
unfolding detail_entry store_voices
detail_entry-object e base id ws vs d v i n p =
    ap (λ (m : Option Json). store_voices e (array_of m) (entry_name e (object base)) d)
      (member-object (lit "voices") base ∙ v)
    ∙ rw (entry_name-object e base id i, elems-to_elems ws, n, p)

-- A saved entry of a speech model gives the model's voices back, under its name.
pub detail_entry-payload_entry :
    (e : Engine) (entries : Dict Json) (voices : Dict (List VoiceEntry)) (id : Text)
    (vs : List VoiceEntry) (d : Dict (List VoiceEntry))
    → get id voices ≡ some vs
    → is_empty id ≡ false
    → All IsStorable vs
    → detail_entry e (payload_entry entries voices id) d ≡ some (put id vs d)
unfolding payload_entry
detail_entry-payload_entry e entries voices id vs d g n h =
    rw (g, payload_entry)
      (detail_entry-object e _ id (map to_storage_voice vs) vs d (get-voices id vs _)
        (get-id id vs _) n (parse_voice_list-stored e vs h))

-- An original entry goes by one name, in the list of models and in the index.
abbrev pub IsNamed : Engine → Json → Type 0
IsNamed e m = entry_id e m ≡ some (model_id e m)

index_entries-named :
    (e : Engine) (ms : List Json) (d d' : Dict Json)
    → index_entries e ms d ≡ some d'
    → All (IsNamed e) ms
    → Each (λ k m. model_id e m ≡ k) d
    → Each (λ k m. model_id e m ≡ k) d'
unfolding index_entries
index_entries-named e [] d d' h n each = let same : d ≡ d' = cc in rw (← same) each
index_entries-named e (m ∷ ms) d d' h (n, ns) each =
    index_entries-named e ms _ d' (rw (n, index_entries) at h) ns
      (named (Bool-cases (is_empty (model_id e m))))
  where
    named :
        (is_empty (model_id e m) ≡ true) ⊎ (is_empty (model_id e m) ≡ false)
        → Each
            (λ k m. model_id e m ≡ k)
            (if is_empty (model_id e m) then d else put (model_id e m) m d)
    named (inl p) = rw p each
    named (inr p) = rw p (Each-put (λ k m. model_id e m ≡ k) (model_id e m) m d refl each)

model_id-object :
    (e : Engine) (base : Dict Json) (id : Text)
    → get (lit "id") base ≡ some (str id)
    → model_id e (object base) ≡ id
unfolding model_id to_text
model_id-object e base id i =
    ap (λ (d : Dict Json). id_or e (get (lit "id") d) (object base)) (fields-to_fields base)
    ∙ ap (λ (o : Option Json). id_or e o (object base)) i

model_id-or_text :
    (e : Engine) (o : Option Json) (id : Text)
    → ((m : Json) → o ≡ some m → model_id e m ≡ id)
    → model_id e (or_text o id) ≡ id
unfolding model_id to_text
model_id-or_text e none id h = refl
model_id-or_text e (some m) id h = h m refl

model_id-payload_entry :
    (e : Engine) (entries : Dict Json) (voices : Dict (List VoiceEntry)) (id : Text)
    → Each (λ k m. model_id e m ≡ k) entries
    → model_id e (payload_entry entries voices id) ≡ id
unfolding payload_entry
model_id-payload_entry e entries voices id each = elim (Option-cases (get id voices)) [
  | inl p ↦
      rw (p, payload_entry)
        (model_id-or_text e (get id entries) id
          λ m g. Each-get (λ k m. model_id e m ≡ k) id m entries g each)
  | inr (vs, p) ↦ rw (p, payload_entry) (model_id-object e _ id (get-id id vs _))
]

map-model_id :
    (e : Engine) (entries : Dict Json) (voices : Dict (List VoiceEntry)) (ids : List Text)
    → Each (λ k m. model_id e m ≡ k) entries
    → map (model_id e) (map (payload_entry entries voices) ids) ≡ ids
map-model_id e entries voices [] each = refl
map-model_id e entries voices (id ∷ ids) each =
    cc (model_id-payload_entry e entries voices id each, map-model_id e entries voices ids each)

map-models_payload :
    (e : Engine) (s : Dialog) (o : Option (Dict Json)) (payload : List Json)
    → index_entries e s.original_entries [] ≡ o
    → payload_with o s ≡ some payload
    → All (IsNamed e) s.original_entries
    → map (model_id e) payload ≡ saved_ids s
map-models_payload e s none payload i h n = cc
map-models_payload e s (some entries) payload i h n =
    let same : map (payload_entry entries s.model_voices) (saved_ids s) ≡ payload = cc in
    rw (← same) (
      map-model_id e entries s.model_voices (saved_ids s)
        (index_entries-named e s.original_entries [] entries i n tt))

Distinct-saved_ids : (s : Dialog) → Distinct (saved_ids s)
unfolding saved_ids
Distinct-saved_ids s = Distinct-unique _

-- The models that the dialog saves are read back: what `JSON.parse` makes of the saved text is the
-- list that was written, and every original entry goes by one name.
pub parse_model_ids-models_payload :
    (e : Engine) (s : Dialog) (payload : List Json)
    → models_payload e s ≡ some payload
    → All (IsNamed e) s.original_entries
    → is_empty (e.stringify (arr (to_elems payload))) ≡ false
    → e.parse (e.stringify (arr (to_elems payload))) ≡ some (arr (to_elems payload))
    → e.parse (lit "{}") ≡ some (obj Fields.end)
    → parse_model_ids e (some (e.stringify (arr (to_elems payload)))) none ≡ saved_ids s
unfolding parse_model_ids parse_mapping_keys unique models_payload entries_of iterate
parse_model_ids-models_payload e s payload h n t p b =
    let ids = map-models_payload e s _ payload refl h n in
    rw (t, p, b, elems-to_elems payload, ids)
      (unique_of_Distinct (saved_ids s) (Distinct-saved_ids s))
