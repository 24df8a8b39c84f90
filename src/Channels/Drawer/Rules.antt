-- ===== src/Channels/Drawer/Rules.antt =====
-- The rules of a channel's mapping: which are sent, and what is read back.
use mathlib.Core.List.{append_assoc, append-nil}
use any_gateway.Base.{
  suc, ◌+◌, ◌≡◌, ◌≤◌, refl, ap, ◌∙◌, sym, Bool, true, false, ◌==◌, Option, none, some, List, [],
  ◌∷◌, ◌++◌, map, length, length-append, arith, All, Bool-cases, inl, inr,
}
use any_gateway.Base.Text.{Text, is_empty, trim}
use any_gateway.Base.Dict.{
  Dict, Distinct, has, put-new, keys, add, add_all, unique, Distinct-concat, has-prefix,
}
use any_gateway.Json.{Json, str, Engine, entries_of, fields-to_fields}
use any_gateway.Api.{Reply, Effect, call, object}
use any_gateway.Channels.{Mapping, parse_mappings, to_mappings}
use any_gateway.Channels.Drawer.{
  Drawer, Values, Check, fine, refused, thrown, check_rules, check_complete, check_distinct,
  check_to, also, from_of, trimmed, mapping_object, mapping_text, handle_submit, submit_checked,
}

length-add : (k : Text) (ks : List Text) → length (add k ks) ≤ suc (length ks)
unfolding add
length-add k ks = ground (arith, length-append ks (k ∷ []))

length-add_all : (js ks : List Text) → length (add_all js ks) ≤ length ks + length js
unfolding add_all
length-add_all [] ks = omega arith
length-add_all (j ∷ js) ks = omega (arith, length-add_all js (add j ks), length-add j ks)

Distinct-of_size :
    (js ks : List Text)
    → length (add_all js ks) ≡ length ks + length js
    → Distinct ks
    → Distinct (ks ++ js)
unfolding add_all add
Distinct-of_size [] ks h d = rw (append-nil ks) d
Distinct-of_size (j ∷ js) ks h d = elim (Bool-cases (has ks j)) [
  | inl old ↦
      let le = length-add_all js ks in
      let h' : length (add_all js ks) ≡ length ks + suc (length js) = rw old at h in
      absurd (omega arith)
  | inr new ↦
      let h' : length (add_all js (ks ++ j ∷ [])) ≡ length ks + suc (length js) = rw new at h in
      rw (← append_assoc ks (j ∷ []) js) (
        Distinct-of_size js (ks ++ j ∷ []) (omega (arith, length-append ks (j ∷ [])))
          (Distinct-concat ks j d new))
]

refused-fine : (t : Text) → refused t ≡ fine → ⊥
refused-fine t h = cc

-- The keys of the rules are as many as the rules only if no two are equal.
Distinct-check : (ms : List Mapping) → check_distinct ms ≡ fine → Distinct (map from_of ms)
unfolding check_distinct unique
Distinct-check ms h =
    elim (Bool-cases (length (add_all (map from_of ms) []) == length (map from_of ms))) [
      | inl e ↦ Distinct-of_size (map from_of ms) [] (ground arith) tt
      | inr e ↦ absurd (refused-fine _ (rw e at h))
    ]

abbrev IsFilled : Json → Type 0
IsFilled (str t) = is_empty (trim t) ≡ false
IsFilled v = ⊥

-- Both sides of the rule are texts that are not blank.
abbrev pub IsComplete : Mapping → Type 0
IsComplete m = (is_empty (trim m.from) ≡ false) × IsFilled m.to

check_to-IsFilled : (v : Json) (rest : Check) → check_to v rest ≡ fine → IsFilled v × (rest ≡ fine)
check_to-IsFilled (str t) rest h = elim (Bool-cases (is_empty (trim t))) [
  | inl e ↦ absurd (refused-fine _ (rw e at h))
  | inr e ↦ (e, rw e at h)
]
check_to-IsFilled Json.null rest h = cc
check_to-IsFilled (Json.bool b) rest h = cc
check_to-IsFilled (Json.num n) rest h = cc
check_to-IsFilled (Json.arr vs) rest h = cc
check_to-IsFilled (Json.obj fs) rest h = cc

check_complete-IsComplete : (ms : List Mapping) → check_complete ms ≡ fine → All IsComplete ms
unfolding check_complete
check_complete-IsComplete [] h = tt
check_complete-IsComplete (m ∷ ms) h = elim (Bool-cases (is_empty (trim m.from))) [
  | inl e ↦ absurd (refused-fine _ (rw e at h))
  | inr e ↦
      let (f, r) = check_to-IsFilled m.to (check_complete ms) (rw e at h) in
      ((e, f), check_complete-IsComplete ms r)
]

also-fine : (c d : Check) → also c d ≡ fine → (c ≡ fine) × (d ≡ fine)
also-fine fine d h = (refl, h)
also-fine (refused t) d h = cc
also-fine thrown d h = cc

check_rules-fine :
    (ms : List Mapping) → check_rules ms ≡ fine → All IsComplete ms × Distinct (map from_of ms)
unfolding check_rules
check_rules-fine ms h =
    let (c, d) = also-fine (check_complete ms) (check_distinct ms) h in
    (check_complete-IsComplete ms c, Distinct-check ms d)

-- One of the effects is a request.
abbrev pub calls : List Effect → Bool
calls [] = false
calls (call c ∷ es) = true
calls (_ ∷ es) = calls es

submit_checked-calls :
    (c : Check) (e : Engine) (v : Values) (reply : Reply) (s : Drawer)
    → calls (submit_checked c e v reply s).1 ≡ true
    → c ≡ fine
submit_checked-calls fine e v reply s h = refl
submit_checked-calls (refused t) e v reply s h = cc
submit_checked-calls thrown e v reply s h = cc

-- Where submitting the form makes a request, both sides of every rule of the mapping are texts that
-- are not blank, and no two rules have the same name on the left.
pub handle_submit-calls :
    (e : Engine) (values : Option Values) (reply : Reply) (s : Drawer)
    → calls (handle_submit e values reply s).1 ≡ true
    → All IsComplete s.mappings × Distinct (map from_of s.mappings)
unfolding handle_submit
handle_submit-calls e none reply s h = cc
handle_submit-calls e (some v) reply s h =
    check_rules-fine s.mappings (submit_checked-calls (check_rules s.mappings) e v reply _ h)

-- The rules with their sides trimmed.
abbrev pub trimmed_rules : List Mapping → List Mapping
trimmed_rules [] = []
trimmed_rules (m ∷ ms) = record { from = trim m.from; to = trimmed m.to } ∷ trimmed_rules ms

abbrev pairs : List Mapping → Dict Json
pairs [] = []
pairs (m ∷ ms) = (trim m.from, trimmed m.to) ∷ pairs ms

keys-concat : (d : Dict Json) (k : Text) (v : Json) → keys (d ++ (k, v) ∷ []) ≡ keys d ++ k ∷ []
keys-concat [] k v = refl
keys-concat ((j, w) ∷ d) k v = ap (λ (r : List Text). j ∷ r) (keys-concat d k v)

mapping_object-pairs :
    (ms : List Mapping) (d : Dict Json)
    → Distinct (keys d ++ map from_of ms)
    → mapping_object ms d ≡ d ++ pairs ms
unfolding mapping_object
mapping_object-pairs [] d u = sym (append-nil d)
mapping_object-pairs (m ∷ ms) d u =
    rw
      (put-new d (trim m.from) (trimmed m.to)
        (has-prefix (keys d) (trim m.from) (map from_of ms) u))
      (mapping_object-pairs ms (d ++ (trim m.from, trimmed m.to) ∷ []) (
          rw
            (
              keys-concat d (trim m.from) (trimmed m.to),
              append_assoc (keys d) (trim m.from ∷ []) (map from_of ms),
            )
            u)
        ∙ append_assoc d ((trim m.from, trimmed m.to) ∷ []) (pairs ms))

to_mappings-pairs : (ms : List Mapping) → to_mappings (pairs ms) ≡ trimmed_rules ms
to_mappings-pairs [] = refl
to_mappings-pairs (m ∷ ms) =
    ap (λ (r : List Mapping). record { from = trim m.from; to = trimmed m.to } ∷ r)
      (to_mappings-pairs ms)

-- The rules that the drawer sends are the rules, trimmed, that it shows when it is opened on the
-- saved channel: where they pass the checks, and `JSON.parse` reads back what was written.
pub parse_mappings-mapping_text :
    (e : Engine) (ms : List Mapping)
    → check_rules ms ≡ fine
    → is_empty (mapping_text e ms) ≡ false
    → e.parse (mapping_text e ms) ≡ some (object (mapping_object ms []))
    → parse_mappings e (some (mapping_text e ms)) ≡ trimmed_rules ms
unfolding parse_mappings entries_of
parse_mappings-mapping_text e ms h f p =
    rw
      (
        f,
        p,
        fields-to_fields (mapping_object ms []),
        mapping_object-pairs ms [] (check_rules-fine ms h).1,
      )
      (to_mappings-pairs ms)
