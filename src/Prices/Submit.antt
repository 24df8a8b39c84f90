-- ===== src/Prices/Submit.antt =====
-- The requests of a submit on the page of the prices, read the way the server reads them: by their
-- methods, addresses and bodies.
use any_gateway.Base.{
  ℕ, zero, suc, leb, length, drop, drop-append_length, map, ◌≡◌, refl, ap, sym, ◌∙◌, Bool, true,
  false, ◌||◌, Option, none, some, List, [], ◌∷◌, ◌++◌, arith, All, if◌then◌else◌, Bool-cases, ◌⊎◌,
  inl, inr,
}
use any_gateway.Base.Text.{Text, lit, text_eq}
use any_gateway.Base.Dict.{has, get, has-append}
use any_gateway.Json.{Json, num, str, member, member?}
use any_gateway.Api.{
  requests, Method, post, patch, delete, Call, Effect, Notice, notify, reload, object, create_price,
  update_price, delete_price,
}
use any_gateway.Prices.{PriceRow, ModelGroup}
use any_gateway.Prices.Editing.{
  PriceMode, token, request, audio_second, character, Values, Meta, Op, remove, set, create,
  stale_units, Form, called, call_of, meta_fields, handle_submit, edit_ops,
}
use any_gateway.Prices.Billing.{served, all_served, IsUnstale, edit_ops-IsUnstale}

abbrev token_units : List Text
token_units =
    lit "input_token"
    ∷ lit "output_token"
    ∷ lit "cache_read_token"
    ∷ lit "cache_write_token"
    ∷ lit "extra_context_token"
    ∷ []

-- The mode in which a row with this unit is billed, if there is one.
abbrev pub billing_of : Text → Option PriceMode
billing_of u =
    if has token_units u
    then some token
    else if text_eq (lit "request") u
    then some request
    else if text_eq (lit "audio_second") u
    then some audio_second
    else if text_eq (lit "character") u
    then some character
    else none

abbrev same_mode : PriceMode → PriceMode → Bool
same_mode token token = true
same_mode request request = true
same_mode audio_second audio_second = true
same_mode character character = true
same_mode _ _ = false

abbrev pub is_billed_by : PriceMode → Text → Bool
is_billed_by mode u = elim (billing_of u) [ none ↦ true | some m ↦ same_mode m mode ]

-- The row is billed in the mode, or its unit is none of any mode.
abbrev pub IsBilledBy : PriceMode → PriceRow → Type 0
IsBilledBy mode r = is_billed_by mode r.unit ≡ true

neither : (a b : Bool) → (a || b) ≡ false → (a ≡ false) × (b ≡ false)
neither a b h = ground arith

has_none :
    (k : Text) (ks : List Text) (u : Text)
    → has (k ∷ ks) u ≡ false
    → (text_eq k u ≡ false) × (has ks u ≡ false)
unfolding has
has_none k ks u h = neither (text_eq k u) (has ks u) h

stale_of : (mode : PriceMode) → List Text
stale_of token = lit "request" ∷ lit "audio_second" ∷ lit "character" ∷ []
stale_of request = token_units ++ lit "audio_second" ∷ lit "character" ∷ []
stale_of audio_second = token_units ++ lit "request" ∷ lit "character" ∷ []
stale_of character = token_units ++ lit "request" ∷ lit "audio_second" ∷ []

stale_units-modes : (mode : PriceMode) → stale_units mode ≡ stale_of mode
unfolding stale_units has lit text_eq stale_of
stale_units-modes token = refl
stale_units-modes request = refl
stale_units-modes audio_second = refl
stale_units-modes character = refl

has_neither :
    (ks : List Text) (a b u : Text)
    → has (ks ++ a ∷ b ∷ []) u ≡ false
    → (has ks u ≡ false) × (text_eq a u ≡ false) × (text_eq b u ≡ false)
has_neither ks a b u h =
    let (k, l) = neither (has ks u) (has (a ∷ b ∷ []) u) (sym (has-append ks (a ∷ b ∷ []) u) ∙ h) in
    let (x, m) = has_none a (b ∷ []) u l in (k, x, (has_none b [] u m).0)

is_billed_by-stale_of :
    (mode : PriceMode) (u : Text) → has (stale_of mode) u ≡ false → is_billed_by mode u ≡ true
unfolding stale_of has text_eq lit
is_billed_by-stale_of token u h =
    let (a, h1) = has_none (lit "request") (lit "audio_second" ∷ lit "character" ∷ []) u h in
    let (b, h2) = has_none (lit "audio_second") (lit "character" ∷ []) u h1 in
    let (c, h3) = has_none (lit "character") [] u h2 in
    elim (Bool-cases (has token_units u)) [ inl t ↦ rw t refl | inr t ↦ rw (t, a, b, c) refl ]
is_billed_by-stale_of request u h =
    let (k, a, b) = has_neither token_units (lit "audio_second") (lit "character") u h in
    elim (Bool-cases (text_eq (lit "request") u)) [
      | inl t ↦ rw (k, t) refl
      | inr t ↦ rw (k, t, a, b) refl
    ]
is_billed_by-stale_of audio_second u h =
    let (k, a, b) = has_neither token_units (lit "request") (lit "character") u h in
    elim (Bool-cases (text_eq (lit "audio_second") u)) [
      | inl t ↦ rw (k, a, t) refl
      | inr t ↦ rw (k, a, t, b) refl
    ]
is_billed_by-stale_of character u h =
    let (k, a, b) = has_neither token_units (lit "request") (lit "audio_second") u h in
    elim (Bool-cases (text_eq (lit "character") u)) [
      | inl t ↦ rw (k, a, b, t) refl
      | inr t ↦ rw (k, a, b, t) refl
    ]

is_billed_by-stale :
    (mode : PriceMode) (u : Text) → has (stale_units mode) u ≡ false → is_billed_by mode u ≡ true
is_billed_by-stale mode u h =
    is_billed_by-stale_of mode u
      (ap (λ (ks : List Text). has ks u) (sym (stale_units-modes mode)) ∙ h)

All-IsBilledBy :
    (mode : PriceMode) (rows : List PriceRow)
    → All (IsUnstale mode) rows
    → All (IsBilledBy mode) rows
All-IsBilledBy mode [] h = tt
All-IsBilledBy mode (r ∷ rs) (s, h) = (is_billed_by-stale mode r.unit s, All-IsBilledBy mode rs h)

abbrev id_in : Text → Text
id_in url = drop (length (lit "/admin/model-prices/")) url

abbrev number_of : Option Json → Option ℕ
number_of (some (num n)) = some n
number_of v = none

abbrev text_of : Option Json → Option Text
text_of (some (str t)) = some t
text_of v = none

abbrev price_of : Option ℕ → ℕ
price_of none = 0
price_of (some n) = n

abbrev or_blank : Option Text → Text
or_blank none = []
or_blank (some t) = t

abbrev meta_in : Option Json → Meta
meta_in body = record {
  context_length = number_of (member? (lit "context_length") body);
  vendor = text_of (member? (lit "vendor") body);
  stability = text_of (member? (lit "stability") body);
}

abbrev price_in : Option Json → ℕ
price_in body = price_of (number_of (member? (lit "price_per_unit") body))

abbrev text_in : Text → Option Json → Text
text_in name body = or_blank (text_of (member? name body))

-- What the server does: a deletion and a change go by the identifier in the address.
abbrev served_by : Method → Text → Option Json → List PriceRow → List PriceRow
served_by delete url body rows = served (remove (id_in url)) rows
served_by patch url body rows = served (set (id_in url) (price_in body) (meta_in body)) rows
served_by post url body rows =
    served
      (create (text_in (lit "model_name") body) (text_in (lit "unit") body) (price_in body)
        (meta_in body))
      rows
served_by _ url body rows = rows

-- The server's rows of the model behind these requests.
abbrev pub received : List Call → List PriceRow → List PriceRow
received [] rows = rows
received (c ∷ cs) rows = received cs (served_by c.method c.url c.body rows)

reading : Unit {0}
unfolding member member? get lit text_eq
reading = tt

set-body :
    (price : ℕ) (c : Option ℕ) (v s : Option Text)
    → let m : Meta = record { context_length = c; vendor = v; stability = s } in
      meta_in (some (object ((lit "price_per_unit", num price) ∷ meta_fields m))) ≡ m
unfolding reading
set-body price none none none = refl
set-body price none none (some s) = refl
set-body price none (some v) none = refl
set-body price none (some v) (some s) = refl
set-body price (some c) none none = refl
set-body price (some c) none (some s) = refl
set-body price (some c) (some v) none = refl
set-body price (some c) (some v) (some s) = refl

create-body :
    (model u : Text) (price : ℕ) (c : Option ℕ) (v s : Option Text)
    → let m : Meta = record { context_length = c; vendor = v; stability = s } in
      meta_in (
        some (
          object (
            (lit "model_name", str model)
            ∷ (lit "unit", str u)
            ∷ (lit "price_per_unit", num price)
            ∷ meta_fields m)))
      ≡ m
unfolding reading
create-body model u price none none none = refl
create-body model u price none none (some s) = refl
create-body model u price none (some v) none = refl
create-body model u price none (some v) (some s) = refl
create-body model u price (some c) none none = refl
create-body model u price (some c) none (some s) = refl
create-body model u price (some c) (some v) none = refl
create-body model u price (some c) (some v) (some s) = refl

served_by-call_of :
    (o : Op) (rows : List PriceRow)
    → served_by (call_of o).method (call_of o).url (call_of o).body rows ≡ served o rows
unfolding call_of create_price update_price delete_price member member? get lit text_eq
served_by-call_of (remove id) rows =
    ap (λ i. served (remove i) rows) (drop-append_length (lit "/admin/model-prices/") id)
served_by-call_of (set id price m) rows =
    ap (λ i. served (set i price (meta_in (call_of (set id price m)).body)) rows)
      (drop-append_length (lit "/admin/model-prices/") id)
    ∙ ap (λ b. served (set id price b) rows) (set-body price m.context_length m.vendor m.stability)
served_by-call_of (create model u price m) rows =
    ap (λ b. served (create model u price b) rows)
      (create-body model u price m.context_length m.vendor m.stability)

received-call_of :
    (os : List Op) (rows : List PriceRow) → received (map call_of os) rows ≡ all_served os rows
received-call_of [] rows = refl
received-call_of (o ∷ os) rows =
    ap (received (map call_of os)) (served_by-call_of o rows) ∙ received-call_of os (served o rows)

requests-all :
    (n : ℕ) (os : List Op) (more : List Effect)
    → requests more ≡ []
    → leb (length os) n ≡ true
    → requests (called n os ++ more) ≡ map call_of os
unfolding called
requests-all n [] more h l = h
requests-all zero (o ∷ os) more h l = absurd (ground arith)
requests-all (suc n) (o ∷ os) more h l =
    ap (λ (r : List Call). call_of o ∷ r) (requests-all n os more h (ground arith))

length-requests :
    (n : ℕ) (os : List Op) (more : List Effect)
    → requests more ≡ []
    → leb (length os) n ≡ false
    → length (requests (called n os ++ more)) ≡ suc n
unfolding called
length-requests n [] more h l = absurd (ground arith)
length-requests zero (o ∷ os) more h l = rw h refl
length-requests (suc n) (o ∷ os) more h l = ap suc (length-requests n os more h (ground arith))

length-map : (os : List Op) → length (map call_of os) ≡ length os
length-map [] = refl
length-map (o ∷ os) = ap suc (length-map os)

-- The form of a model is submitted, and the server grants the first `n` requests. Either it grants
-- all that are made: the form is closed, and each row that the server then has for the model is
-- billed in the chosen mode or has a unit of no mode, whichever modes the rows had before. Or the
-- request behind the first `n` is made and fails: it is the last one, and the form stays open.
pub handle_submit-IsBilledBy :
    (n : ℕ) (v : Values) (s : Form) (g : ModelGroup)
    → s.editing ≡ some g
    → s.visible ≡ true
    → (((handle_submit n v s).0.visible ≡ false)
        × (leb (length (requests (handle_submit n v s).1)) n ≡ true)
        × All (IsBilledBy s.mode) (received (requests (handle_submit n v s).1) g.rows))
      ⊎ ((handle_submit n v s).0.visible ≡ true)
        × (length (requests (handle_submit n v s).1) ≡ suc n)
unfolding handle_submit
handle_submit-IsBilledBy n v s g e h = elim (Bool-cases (leb (length (edit_ops s.mode v g)) n)) [
  | inl p ↦
      let done = notify (Notice.success (lit "已更新")) ∷ reload ∷ [] in
      let all = requests-all n (edit_ops s.mode v g) done refl p in
      rw (e, p, all)
        (inl (
          refl,
          rw (length-map (edit_ops s.mode v g)) p,
          rw (received-call_of (edit_ops s.mode v g) g.rows)
              (All-IsBilledBy s.mode _ (edit_ops-IsUnstale s.mode v g)),
        ))
  | inr p ↦ rw (e, p) (inr (h, length-requests n (edit_ops s.mode v g) _ refl p))
]
