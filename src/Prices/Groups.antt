-- ===== src/Prices/Groups.antt =====
-- `groupByModel`: what the groups are.
use mathlib.Core.List.{append_assoc, append-nil}
use any_gateway.Base.{
  ℕ, ◌≡◌, refl, ap, ◌∙◌, sym, Bool, true, ◌||◌, Option, none, some, List, [], ◌∷◌, ◌++◌, map, any,
  keep, arith, All, if◌then◌else◌, Bool-cases, inl, inr,
}
use any_gateway.Base.Text.{Text, lit, text_eq, text_eq_iff, text_eq_refl}
use any_gateway.Base.Dict.{
  Dict, has, get, put, keys, values, Distinct, get-put, has-keys-put, Distinct-keys-put, Each,
  Each-of_get,
}
use any_gateway.Base.Sort.{All-sort_by, Distinct-sort_by, has-sort_by}
use any_gateway.Prices.{
  PriceRow, ModelGroup, known_units, add_row, or_new, collect, by_name, name_of, group_by_model,
}
use any_gateway.Prices.Editing.{row_by_unit}

-- The row is of this model.
abbrev pub is_of : Text → PriceRow → Bool
is_of name r = text_eq r.model_name name

abbrev pub price_of : Option PriceRow → Option ℕ
price_of none = none
price_of (some r) = some r.price_per_unit

-- The price of a unit is that of the last row with the unit.
abbrev ShowsPrice : ModelGroup → Text → Type 0
ShowsPrice g u = get u g.prices ≡ price_of (row_by_unit u g.rows)

-- The group has the rows of its model, in their order, and of every known unit the price of the
-- last row with this unit.
abbrev pub IsGroup : List PriceRow → ModelGroup → Type 0
IsGroup rows g = (g.rows ≡ keep (is_of g.model_name) rows) × All (λ u. ShowsPrice g u) known_units

row_by_unit-append :
    (u : Text) (rs : List PriceRow) (r : PriceRow)
    → row_by_unit u (rs ++ r ∷ []) ≡ (if text_eq r.unit u then some r else row_by_unit u rs)
unfolding row_by_unit
row_by_unit-append u [] r = ground arith
row_by_unit-append u (q ∷ rs) r = elim (Bool-cases (text_eq r.unit u)) [
  | inl e ↦ rw (row_by_unit-append u rs r, e) refl
  | inr e ↦ rw (row_by_unit-append u rs r, e) refl
]

add_row-ShowsPrice :
    (r : PriceRow) (g : ModelGroup) (u : Text)
    → has known_units u ≡ true
    → ShowsPrice g u
    → ShowsPrice (add_row r g) u
unfolding add_row get
add_row-ShowsPrice r g u k h = elim (Bool-cases (text_eq r.unit u)) [
  | inl e ↦
      let same = (text_eq_iff r.unit u).0 e in
      rw (row_by_unit-append u g.rows r, e, same, k)
        (get-put u u r.price_per_unit g.prices ∙ rw (text_eq_refl u) refl)
  | inr e ↦ elim (Bool-cases (has known_units r.unit)) [
    | inl k' ↦
        rw (row_by_unit-append u g.rows r, e, k')
          (get-put r.unit u r.price_per_unit g.prices ∙ rw e h)
    | inr k' ↦ rw (row_by_unit-append u g.rows r, e, k') h
  ]
]

-- The group that a table of groups has for a name, or a new one.
abbrev group_at : Text → Dict ModelGroup → ModelGroup
group_at name d = or_new name (get name d)

-- What the loop keeps, when it has seen `rows`.
record Collected (rows : List PriceRow) (d : Dict ModelGroup) : Type 0 where
  distinct : Distinct (keys d)
  named : (name : Text) → (group_at name d).model_name ≡ name
  kept : (name : Text) → (group_at name d).rows ≡ keep (is_of name) rows
  priced : (name u : Text) → has known_units u ≡ true → ShowsPrice (group_at name d) u
  present : (name : Text) → has (keys d) name ≡ any (is_of name) rows

keep-concat :
    (name : Text) (rows : List PriceRow) (r : PriceRow)
    → keep (is_of name) (rows ++ r ∷ [])
      ≡ keep (is_of name) rows ++ (if is_of name r then r ∷ [] else [])
keep-concat name [] r = ground arith
keep-concat name (q ∷ rows) r = ground (arith, keep-concat name rows r)

any-concat :
    (name : Text) (rows : List PriceRow) (r : PriceRow)
    → any (is_of name) (rows ++ r ∷ []) ≡ (any (is_of name) rows || is_of name r)
any-concat name [] r = ground arith
any-concat name (q ∷ rows) r = ground (arith, any-concat name rows r)

abbrev with_row : PriceRow → Dict ModelGroup → Dict ModelGroup
with_row r d = put r.model_name (add_row r (group_at r.model_name d)) d

group_at-with_row :
    (r : PriceRow) (d : Dict ModelGroup) (name : Text)
    → group_at name (with_row r d)
      ≡ (if is_of name r then add_row r (group_at r.model_name d) else group_at name d)
group_at-with_row r d name = elim (Bool-cases (text_eq r.model_name name)) [
  | inl e ↦ rw (get-put r.model_name name, e) refl
  | inr e ↦ rw (get-put r.model_name name, e) refl
]

module _ (rows : List PriceRow) (r : PriceRow) (d : Dict ModelGroup) (c : Collected rows d) where
  with_row-named : (name : Text) → (group_at name (with_row r d)).model_name ≡ name
  unfolding add_row
  with_row-named name = elim (Bool-cases (text_eq r.model_name name)) [
    | inl e ↦ rw (group_at-with_row r d name, e) (c.named r.model_name ∙ (text_eq_iff _ _).0 e)
    | inr e ↦ rw (group_at-with_row r d name, e) (c.named name)
  ]

  with_row-kept :
      (name : Text) → (group_at name (with_row r d)).rows ≡ keep (is_of name) (rows ++ r ∷ [])
  unfolding add_row
  with_row-kept name = elim (Bool-cases (text_eq r.model_name name)) [
    | inl e ↦
        let same = (text_eq_iff r.model_name name).0 e in
        rw (group_at-with_row r d name, keep-concat name rows r, e)
          (ap (λ (rs : List PriceRow). rs ++ r ∷ []) (c.kept r.model_name ∙ rw same refl))
    | inr e ↦
        rw (group_at-with_row r d name, keep-concat name rows r, e)
          (c.kept name ∙ sym (append-nil (keep (is_of name) rows)))
  ]

  with_row-priced :
      (name u : Text) → has known_units u ≡ true → ShowsPrice (group_at name (with_row r d)) u
  with_row-priced name u k = elim (Bool-cases (text_eq r.model_name name)) [
    | inl e ↦
        rw (group_at-with_row r d name, e)
          (add_row-ShowsPrice r (group_at r.model_name d) u k (c.priced r.model_name u k))
    | inr e ↦ rw (group_at-with_row r d name, e) (c.priced name u k)
  ]

  with_row-Collected : Collected (rows ++ r ∷ []) (with_row r d)
  with_row-Collected = record {
    distinct = Distinct-keys-put r.model_name _ d c.distinct;
    named = with_row-named;
    kept = with_row-kept;
    priced = with_row-priced;
    present = λ name.
        has-keys-put r.model_name name _ d ∙ ground (arith, c.present name, any-concat name rows r);
  }

collect-Collected :
    (seen rows : List PriceRow) (d : Dict ModelGroup)
    → Collected seen d
    → Collected (seen ++ rows) (collect rows d)
unfolding collect
collect-Collected seen [] d c = rw (append-nil seen) c
collect-Collected seen (r ∷ rows) d c =
    rw (← append_assoc seen (r ∷ []) rows)
      (collect-Collected (seen ++ r ∷ []) rows (with_row r d) (with_row-Collected seen r d c))

nothing-Collected : Collected [] []
unfolding get has row_by_unit
nothing-Collected = record {
  distinct = tt;
  named = λ name. refl;
  kept = λ name. refl;
  priced = λ name u k. refl;
  present = λ name. refl;
}

known-All : (P : Text → Type 0) → ((u : Text) → has known_units u ≡ true → P u) → All P known_units
unfolding has lit text_eq
known-All P h = (
  h (lit "input_token") refl,
  (
    h (lit "output_token") refl,
    (
      h (lit "cache_read_token") refl,
      (
        h (lit "cache_write_token") refl,
        (
          h (lit "extra_context_token") refl,
          (h (lit "request") refl, (h (lit "audio_second") refl, (h (lit "character") refl, tt))),
        ),
      ),
    ),
  ),
)

found :
    (rows : List PriceRow) (d : Dict ModelGroup)
    → Collected rows d
    → (name : Text) (g : ModelGroup) → get name d ≡ some g
    → (g.model_name ≡ name) × IsGroup rows g
found rows d c name g e =
    let n : g.model_name ≡ name = rw e at (c.named name) in
    let k : g.rows ≡ keep (is_of name) rows = rw e at (c.kept name) in
    let p : (u : Text) → has known_units u ≡ true → ShowsPrice g u =
      λ u h. rw e at (c.priced name u h) in
    (n, (rw n k, known-All (λ u. ShowsPrice g u) p))

names-values :
    (d : Dict ModelGroup) (P : Text → ModelGroup → Type 0)
    → Each (λ k g. (g.model_name ≡ k) × P k g) d
    → map name_of (values d) ≡ keys d
names-values [] P h = refl
names-values ((k, g) ∷ d) P ((e, _), h) = cc (e, names-values d P h)

All-values :
    (d : Dict ModelGroup) (P : ModelGroup → Type 0)
    → Each (λ k g. (g.model_name ≡ k) × P g) d
    → All P (values d)
All-values [] P h = tt
All-values ((k, g) ∷ d) P ((_, p), h) = (p, All-values d P h)

-- The groups of a list of prices, in whatever order they are displayed: a group has all the rows of
-- its model in their order, and of each known unit the price of the last row with that unit; no two
-- groups have the same name, and there is a group for a name exactly if some row has it.
pub group_by_model-IsGroup :
    (before : Text → Text → Bool) (rows : List PriceRow) (name : Text)
    → All (IsGroup rows) (group_by_model before rows)
      × Distinct (map name_of (group_by_model before rows))
      × (has (map name_of (group_by_model before rows)) name ≡ any (is_of name) rows)
unfolding group_by_model
group_by_model-IsGroup before rows name =
    let d = collect rows [] in
    let c = collect-Collected [] rows [] nothing-Collected in
    let each =
      Each-of_get (λ k g. (g.model_name ≡ k) × IsGroup rows g) d c.distinct (found rows d c) in
    let named = names-values d (λ k g. IsGroup rows g) each in
    (
      All-sort_by (IsGroup rows) (by_name before) (values d) (All-values d (IsGroup rows) each),
      Distinct-sort_by name_of (by_name before) (values d) (rw named c.distinct),
      has-sort_by name_of (by_name before) (values d) name ∙ rw named (c.present name),
    )
