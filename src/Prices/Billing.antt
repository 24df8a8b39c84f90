-- ===== src/Prices/Billing.antt =====
-- What a submit leaves of a model's prices: one way of billing. The server's list is the abstract
-- state, and a request changes it as its name says.
use any_gateway.Base.{
  ℕ, ◌≡◌, refl, Bool, true, false, not, ◌&&◌, Option, none, some, List, [], ◌∷◌, ◌++◌, any, keep,
  arith, All, All-append, if◌then◌else◌, Bool-cases, inl, inr,
}
use any_gateway.Base.Text.{Text, lit, text_eq, text_eq_iff, text_eq_refl}
use any_gateway.Base.Dict.{has}
use any_gateway.Base.Double.{is_positive}
use any_gateway.Prices.{PriceRow, ModelGroup}
use any_gateway.Prices.Editing.{
  PriceMode, token, request, audio_second, character, mode_units, Values, Meta, Op, remove, set,
  create, stale_units, removals, row_by_unit, price_ops, updates, edit_ops, mode_prices, meta_of,
  has_unit, infer_mode,
}

abbrev over : {A : Type 0} → Option A → Option A → Option A
over none old = old
over (some new) old = some new

abbrev with_price : ℕ → Meta → PriceRow → PriceRow
with_price price m r = record r {
  price_per_unit = price;
  context_length = over m.context_length r.context_length;
  vendor = over m.vendor r.vendor;
  stability = over m.stability r.stability;
}

abbrev set_row : Text → ℕ → Meta → List PriceRow → List PriceRow
set_row id price m [] = []
set_row id price m (r ∷ rs) =
    (if text_eq r.id id then with_price price m r else r) ∷ set_row id price m rs

abbrev row_of : Text → Text → ℕ → Meta → PriceRow
row_of model u price m = record {
  id = [];
  model_name = model;
  unit = u;
  price_per_unit = price;
  context_length = m.context_length;
  vendor = m.vendor;
  stability = m.stability;
}

-- What the server's rows of the model are behind a request; a new row has no identifier yet.
abbrev pub served : Op → List PriceRow → List PriceRow
served (remove id) rows = keep (λ (r : PriceRow). not (text_eq r.id id)) rows
served (set id price m) rows = set_row id price m rows
served (create model u price m) rows = rows ++ row_of model u price m ∷ []

abbrev pub all_served : List Op → List PriceRow → List PriceRow
all_served [] rows = rows
all_served (o ∷ os) rows = all_served os (served o rows)

-- The row is none that the code takes to be of another mode.
abbrev pub IsUnstale : PriceMode → PriceRow → Type 0
IsUnstale mode r = has (stale_units mode) r.unit ≡ false

module _ (mode : PriceMode) where
  -- The request leaves every row billed in the mode, and none but rows of the mode are added.
  abbrev IsFitting : Op → Type 0
  IsFitting (create model u price m) = has (stale_units mode) u ≡ false
  IsFitting _ = Unit

  set_row-All :
      (id : Text) (price : ℕ) (m : Meta) (rows : List PriceRow)
      → All (IsUnstale mode) rows
      → All (IsUnstale mode) (set_row id price m rows)
  set_row-All id price m [] h = tt
  set_row-All id price m (r ∷ rs) (b, h) = elim (Bool-cases (text_eq r.id id)) [
    | inl e ↦ rw e (b, set_row-All id price m rs h)
    | inr e ↦ rw e (b, set_row-All id price m rs h)
  ]

  keep-All :
      (p : PriceRow → Bool) (rows : List PriceRow)
      → All (IsUnstale mode) rows
      → All (IsUnstale mode) (keep p rows)
  keep-All p [] h = tt
  keep-All p (r ∷ rs) (b, h) = elim (Bool-cases (p r)) [
    | inl e ↦ rw e (b, keep-All p rs h)
    | inr e ↦ rw e (keep-All p rs h)
  ]

  served-All :
      (o : Op) (rows : List PriceRow)
      → IsFitting o
      → All (IsUnstale mode) rows
      → All (IsUnstale mode) (served o rows)
  served-All (remove id) rows f h = keep-All _ rows h
  served-All (set id price m) rows f h = set_row-All id price m rows h
  served-All (create model u price m) rows f h =
      All-append (IsUnstale mode) rows (row_of model u price m ∷ []) h (f, tt)

  all_served-All :
      (os : List Op) (rows : List PriceRow)
      → All IsFitting os
      → All (IsUnstale mode) rows
      → All (IsUnstale mode) (all_served os rows)
  all_served-All [] rows f h = h
  all_served-All (o ∷ os) rows (f, fs) h =
      all_served-All os (served o rows) fs (served-All o rows f h)

  -- A row that stands in a list, billed in the mode or still to be removed.
  abbrev IsLeaving : List PriceRow → PriceRow → Type 0
  IsLeaving left r =
      (has (stale_units mode) r.unit
        && not (any (λ (q : PriceRow). text_eq q.id r.id && has (stale_units mode) q.unit) left))
      ≡ false

  keep-IsLeaving :
      (q : PriceRow) (left rows : List PriceRow)
      → has (stale_units mode) q.unit ≡ true
      → All (IsLeaving (q ∷ left)) rows
      → All (IsLeaving left) (keep (λ (r : PriceRow). not (text_eq r.id q.id)) rows)
  keep-IsLeaving q left [] s h = tt
  keep-IsLeaving q left (r ∷ rows) s (l, h) = elim (Bool-cases (text_eq r.id q.id)) [
    | inl e ↦ rw e (keep-IsLeaving q left rows s h)
    | inr e ↦ rw e (
      ground (arith, text_eq_iff q.id r.id, text_eq_iff r.id q.id),
      keep-IsLeaving q left rows s h,
    )
  ]

  skip-IsLeaving :
      (q : PriceRow) (left rows : List PriceRow)
      → has (stale_units mode) q.unit ≡ false
      → All (IsLeaving (q ∷ left)) rows
      → All (IsLeaving left) rows
  skip-IsLeaving q left [] s h = tt
  skip-IsLeaving q left (r ∷ rows) s (l, h) = (ground arith, skip-IsLeaving q left rows s h)

  removals-All :
      (left rows : List PriceRow)
      → All (IsLeaving left) rows
      → All (IsUnstale mode) (all_served (removals mode left) rows)
  unfolding removals
  removals-All [] [] h = tt
  removals-All [] (r ∷ rows) (l, h) = (ground arith, removals-All [] rows h)
  removals-All (q ∷ left) rows h = elim (Bool-cases (has (stale_units mode) q.unit)) [
    | inl s ↦ rw s (removals-All left _ (keep-IsLeaving q left rows s h))
    | inr s ↦ rw s (removals-All left rows (skip-IsLeaving q left rows s h))
  ]

  any-IsLeaving :
      (more left rows : List PriceRow)
      → ((r : PriceRow) → IsLeaving left r → IsLeaving more r)
      → All (IsLeaving left) rows
      → All (IsLeaving more) rows
  any-IsLeaving more left [] k h = tt
  any-IsLeaving more left (r ∷ rows) k (l, h) = (k r l, any-IsLeaving more left rows k h)

  All-IsLeaving : (rows : List PriceRow) → All (IsLeaving rows) rows
  All-IsLeaving [] = tt
  All-IsLeaving (r ∷ rows) = (
    ground (arith, text_eq_refl r.id),
    any-IsLeaving (r ∷ rows) rows rows (λ q l. ground arith) (All-IsLeaving rows),
  )

all_served-append :
    (os ps : List Op) (rows : List PriceRow)
    → all_served (os ++ ps) rows ≡ all_served ps (all_served os rows)
all_served-append [] ps rows = refl
all_served-append (o ∷ os) ps rows = all_served-append os ps (served o rows)

-- The unit is none of the other modes.
abbrev IsFree : PriceMode → Text × Option ℕ → Type 0
IsFree mode (u, price) = has (stale_units mode) u ≡ false

price_ops-IsFitting :
    (mode : PriceMode) (o : Option PriceRow) (model u : Text) (price : Option ℕ) (m : Meta)
    → has (stale_units mode) u ≡ false
    → All (IsFitting mode) (price_ops o model u price m)
price_ops-IsFitting mode (some r) model u price m f = (tt, tt)
price_ops-IsFitting mode none model u none m f = tt
price_ops-IsFitting mode none model u (some p) m f = elim (Bool-cases (is_positive p)) [
  | inl e ↦ rw e (f, tt)
  | inr e ↦ rw e tt
]

updates-IsFitting :
    (mode : PriceMode) (ps : List (Text × Option ℕ)) (model : Text) (rows : List PriceRow)
    (m : Meta)
    → All (IsFree mode) ps
    → All (IsFitting mode) (updates ps model rows m)
unfolding updates
updates-IsFitting mode [] model rows m f = tt
updates-IsFitting mode ((u, price) ∷ ps) model rows m (f, fs) =
    All-append (IsFitting mode) (price_ops (row_by_unit u rows) model u price m) _
      (price_ops-IsFitting mode (row_by_unit u rows) model u price m f)
      (updates-IsFitting mode ps model rows m fs)

mode_prices-IsFree : (mode : PriceMode) (v : Values) → All (IsFree mode) (mode_prices mode v)
unfolding stale_units has lit text_eq
mode_prices-IsFree token v = (refl, (refl, (refl, (refl, (refl, tt)))))
mode_prices-IsFree request v = (refl, tt)
mode_prices-IsFree audio_second v = (refl, tt)
mode_prices-IsFree character v = (refl, tt)

-- What the requests of an edit leave.
pub edit_ops-IsUnstale :
    (mode : PriceMode) (v : Values) (g : ModelGroup)
    → All (IsUnstale mode) (all_served (edit_ops mode v g) g.rows)
unfolding edit_ops
edit_ops-IsUnstale mode v g =
    rw
      (all_served-append (removals mode g.rows)
        (updates (mode_prices mode v) g.model_name g.rows (meta_of v)) g.rows)
      (all_served-All mode (updates (mode_prices mode v) g.model_name g.rows (meta_of v)) _
        (updates-IsFitting mode (mode_prices mode v) g.model_name g.rows (meta_of v)
          (mode_prices-IsFree mode v))
        (removals-All mode g.rows g.rows (All-IsLeaving mode g.rows)))

has_unit-stale :
    (mode : PriceMode) (rows : List PriceRow) (u : Text)
    → has (stale_units mode) u ≡ true
    → All (IsUnstale mode) rows
    → has_unit rows u ≡ false
has_unit-stale mode [] u s h = refl
has_unit-stale mode (r ∷ rows) u s (b, h) = elim (Bool-cases (text_eq r.unit u)) [
  | inl e ↦ let same = (text_eq_iff r.unit u).0 e in absurd (cc (rw same at b, s))
  | inr e ↦ rw e (has_unit-stale mode rows u s h)
]

infer_mode-IsUnstale :
    (mode : PriceMode) (rows : List PriceRow)
    → All (IsUnstale mode) rows
    → any (λ u. has_unit rows u) (mode_units mode) ≡ true
    → infer_mode rows ≡ mode
unfolding infer_mode stale_units has lit text_eq
infer_mode-IsUnstale token rows h a =
    rw
      (
        has_unit-stale token rows (lit "request") refl h,
        has_unit-stale token rows (lit "audio_second") refl h,
        has_unit-stale token rows (lit "character") refl h,
      )
      refl
infer_mode-IsUnstale request rows h a = ground arith
infer_mode-IsUnstale audio_second rows h a =
    let q = has_unit-stale audio_second rows (lit "request") refl h in ground arith
infer_mode-IsUnstale character rows h a =
    let q = has_unit-stale character rows (lit "request") refl h in
    let p = has_unit-stale character rows (lit "audio_second") refl h in ground arith

-- When all requests of an edit succeed and the server has a row with a unit of the chosen mode, the
-- form shows that mode when the model is opened again.
pub infer_mode-edit_ops :
    (mode : PriceMode) (v : Values) (g : ModelGroup)
    → any (λ u. has_unit (all_served (edit_ops mode v g) g.rows) u) (mode_units mode) ≡ true
    → infer_mode (all_served (edit_ops mode v g) g.rows) ≡ mode
infer_mode-edit_ops mode v g a =
    infer_mode-IsUnstale mode (all_served (edit_ops mode v g) g.rows) (edit_ops-IsUnstale mode v g)
      a
