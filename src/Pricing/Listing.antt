-- ===== src/Pricing/Listing.antt =====
-- Which models the public list of prices displays.
use any_gateway.Base.{
  ◌≡◌, refl, ap, ◌∙◌, sym, Bool, false, ◌&&◌, ◌||◌, Option, none, some, List, [], ◌∷◌, ◌++◌, map,
  any, find?, keep, arith, Bool-cases, inl, inr,
}
use any_gateway.Base.Text.{Text, text_eq, text_eq_iff}
use any_gateway.Base.Dict.{
  Dict, has, get, put, keys, values, Distinct, get-put, has-append, Distinct-keys-put, Each,
  Each-put,
}
use any_gateway.Base.Sort.{has-sort_by}
use any_gateway.Pricing.{
  PriceRow, ModelEntry, classify_vendor, add_row, or_new, collect, or_empty, by_vendor,
  vendor_order, has_models, is_filled, sorted_vendors, listing, displayed, by_name, sort_groups,
  build_models,
}

abbrev pub name_of : ModelEntry → Text
name_of m = m.model_name

-- The row is of this model.
abbrev pub is_of : Text → PriceRow → Bool
is_of name r = text_eq r.model_name name

abbrev vendor_at : Option ModelEntry → Option Text
vendor_at none = none
vendor_at (some m) = some m.vendor

abbrev pub classified : Option PriceRow → Option Text
classified none = none
classified (some r) = some (classify_vendor r)

abbrev else_or : Option Text → Option Text → Option Text
else_or none o = o
else_or (some v) o = some v

vendor-or_new :
    (r : PriceRow) (o : Option ModelEntry) (more : Option Text)
    → else_or (some (or_new r o).vendor) more ≡ else_or (vendor_at o) (some (classify_vendor r))
vendor-or_new r none more = refl
vendor-or_new r (some m) more = refl

-- The vendor of an entry is that of the first row of its model.
vendor-collect :
    (rows : List PriceRow) (d : Dict ModelEntry) (n : Text)
    → vendor_at (get n (collect rows d))
      ≡ else_or (vendor_at (get n d)) (classified (find? (is_of n) rows))
unfolding collect add_row
vendor-collect [] d n = go (get n d)
  where
    go : (o : Option ModelEntry) → vendor_at o ≡ else_or (vendor_at o) none
    go none = refl
    go (some m) = refl
vendor-collect (r ∷ rs) d n =
    let new = add_row r (or_new r (get r.model_name d)) in
    elim (Bool-cases (text_eq r.model_name n)) [
      | inl e ↦
          let same = (text_eq_iff r.model_name n).0 e in
          rw (vendor-collect rs (put r.model_name new d) n, get-put r.model_name n new d, e)
            (vendor-or_new r (get r.model_name d) (classified (find? (is_of n) rs))
              ∙ ap (λ k. else_or (vendor_at (get k d)) (some (classify_vendor r))) same)
      | inr e ↦
          rw (vendor-collect rs (put r.model_name new d) n, get-put r.model_name n new d, e) refl
    ]

-- Every entry stands under the name of its model.
abbrev IsNamed : Text → ModelEntry → Type 0
IsNamed k m = m.model_name ≡ k

name-or_new :
    (r : PriceRow) (d : Dict ModelEntry)
    → Each IsNamed d
    → (or_new r (get r.model_name d)).model_name ≡ r.model_name
unfolding get
name-or_new r [] h = refl
name-or_new r ((k, m) ∷ d) (p, h) = elim (Bool-cases (text_eq k r.model_name)) [
  | inl e ↦ rw e (p ∙ (text_eq_iff k r.model_name).0 e)
  | inr e ↦ rw e (name-or_new r d h)
]

collect-IsNamed :
    (rows : List PriceRow) (d : Dict ModelEntry)
    → Each IsNamed d
    → Distinct (keys d)
    → Each IsNamed (collect rows d) × Distinct (keys (collect rows d))
unfolding collect add_row
collect-IsNamed [] d h u = (h, u)
collect-IsNamed (r ∷ rs) d h u =
    let new = add_row r (or_new r (get r.model_name d)) in
    collect-IsNamed rs (put r.model_name new d)
      (Each-put IsNamed r.model_name new d (name-or_new r d h) h)
      (Distinct-keys-put r.model_name new d u)

-- An entry of this name under one of these vendors.
abbrev is_listed : List Text → Text → ModelEntry → Bool
is_listed vs n m = has vs m.vendor && text_eq m.model_name n

any-is_listed_other :
    (vs : List Text) (d : Dict ModelEntry) (n : Text)
    → Each IsNamed d
    → has (keys d) n ≡ false
    → any (is_listed vs n) (values d) ≡ false
unfolding has
any-is_listed_other vs [] n h k = refl
any-is_listed_other vs ((j, m) ∷ d) n (p, h) k =
    let rest = any-is_listed_other vs d n h (ground arith) in
    let other : text_eq j n ≡ false = ground arith in rw (p, other) (ground arith)

abbrev pub is_in : List Text → Option Text → Bool
is_in vs none = false
is_in vs (some v) = has vs v

any-is_listed :
    (vs : List Text) (d : Dict ModelEntry) (n : Text)
    → Each IsNamed d
    → Distinct (keys d)
    → any (is_listed vs n) (values d) ≡ is_in vs (vendor_at (get n d))
unfolding get
any-is_listed vs [] n h u = refl
any-is_listed vs ((k, m) ∷ d) n (p, h) (new, u) = elim (Bool-cases (text_eq k n)) [
  | inl e ↦
      let same = (text_eq_iff k n).0 e in
      let rest = any-is_listed_other vs d n h (ap (λ i. has (keys d) i) (sym same) ∙ new) in
      rw (p, e) (ground arith)
  | inr e ↦ let rest = any-is_listed vs d n h u in rw (p, e) (ground arith)
]

-- What is listed under a vendor.
abbrev listed_at : Text → Text → Dict (List ModelEntry) → Bool
listed_at v n g = has (map name_of (or_empty (get v g))) n

map-append : (ms ks : List ModelEntry) → map name_of (ms ++ ks) ≡ map name_of ms ++ map name_of ks
map-append [] ks = refl
map-append (m ∷ ms) ks = ap (λ (r : List Text). m.model_name ∷ r) (map-append ms ks)

listed_at-put :
    (m : ModelEntry) (g : Dict (List ModelEntry)) (v n : Text)
    → listed_at v n (put m.vendor (or_empty (get m.vendor g) ++ m ∷ []) g)
      ≡ (listed_at v n g || (text_eq m.vendor v && text_eq m.model_name n))
unfolding has
listed_at-put m g v n =
    let new = or_empty (get m.vendor g) ++ m ∷ [] in
    elim (Bool-cases (text_eq m.vendor v)) [
      | inl e ↦
          let same = (text_eq_iff m.vendor v).0 e in
          let old = has-append (map name_of (or_empty (get m.vendor g))) (m.model_name ∷ []) n in
          rw
            (
              get-put m.vendor v new g,
              e,
              map-append (or_empty (get m.vendor g)) (m ∷ []),
              old,
              same,
            )
            (ground arith)
      | inr e ↦ rw (get-put m.vendor v new g, e) (ground arith)
    ]

listed_at-by_vendor :
    (ms : List ModelEntry) (g : Dict (List ModelEntry)) (v n : Text)
    → listed_at v n (by_vendor ms g) ≡ (
        listed_at v n g
        || any (λ (m : ModelEntry). text_eq m.vendor v && text_eq m.model_name n) ms)
unfolding by_vendor
listed_at-by_vendor [] g v n = ground arith
listed_at-by_vendor (m ∷ ms) g v n =
    let new = put m.vendor (or_empty (get m.vendor g) ++ m ∷ []) g in
    rw (listed_at-by_vendor ms new v n, listed_at-put m g v n) (ground arith)

listed_at-sort_groups :
    (before : Text → Text → Bool) (g : Dict (List ModelEntry)) (v n : Text)
    → listed_at v n (sort_groups before g) ≡ listed_at v n g
unfolding sort_groups get
listed_at-sort_groups before [] v n = refl
listed_at-sort_groups before ((w, ms) ∷ g) v n = elim (Bool-cases (text_eq w v)) [
  | inl e ↦ rw e (has-sort_by name_of (by_name before) ms n)
  | inr e ↦ rw e (listed_at-sort_groups before g v n)
]

has-listing :
    (vs : List Text) (g : Dict (List ModelEntry)) (n : Text)
    → has (map name_of (listing vs g)) n ≡ any (λ v. listed_at v n g) vs
unfolding listing has
has-listing [] g n = refl
has-listing (v ∷ vs) g n =
    rw
      (
        map-append (or_empty (get v g)) (listing vs g),
        has-append (map name_of (or_empty (get v g))) (map name_of (listing vs g)) n,
        has-listing vs g n,
      )
      (ground arith)

or_empty-is_filled : (o : Option (List ModelEntry)) → is_filled o ≡ false → or_empty o ≡ []
or_empty-is_filled none h = refl
or_empty-is_filled (some []) h = refl
or_empty-is_filled (some (m ∷ ms)) h = absurd cc

listing-keep :
    (vs : List Text) (g : Dict (List ModelEntry))
    → listing (keep (has_models g) vs) g ≡ listing vs g
unfolding listing
listing-keep [] g = refl
listing-keep (v ∷ vs) g = elim (Bool-cases (has_models g v)) [
  | inl e ↦ rw e (ap (λ (r : List ModelEntry). or_empty (get v g) ++ r) (listing-keep vs g))
  | inr e ↦ rw (e, or_empty-is_filled (get v g) e) (listing-keep vs g)
]

any-false : (vs : List Text) → any (λ (v : Text). false) vs ≡ false
any-false [] = refl
any-false (v ∷ vs) = any-false vs

any-or :
    (m : ModelEntry) (n : Text) (p : Text → Bool) (vs : List Text)
    → any (λ v. text_eq m.vendor v && text_eq m.model_name n || p v) vs
      ≡ (is_listed vs n m || any p vs)
unfolding has
any-or m n p [] = refl
any-or m n p (v ∷ vs) =
    rw (any-or m n p vs) (ground (arith, text_eq_iff m.vendor v, text_eq_iff v m.vendor))

-- Some vendor has an entry of the name, or some entry of the name has one of the vendors.
any-swap :
    (vs : List Text) (ms : List ModelEntry) (n : Text)
    → any (λ v. any (λ (m : ModelEntry). text_eq m.vendor v && text_eq m.model_name n) ms) vs
      ≡ any (is_listed vs n) ms
any-swap vs [] n = any-false vs
any-swap vs (m ∷ ms) n =
    any-or m n (λ v. any (λ (k : ModelEntry). text_eq k.vendor v && text_eq k.model_name n) ms) vs
    ∙ ap (λ b. is_listed vs n m || b) (any-swap vs ms n)

any-cong : (p q : Text → Bool) (vs : List Text) → ((v : Text) → p v ≡ q v) → any p vs ≡ any q vs
any-cong p q [] h = refl
any-cong p q (v ∷ vs) h = rw (h v, any-cong p q vs h) refl

listed_at-build_models :
    (before : Text → Text → Bool) (rows : List PriceRow) (v n : Text)
    → listed_at v n (build_models before rows)
      ≡ any
          (λ (m : ModelEntry). text_eq m.vendor v && text_eq m.model_name n)
          (values (collect rows []))
unfolding build_models get has
listed_at-build_models before rows v n =
    listed_at-sort_groups before (by_vendor (values (collect rows [])) []) v n
    ∙ listed_at-by_vendor (values (collect rows [])) [] v n

-- A model is displayed exactly if the vendor of its first row, written there or guessed from the
-- name, is one of the eight of the order: a model under any other vendor is left out.
pub displayed-listed :
    (before : Text → Text → Bool) (rows : List PriceRow) (n : Text)
    → has (map name_of (displayed (build_models before rows))) n
      ≡ is_in vendor_order (classified (find? (is_of n) rows))
unfolding displayed sorted_vendors get
displayed-listed before rows n =
    let g = build_models before rows in
    let (named, distinct) = collect-IsNamed rows [] tt tt in
    ap (λ (ms : List ModelEntry). has (map name_of ms) n) (listing-keep vendor_order g)
    ∙ has-listing vendor_order g n
    ∙ any-cong _ _ vendor_order (λ v. listed_at-build_models before rows v n)
    ∙ any-swap vendor_order (values (collect rows [])) n
    ∙ any-is_listed vendor_order (collect rows []) n named distinct
    ∙ ap (is_in vendor_order) (vendor-collect rows [] n)
