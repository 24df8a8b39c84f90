-- ===== src/Home/Copy.antt =====
-- The two copies of the grouping agree.
use any_gateway.Base.{
  ◌≡◌, refl, ap, sym, ◌∙◌, Bool, true, Option, none, some, List, [], ◌∷◌, ◌++◌, map, keep, arith,
  Bool-cases, inl, inr,
}
use any_gateway.Base.Found.{map_found}
use any_gateway.Base.Text.{Text}
use any_gateway.Base.Dict.{Dict, has, get, put, values}
use any_gateway.Base.Values.{
  map_values, get-map_values, put-map_values, values-map_values, sort_by-map, keep_keys,
  keep_keys-put,
}
use any_gateway.Pricing.{PriceRow, ModelEntry}
use any_gateway.Pricing
use any_gateway.Home.{
  classify_vendor, units, add_row, or_new, collect, or_empty, by_vendor, has_models, is_filled,
  vendor_order, sorted_vendors, by_name, sort_groups, build_models,
}

-- An entry of the public list with the three prices of the home page.
abbrev pub narrowed : ModelEntry → ModelEntry
narrowed m = record m { prices = keep_keys (has units) m.prices }

classify_vendor_same : (r : PriceRow) → classify_vendor r ≡ Pricing.classify_vendor r
unfolding classify_vendor Pricing.classify_vendor
classify_vendor_same r = go r.vendor
  where
    go :
        (v : Option Text)
        → classify_vendor (record r { vendor = v })
          ≡ Pricing.classify_vendor (record r { vendor = v })
    go none = refl
    go (some t) = refl

-- Every price of the home page is one of the public list.
units-known : (u : Text) → has units u ≡ true → has Pricing.units u ≡ true
unfolding has
units-known u h = ground arith

add_row-narrowed :
    (r : PriceRow) (m : ModelEntry) → add_row r (narrowed m) ≡ narrowed (Pricing.add_row r m)
unfolding add_row Pricing.add_row
add_row-narrowed r m =
    let put_price = keep_keys-put (has units) r.unit r.price_per_unit m.prices in
    elim (Bool-cases (has units r.unit)) [
      | inl q ↦ rw (q, units-known r.unit q, put_price, q) refl
      | inr q ↦ elim (Bool-cases (has Pricing.units r.unit)) [
        | inl k ↦ rw (q, k, put_price, q) refl
        | inr k ↦ rw (q, k) refl
      ]
    ]

or_new-narrowed :
    (r : PriceRow) (o : Option ModelEntry)
    → or_new r (map_found narrowed o) ≡ narrowed (Pricing.or_new r o)
or_new-narrowed r none = rw (classify_vendor_same r) refl
or_new-narrowed r (some m) = refl

collect-narrowed :
    (rows : List PriceRow) (d : Dict ModelEntry)
    → collect rows (map_values narrowed d) ≡ map_values narrowed (Pricing.collect rows d)
unfolding collect Pricing.collect
collect-narrowed [] d = refl
collect-narrowed (r ∷ rs) d =
    let old = Pricing.or_new r (get r.model_name d) in
    rw
      (
        get-map_values narrowed r.model_name d,
        or_new-narrowed r (get r.model_name d),
        add_row-narrowed r old,
        put-map_values narrowed r.model_name (Pricing.add_row r old) d,
      )
      (collect-narrowed rs (put r.model_name (Pricing.add_row r old) d))

or_empty-narrowed :
    (o : Option (List ModelEntry))
    → or_empty (map_found (map narrowed) o) ≡ map narrowed (Pricing.or_empty o)
or_empty-narrowed none = refl
or_empty-narrowed (some ms) = refl

map-append :
    (xs ys : List ModelEntry) → map narrowed (xs ++ ys) ≡ map narrowed xs ++ map narrowed ys
map-append [] ys = refl
map-append (x ∷ xs) ys = ap (λ (r : List ModelEntry). narrowed x ∷ r) (map-append xs ys)

put-narrowed :
    (m : ModelEntry) (g : Dict (List ModelEntry))
    → put m.vendor
        (or_empty (get m.vendor (map_values (map narrowed) g)) ++ narrowed m ∷ [])
        (map_values (map narrowed) g)
      ≡ map_values (map narrowed) (put m.vendor (Pricing.or_empty (get m.vendor g) ++ m ∷ []) g)
put-narrowed m g =
    let old = Pricing.or_empty (get m.vendor g) in
    rw
      (
        get-map_values (map narrowed) m.vendor g,
        or_empty-narrowed (get m.vendor g),
        sym (map-append old (m ∷ [])),
      )
      (put-map_values (map narrowed) m.vendor (old ++ m ∷ []) g)

by_vendor-narrowed :
    (ms : List ModelEntry) (g : Dict (List ModelEntry))
    → by_vendor (map narrowed ms) (map_values (map narrowed) g)
      ≡ map_values (map narrowed) (Pricing.by_vendor ms g)
unfolding by_vendor Pricing.by_vendor
by_vendor-narrowed [] g = refl
by_vendor-narrowed (m ∷ ms) g =
    ap (by_vendor (map narrowed ms)) (put-narrowed m g)
    ∙ by_vendor-narrowed ms (put m.vendor (Pricing.or_empty (get m.vendor g) ++ m ∷ []) g)

sort_groups-narrowed :
    (before : Text → Text → Bool) (g : Dict (List ModelEntry))
    → sort_groups before (map_values (map narrowed) g)
      ≡ map_values (map narrowed) (Pricing.sort_groups before g)
unfolding sort_groups Pricing.sort_groups
sort_groups-narrowed before [] = refl
sort_groups-narrowed before ((v, ms) ∷ g) =
    rw
      (
        sort_by-map narrowed (Pricing.by_name before) (by_name before) (λ a b. refl) ms,
        sort_groups-narrowed before g,
      )
      refl

build_models-narrowed :
    (before : Text → Text → Bool) (rows : List PriceRow)
    → build_models before rows ≡ map_values (map narrowed) (Pricing.build_models before rows)
unfolding build_models Pricing.build_models
build_models-narrowed before rows =
    let entries = Pricing.collect rows [] in
    rw
      (
        collect-narrowed rows [],
        values-map_values narrowed entries,
        by_vendor-narrowed (values entries) [],
      )
      (sort_groups-narrowed before (Pricing.by_vendor (values entries) []))

is_filled-narrowed :
    (o : Option (List ModelEntry)) → is_filled (map_found (map narrowed) o) ≡ Pricing.is_filled o
is_filled-narrowed none = refl
is_filled-narrowed (some []) = refl
is_filled-narrowed (some (m ∷ ms)) = refl

has_models-narrowed :
    (g : Dict (List ModelEntry)) (v : Text)
    → has_models (map_values (map narrowed) g) v ≡ Pricing.has_models g v
has_models-narrowed g v = rw (get-map_values (map narrowed) v g) (is_filled-narrowed (get v g))

keep-cong : (p q : Text → Bool) (vs : List Text) → ((v : Text) → p v ≡ q v) → keep p vs ≡ keep q vs
keep-cong p q [] h = refl
keep-cong p q (v ∷ vs) h = rw (h v, keep-cong p q vs h) refl

-- The home page and the public list, each with its own copy of the grouping, show the same prices:
-- the groups of the home page are those of the public list with every entry narrowed to its three
-- prices, and both list the same vendors in the same order.
pub build_models-public :
    (before : Text → Text → Bool) (rows : List PriceRow)
    → (build_models before rows ≡ map_values (map narrowed) (Pricing.build_models before rows))
      × (sorted_vendors (build_models before rows)
          ≡ Pricing.sorted_vendors (Pricing.build_models before rows))
unfolding sorted_vendors Pricing.sorted_vendors
build_models-public before rows =
    let same = build_models-narrowed before rows in
    (
      same,
      ap sorted_vendors same
          ∙ keep-cong (has_models (map_values (map narrowed) (Pricing.build_models before rows)))
              (Pricing.has_models (Pricing.build_models before rows)) vendor_order
              (has_models-narrowed (Pricing.build_models before rows)),
    )
