-- ===== src/Base/Values.antt =====
-- Dictionaries whose values are changed one by one, and whose keys are tested.
use any_gateway.Base.{
  ◌≡◌, refl, ap, ◌∙◌, Bool, List, [], ◌∷◌, map, Bool-cases, inl, inr, if◌then◌else◌,
}
use any_gateway.Base.Found.{map_found}
use any_gateway.Base.Text.{Text, text_eq, text_eq_iff}
use any_gateway.Base.Dict.{Dict, get, put, values}
use any_gateway.Base.Sort.{insert_by, sort_by}

module _ {ℓ κ} {A : Type ℓ} {B : Type κ} (f : A → B) where
  abbrev pub map_values : Dict A → Dict B
  map_values [] = []
  map_values ((k, a) ∷ d) = (k, f a) ∷ map_values d

  pub get-map_values : (k : Text) (d : Dict A) → get k (map_values d) ≡ map_found f (get k d)
  unfolding get
  get-map_values k [] = refl
  get-map_values k ((j, a) ∷ d) = elim (Bool-cases (text_eq j k)) [
    | inl e ↦ rw e refl
    | inr e ↦ rw e (get-map_values k d)
  ]

  pub put-map_values :
      (k : Text) (a : A) (d : Dict A) → put k (f a) (map_values d) ≡ map_values (put k a d)
  unfolding put
  put-map_values k a [] = refl
  put-map_values k a ((j, b) ∷ d) = elim (Bool-cases (text_eq j k)) [
    | inl e ↦ rw e refl
    | inr e ↦ rw e (ap (λ (r : Dict B). (j, f b) ∷ r) (put-map_values k a d))
  ]

  pub values-map_values : (d : Dict A) → values (map_values d) ≡ map f (values d)
  values-map_values [] = refl
  values-map_values ((k, a) ∷ d) = ap (λ (r : List B). f a ∷ r) (values-map_values d)

  -- Sorting does not look at what the function changes.
  module _ (p : A → A → Bool) (q : B → B → Bool) (same : (a b : A) → q (f a) (f b) ≡ p a b) where
    insert_by-map : (a : A) (bs : List A) → insert_by q (f a) (map f bs) ≡ map f (insert_by p a bs)
    unfolding insert_by
    insert_by-map a [] = refl
    insert_by-map a (b ∷ bs) = elim (Bool-cases (p a b)) [
      | inl e ↦ rw (same a b, e) refl
      | inr e ↦ rw (same a b, e) (ap (λ (r : List B). f b ∷ r) (insert_by-map a bs))
    ]

    pub sort_by-map : (xs : List A) → sort_by q (map f xs) ≡ map f (sort_by p xs)
    unfolding sort_by
    sort_by-map [] = refl
    sort_by-map (a ∷ xs) = rw (sort_by-map xs) (insert_by-map a (sort_by p xs))

module _ {ℓ} {A : Type ℓ} (p : Text → Bool) where
  -- The entries whose keys pass the test.
  abbrev pub keep_keys : Dict A → Dict A
  keep_keys [] = []
  keep_keys ((k, a) ∷ d) = let rest = keep_keys d in if p k then (k, a) ∷ rest else rest

  pub keep_keys-put :
      (k : Text) (a : A) (d : Dict A)
      → keep_keys (put k a d) ≡ (if p k then put k a (keep_keys d) else keep_keys d)
  unfolding put
  keep_keys-put k a [] = refl
  keep_keys-put k a ((j, b) ∷ d) = elim (Bool-cases (text_eq j k)) [
    | inl e ↦
        let same = ap p ((text_eq_iff j k).0 e) in
        elim (Bool-cases (p k)) [
          | inl q ↦ let q' = same ∙ q in rw (e, q, q', e) refl
          | inr q ↦ let q' = same ∙ q in rw (e, q, q') refl
        ]
    | inr e ↦ elim (Bool-cases (p j)) [
      | inl q ↦ elim (Bool-cases (p k)) [
        | inl r ↦
            rw (e, q, r, e)
              (let h : keep_keys (put k a d) ≡ put k a (keep_keys d) =
                  keep_keys-put k a d ∙ rw r refl in
                ap (λ (t : Dict A). (j, b) ∷ t) h)
        | inr r ↦
            rw (e, q, r)
              (let h : keep_keys (put k a d) ≡ keep_keys d = keep_keys-put k a d ∙ rw r refl in
                ap (λ (t : Dict A). (j, b) ∷ t) h)
      ]
      | inr q ↦ rw (e, q) (keep_keys-put k a d)
    ]
  ]
