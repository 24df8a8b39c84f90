-- ===== src/Base/Found.antt =====
-- Options as what may throw: a function over what there is, and over every element of a list.
use any_gateway.Base.{◌≡◌, refl, ap, Option, none, some, List, [], ◌∷◌, All, length, suc}

module _ {ℓ κ} {A : Type ℓ} {B : Type κ} where
  abbrev pub map_found : (A → B) → Option A → Option B
  map_found f none = none
  map_found f (some a) = some (f a)

  abbrev pub both : Option A → Option B → Option (A × B)
  both none b = none
  both (some a) none = none
  both (some a) (some b) = some (a, b)

module _ {ℓ} {A : Type ℓ} where
  abbrev cons_found : Option A → Option (List A) → Option (List A)
  cons_found none xs = none
  cons_found (some x) none = none
  cons_found (some x) (some xs) = some (x ∷ xs)

  abbrev pub IsFound : Option A → Type ℓ
  IsFound o = (a : A) × (o ≡ some a)

module _ {ℓ κ} {A : Type ℓ} {B : Type κ} (f : A → Option B) where
  -- `map` with a function that may throw
  unfoldable pub map_all : List A → Option (List B)
  map_all [] = some []
  map_all (x ∷ xs) = cons_found (f x) (map_all xs)

  -- Where the function finds something for each element, the whole list is found, in its length.
  pub map_all-IsFound {μ} :
      (P : A → Type μ)
      → ((x : A) → P x → IsFound (f x))
      → (xs : List A) → All P xs
      → (ys : List B) × (map_all xs ≡ some ys) × (length ys ≡ length xs)
  unfolding map_all
  map_all-IsFound P found [] h = ([], refl, refl)
  map_all-IsFound P found (x ∷ xs) (p, h) =
      let (y, e) = found x p in
      let (ys, k, n) = map_all-IsFound P found xs h in (y ∷ ys, rw (e, k) refl, ap suc n)

module _ {ℓ κ} {A : Type ℓ} {B : Type κ} (R : A → B → Type 0) where
  -- Lists of one length whose elements are related one by one.
  abbrev pub Pairs : List A → List B → Type 0
  Pairs [] [] = Unit
  Pairs [] (y ∷ ys) = ⊥
  Pairs (x ∷ xs) [] = ⊥
  Pairs (x ∷ xs) (y ∷ ys) = R x y × Pairs xs ys

  pub map_all-Pairs {ν} :
      (P : A → Type ν) (f : A → Option B)
      → ((x : A) → P x → (y : B) × (f x ≡ some y) × R x y)
      → (xs : List A) → All P xs
      → (ys : List B) × (map_all f xs ≡ some ys) × Pairs xs ys
  unfolding map_all
  map_all-Pairs P f found [] h = ([], refl, tt)
  map_all-Pairs P f found (x ∷ xs) (p, h) =
      let (y, e, r) = found x p in
      let (ys, k, rs) = map_all-Pairs P f found xs h in (y ∷ ys, rw (e, k) refl, (r, rs))
