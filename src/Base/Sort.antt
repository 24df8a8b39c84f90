-- ===== src/Base/Sort.antt =====
-- `sort` with a comparison: the stable order. A comparison is the test that its first argument may
-- stand before its second one (`compare(a, b) <= 0`).
use any_gateway.Base.{
  ◌≡◌, refl, Bool, true, false, ◌&&◌, ◌||◌, ◌==◌, ltb, List, [], ◌∷◌, map, All, arith,
  if◌then◌else◌, Bool-cases, inl, inr,
}
use any_gateway.Base.Text.{Text, text_eq, text_eq_iff}
use any_gateway.Base.Dict.{has, Distinct}

module _ {ℓ} {A : Type ℓ} where
  unfoldable pub insert_by : (A → A → Bool) → A → List A → List A
  insert_by le x [] = x ∷ []
  insert_by le x (y ∷ ys) = let rest = insert_by le x ys in if le x y then x ∷ y ∷ ys else y ∷ rest

  unfoldable pub sort_by : (A → A → Bool) → List A → List A
  sort_by le [] = []
  sort_by le (x ∷ xs) = insert_by le x (sort_by le xs)

  All-insert_by {κ} :
      (P : A → Type κ) (le : A → A → Bool) (x : A) (ys : List A)
      → P x
      → All P ys
      → All P (insert_by le x ys)
  unfolding insert_by
  All-insert_by P le x [] p h = (p, tt)
  All-insert_by P le x (y ∷ ys) p (q, h) = elim (Bool-cases (le x y)) [
    | inl e ↦ rw e (p, (q, h))
    | inr e ↦ rw e (q, All-insert_by P le x ys p h)
  ]

  pub All-sort_by {κ} :
      (P : A → Type κ) (le : A → A → Bool) (xs : List A) → All P xs → All P (sort_by le xs)
  unfolding sort_by
  All-sort_by P le [] h = tt
  All-sort_by P le (x ∷ xs) (p, h) = All-insert_by P le x (sort_by le xs) p (All-sort_by P le xs h)

  module _ (name : A → Text) where
    has-insert_by :
        (le : A → A → Bool) (x : A) (ys : List A) (k : Text)
        → has (map name (insert_by le x ys)) k ≡ (text_eq (name x) k || has (map name ys) k)
    unfolding insert_by has
    has-insert_by le x [] k = refl
    has-insert_by le x (y ∷ ys) k = ground (arith, has-insert_by le x ys k)

    pub has-sort_by :
        (le : A → A → Bool) (xs : List A) (k : Text)
        → has (map name (sort_by le xs)) k ≡ has (map name xs) k
    unfolding sort_by has
    has-sort_by le [] k = refl
    has-sort_by le (x ∷ xs) k =
        ground (arith, has-insert_by le x (sort_by le xs) k, has-sort_by le xs k)

    Distinct-insert_by :
        (le : A → A → Bool) (x : A) (ys : List A)
        → has (map name ys) (name x) ≡ false
        → Distinct (map name ys)
        → Distinct (map name (insert_by le x ys))
    unfolding insert_by has
    Distinct-insert_by le x [] n d = (refl, tt)
    Distinct-insert_by le x (y ∷ ys) n (m, d) = elim (Bool-cases (le x y)) [
      | inl e ↦ rw e (n, (m, d))
      | inr e ↦ rw e (
        ground (
          arith,
          has-insert_by le x ys (name y),
          text_eq_iff (name x) (name y),
          text_eq_iff (name y) (name x),
        ),
        Distinct-insert_by le x ys (ground arith) d,
      )
    ]

    pub Distinct-sort_by :
        (le : A → A → Bool) (xs : List A)
        → Distinct (map name xs)
        → Distinct (map name (sort_by le xs))
    unfolding sort_by
    Distinct-sort_by le [] d = tt
    Distinct-sort_by le (x ∷ xs) (n, d) =
        Distinct-insert_by le x (sort_by le xs) (rw (has-sort_by le xs (name x)) n)
          (Distinct-sort_by le xs d)

-- the order of code units
unfoldable pub text_le : Text → Text → Bool
text_le [] t = true
text_le (a ∷ s) [] = false
text_le (a ∷ s) (b ∷ t) = ltb a b || (a == b && text_le s t)
