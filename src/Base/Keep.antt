-- ===== src/Base/Keep.antt =====
-- Lists of named things from which some are left out.
use any_gateway.Base.{
  ◌≡◌, refl, ap, sym, ◌∙◌, Bool, ◌&&◌, List, [], ◌∷◌, map, keep, any, arith, Bool-cases, inl, inr,
}
use any_gateway.Base.Text.{Text, text_eq, text_eq_iff}
use any_gateway.Base.Dict.{has}

module _ {ℓ} {A : Type ℓ} (name : A → Text) where
  -- What a test on the names leaves.
  pub has-keep :
      (p : Text → Bool) (xs : List A) (k : Text)
      → has (map name (keep (λ x. p (name x)) xs)) k ≡ (has (map name xs) k && p k)
  unfolding has
  has-keep p [] k = refl
  has-keep p (x ∷ xs) k =
      let rest = has-keep p xs k in
      elim (Bool-cases (text_eq (name x) k)) [
        | inl e ↦
            let there = ap p ((text_eq_iff (name x) k).0 e) in
            elim (Bool-cases (p (name x))) [
              | inl q ↦ let q' = sym there ∙ q in rw (q, e, q') refl
              | inr q ↦ let q' = sym there ∙ q in rw (q, e, rest, q') (ground arith)
            ]
        | inr e ↦ elim (Bool-cases (p (name x))) [ inl q ↦ rw (q, e) rest | inr q ↦ rw (q, e) rest ]
      ]

  -- What any test leaves: the names of the elements that pass it.
  pub has-keep-any :
      (p : A → Bool) (xs : List A) (k : Text)
      → has (map name (keep p xs)) k ≡ any (λ x. text_eq (name x) k && p x) xs
  unfolding has
  has-keep-any p [] k = refl
  has-keep-any p (x ∷ xs) k = elim (Bool-cases (p x)) [
    | inl q ↦ rw (q, has-keep-any p xs k) (ground arith)
    | inr q ↦ rw (q, has-keep-any p xs k) (ground arith)
  ]
