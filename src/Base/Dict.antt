-- ===== src/Base/Dict.antt =====
-- JavaScript's `Map`, `Set` and plain objects with text keys: entries in the order of insertion,
-- a write to a present key stays in its place. Keys that read as array indices, which a plain
-- object would list first, are outside the model.
use mathlib.Core.Path.{◌≡◌, refl, sym, subst}
use mathlib.Core.Logic.{◌↔◌, inl, inr}
use mathlib.Core.Bool.{Bool, false, ◌||◌}
use mathlib.Core.Option.{Option, none, some}
use mathlib.Core.List.{List, [], ◌∷◌, ◌++◌}
use mathlib.Core.List.{append-nil, append_assoc}
use mathlib.Core.Path.{◌∙◌}
use native.Mathlib.Omega.{arith}
use any_gateway.Base.Tests.{if◌then◌else◌, Bool-cases}
use any_gateway.Base.Text.{Text, text_eq, text_eq_iff, text_eq_refl}

abbrev pub Dict {ℓ} : Type ℓ → Type ℓ
Dict V = List (Text × V)

-- `xs.includes(k)`, `set.has(k)`
unfoldable pub has : List Text → Text → Bool
has [] k = false
has (j ∷ js) k = text_eq j k || has js k

-- no text twice
abbrev pub Distinct : List Text → Type 0
Distinct [] = Unit
Distinct (k ∷ ks) = (has ks k ≡ false) × Distinct ks

module _ {ℓ} {V : Type ℓ} where
  unfoldable pub get : Text → Dict V → Option V
  get k [] = none
  get k ((j, v) ∷ d) = if text_eq j k then some v else get k d

  unfoldable pub put : Text → V → Dict V → Dict V
  put k v [] = (k, v) ∷ []
  put k v ((j, w) ∷ d) = if text_eq j k then (j, v) ∷ d else (j, w) ∷ put k v d

  -- `delete d[k]`
  unfoldable pub remove : Text → Dict V → Dict V
  remove k [] = []
  remove k ((j, v) ∷ d) = let rest = remove k d in if text_eq j k then rest else (j, v) ∷ rest

  abbrev pub keys : Dict V → List Text
  keys [] = []
  keys ((j, v) ∷ d) = j ∷ keys d

  abbrev pub values : Dict V → List V
  values [] = []
  values ((j, v) ∷ d) = v ∷ values d

  pub get-put :
      (k j : Text) (v : V) (d : Dict V)
      → get j (put k v d) ≡ (if text_eq k j then some v else get j d)
  unfolding get put
  get-put k j v [] = refl
  get-put k j v ((i, w) ∷ d) =
      ground (arith, text_eq_iff k j, text_eq_iff i k, text_eq_iff i j, get-put k j v d)

  pub get-remove :
      (k j : Text) (d : Dict V) → get j (remove k d) ≡ (if text_eq k j then none else get j d)
  unfolding get remove
  get-remove k j [] = ground arith
  get-remove k j ((i, w) ∷ d) =
      ground (arith, text_eq_iff k j, text_eq_iff i k, text_eq_iff i j, get-remove k j d)

  pub has-keys-put :
      (k j : Text) (v : V) (d : Dict V) → has (keys (put k v d)) j ≡ (text_eq k j || has (keys d) j)
  unfolding has put
  has-keys-put k j v [] = refl
  has-keys-put k j v ((i, w) ∷ d) =
      ground (arith, text_eq_iff k j, text_eq_iff i k, text_eq_iff i j, has-keys-put k j v d)

  pub Distinct-keys-put :
      (k : Text) (v : V) (d : Dict V) → Distinct (keys d) → Distinct (keys (put k v d))
  unfolding put has
  Distinct-keys-put k v [] h = ground arith
  Distinct-keys-put k v ((i, w) ∷ d) (new, h) =
      ground
        (arith, text_eq_iff i k, text_eq_iff k i, has-keys-put k i v d, Distinct-keys-put k v d h)

  pub put-new :
      (d : Dict V) (k : Text) (v : V) → has (keys d) k ≡ false → put k v d ≡ d ++ (k, v) ∷ []
  unfolding put has
  put-new [] k v h = refl
  put-new ((j, u) ∷ d) k v h = ground (arith, put-new d k v)

  pub get-eq-none_iff : (k : Text) (d : Dict V) → (get k d ≡ none) ↔ (has (keys d) k ≡ false)
  unfolding get has
  get-eq-none_iff k [] = ground arith
  get-eq-none_iff k ((i, w) ∷ d) = ground (arith, get-eq-none_iff k d)

module _ {ℓ} {V : Type ℓ} (P : Text → V → Type 0) where
  -- `P` holds of every entry.
  abbrev pub Each : Dict V → Type 0
  Each [] = Unit
  Each ((k, v) ∷ d) = P k v × Each d

  pub Each-put : (k : Text) (v : V) (d : Dict V) → P k v → Each d → Each (put k v d)
  unfolding put
  Each-put k v [] p h = (p, tt)
  Each-put k v ((j, w) ∷ d) p (q, h) = elim (Bool-cases (text_eq j k)) [
    | inl same ↦ rw same (subst (λ i. P i v) (sym ((text_eq_iff j k).0 same)) p, h)
    | inr other ↦ rw other (q, Each-put k v d p h)
  ]

  pub Each-get : (k : Text) (v : V) (d : Dict V) → get k d ≡ some v → Each d → P k v
  unfolding get
  Each-get k v [] e h = cc
  Each-get k v ((j, w) ∷ d) e (q, h) = elim (Bool-cases (text_eq j k)) [
    | inl same ↦
        let e' : w ≡ v = ground arith in
        subst (λ u. P k u) e' (subst (λ i. P i w) ((text_eq_iff j k).0 same) q)
    | inr other ↦ Each-get k v d (ground arith) h
  ]

-- What holds of every entry that is found holds of every entry, where no key comes twice.
pub Each-of_get {ℓ} :
    {V : Type ℓ} (P : Text → V → Type 0) (d : Dict V)
    → Distinct (keys d)
    → ((k : Text) (v : V) → get k d ≡ some v → P k v)
    → Each P d
unfolding get
Each-of_get P [] u h = tt
Each-of_get P ((k, v) ∷ d) (n, u) h =
    (h k v (rw (text_eq_refl k) refl), Each-of_get P d u λ j w g. h j w (later j w g))
  where
    later : (j : Text) (w : _) → get j d ≡ some w → get j ((k, v) ∷ d) ≡ some w
    later j w g = elim (Bool-cases (text_eq k j)) [
      | inl e ↦
          let same = (text_eq_iff k j).0 e in
          let gone = (get-eq-none_iff j d).1 (rw same at n) in absurd (cc (g, gone))
      | inr e ↦ rw e g
    ]

-- `set.add(k)`
unfoldable pub add : Text → List Text → List Text
unfolding has
add k ks = if has ks k then ks else ks ++ k ∷ []

unfoldable pub add_all : List Text → List Text → List Text
unfolding add
add_all [] ks = ks
add_all (j ∷ js) ks = add_all js (add j ks)

-- `Array.from(new Set(ks))`: the first occurrences, in order
unfoldable pub unique : List Text → List Text
unfolding add_all
unique ks = add_all ks []

pub has-append : (js ks : List Text) (k : Text) → has (js ++ ks) k ≡ (has js k || has ks k)
unfolding has
has-append [] ks k = refl
has-append (j ∷ js) ks k = ground (arith, has-append js ks k)

pub has-add : (j : Text) (ks : List Text) (k : Text) → has (add j ks) k ≡ (has ks k || text_eq j k)
unfolding add
has-add j ks k = unfold has in ground (arith, has-append ks (j ∷ []) k, text_eq_iff j k)

pub Distinct-concat :
    (ks : List Text) (k : Text) → Distinct ks → has ks k ≡ false → Distinct (ks ++ k ∷ [])
unfolding has
Distinct-concat [] k h new = ground arith
Distinct-concat (j ∷ ks) k (h, d) new =
    ground
      (arith, has-append ks (k ∷ []) j, text_eq_iff j k, text_eq_iff k j, Distinct-concat ks k d)

pub Distinct-add : (k : Text) (ks : List Text) → Distinct ks → Distinct (add k ks)
unfolding add
Distinct-add k ks d = elim (Bool-cases (has ks k)) [
  | inl old ↦ rw old d
  | inr new ↦ rw new (Distinct-concat ks k d new)
]

pub has-add_all : (js ks : List Text) (k : Text) → has (add_all js ks) k ≡ (has ks k || has js k)
unfolding add_all
has-add_all [] ks k = unfold has in ground arith
has-add_all (j ∷ js) ks k =
    unfold has in ground (arith, has-add_all js (add j ks) k, has-add j ks k)

pub Distinct-add_all : (js ks : List Text) → Distinct ks → Distinct (add_all js ks)
unfolding add_all
Distinct-add_all [] ks d = d
Distinct-add_all (j ∷ js) ks d = Distinct-add_all js (add j ks) (Distinct-add j ks d)

pub has-unique : (ks : List Text) (k : Text) → has (unique ks) k ≡ has ks k
unfolding unique
has-unique ks k = unfold has in ground (arith, has-add_all ks [] k)

pub Distinct-unique : (ks : List Text) → Distinct (unique ks)
unfolding unique
Distinct-unique ks = Distinct-add_all ks [] tt

pub has-prefix :
    (ks : List Text) (j : Text) (js : List Text) → Distinct (ks ++ j ∷ js) → has ks j ≡ false
unfolding has
has-prefix [] j js d = refl
has-prefix (k ∷ ks) j js (n, d) =
    ground (arith, has-append ks (j ∷ js) k, has-prefix ks j js d, text_eq_iff k j, text_eq_iff j k)

add_all-Distinct : (js ks : List Text) → Distinct (ks ++ js) → add_all js ks ≡ ks ++ js
unfolding add_all
add_all-Distinct [] ks d = sym (append-nil ks)
add_all-Distinct (j ∷ js) ks d =
    let new = has-prefix ks j js d in
    rw new (add_all-Distinct js (ks ++ j ∷ []) (rw append_assoc d) ∙ append_assoc ks (j ∷ []) js)

-- A list without repetitions is left as it is.
pub unique_of_Distinct : (ks : List Text) → Distinct ks → unique ks ≡ ks
unfolding unique
unique_of_Distinct ks d = add_all-Distinct ks [] d
