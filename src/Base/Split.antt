-- ===== src/Base/Split.antt =====
-- Texts cut at line breaks (`split('\n')`), put together again, and cut while they still grow.
use any_gateway.Base.{
  ℕ, ◌≡◌, refl, ap, ◌∙◌, sym, false, ◌==◌, List, [], ◌∷◌, ◌++◌, Bool-cases, inl, inr, All,
}
use any_gateway.Base.Text.{Text, join, split_on, cons_head}

-- The text has no line break.
abbrev pub IsUnbroken : Text → Type 0
IsUnbroken l = All (λ c. (c == 10) ≡ false) l

split_on-line : (l t : Text) → IsUnbroken l → split_on 10 (l ++ (10 ∷ t)) ≡ l ∷ split_on 10 t
unfolding split_on
split_on-line [] t h = refl
split_on-line (c ∷ l) t (h, hs) = rw (h, split_on-line l t hs) refl

pub split_on-last : (l : Text) → IsUnbroken l → split_on 10 l ≡ l ∷ []
unfolding split_on
split_on-last [] h = refl
split_on-last (c ∷ l) (h, hs) = rw (h, split_on-last l hs) refl

pub split_on-join :
    (l : Text) (ls : List Text)
    → All IsUnbroken (l ∷ ls)
    → split_on 10 (join (10 ∷ []) (l ∷ ls)) ≡ l ∷ ls
unfolding join
split_on-join l [] (h, hs) = split_on-last l h
split_on-join l (m ∷ ls) (h, hs) =
    split_on-line l (join (10 ∷ []) (m ∷ ls)) h
    ∙ ap (λ (r : List Text). l ∷ r) (split_on-join m ls hs)

-- the lines before the last one
abbrev pub before_last : List Text → List Text
before_last [] = []
before_last (l ∷ []) = []
before_last (l ∷ m ∷ ls) = l ∷ before_last (m ∷ ls)

-- `lines.pop() ?? ''`
abbrev pub last_line : List Text → Text
last_line [] = []
last_line (l ∷ []) = l
last_line (l ∷ m ∷ ls) = last_line (m ∷ ls)

-- A text cut into lines, with more text behind it.
abbrev pub extended : List Text → Text → List Text
extended ls t = before_last ls ++ split_on 10 (last_line ls ++ t)

-- There is at least one line.
abbrev pub IsCons : List Text → Type 0
IsCons [] = ⊥
IsCons (l ∷ ls) = Unit

pub IsCons-split_on : (s : Text) → IsCons (split_on 10 s)
unfolding split_on
IsCons-split_on [] = tt
IsCons-split_on (c ∷ s) = elim (Bool-cases (c == 10)) [
  | inl e ↦ rw e tt
  | inr e ↦ rw e (go (split_on 10 s) (IsCons-split_on s))
]
  where
    go : (ls : List Text) → IsCons ls → IsCons (cons_head c ls)
    go [] h = elim h [ ]
    go (l ∷ ls) h = tt

extended-new : (ls : List Text) (t : Text) → IsCons ls → extended ([] ∷ ls) t ≡ [] ∷ extended ls t
extended-new [] t h = elim h [ ]
extended-new (l ∷ ls) t h = refl

extended-cons_head :
    (c : ℕ) (ls : List Text) (t : Text)
    → (c == 10) ≡ false
    → IsCons ls
    → extended (cons_head c ls) t ≡ cons_head c (extended ls t)
unfolding split_on
extended-cons_head c [] t e h = elim h [ ]
extended-cons_head c (l ∷ []) t e h = rw e refl
extended-cons_head c (l ∷ m ∷ ls) t e h = refl

pub split_on-append : (s t : Text) → split_on 10 (s ++ t) ≡ extended (split_on 10 s) t
unfolding split_on
split_on-append [] t = refl
split_on-append (c ∷ s) t = elim (Bool-cases (c == 10)) [
  | inl e ↦ rw e (
      ap (λ (r : List Text). [] ∷ r) (split_on-append s t)
      ∙ sym (extended-new (split_on 10 s) t (IsCons-split_on s)))
  | inr e ↦ rw e (
      ap (cons_head c) (split_on-append s t)
      ∙ sym (extended-cons_head c (split_on 10 s) t e (IsCons-split_on s)))
]

IsUnbroken-cons_head :
    (c : ℕ) (ls : List Text)
    → (c == 10) ≡ false
    → IsCons ls
    → IsUnbroken (last_line ls)
    → IsUnbroken (last_line (cons_head c ls))
IsUnbroken-cons_head c [] e h u = elim h [ ]
IsUnbroken-cons_head c (l ∷ []) e h u = (e, u)
IsUnbroken-cons_head c (l ∷ m ∷ ls) e h u = u

last_line-new : (ls : List Text) → IsCons ls → last_line ([] ∷ ls) ≡ last_line ls
last_line-new [] h = elim h [ ]
last_line-new (l ∷ ls) h = refl

-- The text behind the last line break has no line break.
pub last_line-IsUnbroken : (s : Text) → IsUnbroken (last_line (split_on 10 s))
unfolding split_on
last_line-IsUnbroken [] = tt
last_line-IsUnbroken (c ∷ s) = elim (Bool-cases (c == 10)) [
  | inl e ↦ rw (e, last_line-new (split_on 10 s) (IsCons-split_on s)) (last_line-IsUnbroken s)
  | inr e ↦
      rw e (IsUnbroken-cons_head c (split_on 10 s) e (IsCons-split_on s) (last_line-IsUnbroken s))
]

pub before_last-append :
    (ks ls : List Text) → IsCons ls → before_last (ks ++ ls) ≡ ks ++ before_last ls
before_last-append [] ls h = refl
before_last-append (k ∷ []) [] h = elim h [ ]
before_last-append (k ∷ []) (l ∷ ls) h = refl
before_last-append (k ∷ j ∷ ks) ls h =
    ap (λ (r : List Text). k ∷ r) (before_last-append (j ∷ ks) ls h)

pub last_line-append : (ks ls : List Text) → IsCons ls → last_line (ks ++ ls) ≡ last_line ls
last_line-append [] ls h = refl
last_line-append (k ∷ []) [] h = elim h [ ]
last_line-append (k ∷ []) (l ∷ ls) h = refl
last_line-append (k ∷ j ∷ ks) ls h = last_line-append (j ∷ ks) ls h
