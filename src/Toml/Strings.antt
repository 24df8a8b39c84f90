-- ===== src/Toml/Strings.antt =====
-- Escaped strings: what the two writers of a quoted string put between the quotes is read back.
use mathlib.Core.Path.{subst}
use mathlib.Core.List.{append-nil}
use any_gateway.Base.{
  ℕ, suc, ◌≡◌, refl, ◌≢◌, Bool, true, not, ◌&&◌, ◌||◌, some, none, [], ◌∷◌, Bool-cases,
  Option-cases, inl, inr, ◌++◌, arith, leb, ltb, ◌==◌, if◌then◌else◌, drop, All,
}
use any_gateway.Base.Text.{Text}
use any_gateway.Toml.{ok, prepend, toml_escape, scan_double}
use any_gateway.Toml.Writer.{
  is_high, is_low, short_escape, unicode_escape, json_unit, json_body, esc,
}

-- `Encodes v e`: between double quotes, `e` stands for the value `v`; `e` holds no newline.
pub data Encodes : Text → Text → Type 0 where
  done : Encodes [] []
  plain :
      {c : ℕ} {v e : Text} → c ≢ b'\\' → c ≢ b'"' → c ≢ 10 → Encodes v e → Encodes (c ∷ v) (c ∷ e)
  escaped :
      {x c : ℕ} {v e : Text}
      → toml_escape x ≡ some c
      → Encodes v e
      → Encodes (c ∷ v) (b'\\' ∷ x ∷ e)

-- the index behind the closing quote, for an encoded text that begins at `i`
abbrev pub behind : ℕ → Text → ℕ
behind i [] = suc i
behind i (c ∷ e) = behind (suc i) e

scan_double-close : (n i : ℕ) (rest : Text) → scan_double n i (b'"' ∷ rest) ≡ ok ([], suc i)
unfolding scan_double
scan_double-close n i [] = refl
scan_double-close n i (c ∷ rest) = refl

scan_double-plain :
    (n i c d : ℕ) (rest : Text)
    → c ≢ b'\\'
    → c ≢ b'"'
    → scan_double n i (c ∷ d ∷ rest) ≡ prepend c (scan_double n (suc i) (d ∷ rest))
unfolding scan_double
scan_double-plain n i c d rest p q = ground arith

scan_double-escape :
    (n i x c : ℕ) (rest : Text)
    → toml_escape x ≡ some c
    → scan_double n i (b'\\' ∷ x ∷ rest) ≡ prepend c (scan_double n (suc (suc i)) rest)
unfolding scan_double
scan_double-escape n i x c rest h = rw h

-- A quoted text is read back, up to its closing quote.
pub scan_double-Encodes :
    {v e : Text} (n i : ℕ) (rest : Text)
    → Encodes v e
    → scan_double n i (e ++ b'"' ∷ rest) ≡ ok (v, behind i e)
scan_double-Encodes n i rest done = scan_double-close n i rest
scan_double-Encodes n i rest (plain {c} {e = []} p q r t) =
    ground (arith, scan_double-plain n i c b'"' rest p q, scan_double-Encodes n (suc i) rest t)
scan_double-Encodes n i rest (plain {c} {e = d ∷ e} p q r t) =
    ground (
      arith,
      scan_double-plain n i c d (e ++ b'"' ∷ rest) p q,
      scan_double-Encodes n (suc i) rest t,
    )
scan_double-Encodes n i rest (escaped {x} {c} {e = e} h t) = ground (
  arith,
  scan_double-escape n i x c (e ++ b'"' ∷ rest) h,
  scan_double-Encodes n (suc (suc i)) rest t,
)

behind-suc : (i : ℕ) (e : Text) → behind (suc i) e ≡ suc (behind i e)
behind-suc i [] = refl
behind-suc i (c ∷ e) = behind-suc (suc i) e

drop-behind_zero : (e rest : Text) → drop (behind 0 e) (e ++ b'"' ∷ rest) ≡ rest
drop-behind_zero [] rest = refl
drop-behind_zero (c ∷ e) rest = rw (behind-suc 0 e) (drop-behind_zero e rest)

-- What stands behind the closing quote of a text that is quoted from index 1 on.
pub drop-behind : (a b : ℕ) (e rest : Text) → drop (behind 2 e) (a ∷ b ∷ e ++ b'"' ∷ rest) ≡ rest
drop-behind a b e rest = rw (behind-suc 1 e, behind-suc 0 e) (drop-behind_zero e rest)

toml_escape-ne_newline : (x c : ℕ) → toml_escape x ≡ some c → x ≢ 10
unfolding toml_escape
toml_escape-ne_newline x c h = ground arith

pub Encodes-no_newline : {v e : Text} → Encodes v e → All (λ c. c ≢ 10) e
Encodes-no_newline done = tt
Encodes-no_newline (plain p q r t) = (r, Encodes-no_newline t)
Encodes-no_newline (escaped {x} {c} h t) =
    (omega arith, (toml_escape-ne_newline x c h, Encodes-no_newline t))

abbrev esc_unit : ℕ → Text
esc_unit c =
    if c == b'\\'
    then b'\\' ∷ b'\\' ∷ []
    else if c == b'"'
    then b'\\' ∷ b'"' ∷ []
    else if c == 10
    then b'\\' ∷ b'n' ∷ []
    else c ∷ []

esc-cons : (c : ℕ) (s : Text) → esc (c ∷ s) ≡ esc_unit c ++ esc s
unfolding esc
esc-cons c s = ground arith

esc_unit-Encodes : (c : ℕ) {v e : Text} → Encodes v e → Encodes (c ∷ v) (esc_unit c ++ e)
unfolding toml_escape
esc_unit-Encodes c {v} {e} t = elim (Bool-cases (c == b'\\')) [
  | inl p ↦ rw p (escaped (ground arith) t)
  | inr p ↦ elim (Bool-cases (c == b'"')) [
    | inl q ↦ rw (p, q) (escaped (ground arith) t)
    | inr q ↦ elim (Bool-cases (c == 10)) [
      | inl r ↦ rw (p, q, r) (escaped (ground arith) t)
      | inr r ↦ rw (p, q, r) (plain (ground arith) (ground arith) (ground arith) t)
    ]
  ]
]

-- `esc` encodes every text.
pub esc-Encodes : (s : Text) → Encodes s (esc s)
esc-Encodes [] = unfold esc in done
esc-Encodes (c ∷ s) = rw (esc-cons c s) (esc_unit-Encodes c (esc-Encodes s))

-- A name that JSON writes with the escapes that the reader knows: no control character but tab,
-- newline and carriage return, and no half of a surrogate pair alone.
abbrev readable_unit : ℕ → Bool
readable_unit c = (leb 32 c || c == 9 || c == 10 || c == 13) && not (is_high c || is_low c)

unfoldable pub readable : Text → Bool
readable [] = true
readable (c ∷ []) = readable_unit c
readable (c ∷ d ∷ s) =
    let pair = readable s in
    let single = readable_unit c && readable (d ∷ s) in
    if is_high c && is_low d then pair else single

toml_escape-short_escape :
    (c x : ℕ) → readable_unit c ≡ true → short_escape c ≡ some x → toml_escape x ≡ some c
unfolding short_escape toml_escape
toml_escape-short_escape c x h e = ground arith

no_short_escape : (c : ℕ) → short_escape c ≡ none → (c ≢ b'\\') × (c ≢ b'"') × (c ≢ 10)
unfolding short_escape
no_short_escape c e = ground arith

no_unicode_escape :
    (c : ℕ)
    → readable_unit c ≡ true
    → short_escape c ≡ none
    → (if ltb c 32 || is_high c || is_low c then unicode_escape c else c ∷ []) ≡ c ∷ []
unfolding short_escape
no_unicode_escape c h e = ground arith

json_unit-verbatim : (c : ℕ) → readable_unit c ≡ true → short_escape c ≡ none → json_unit c ≡ c ∷ []
unfolding json_unit
json_unit-verbatim c h e = rw (e, json_unit) (no_unicode_escape c h e)

json_unit-short : (c x : ℕ) → short_escape c ≡ some x → json_unit c ≡ b'\\' ∷ x ∷ []
unfolding json_unit
json_unit-short c x e = rw (e, json_unit)

json_unit-Encodes :
    (c : ℕ) {v e : Text} → readable_unit c ≡ true → Encodes v e → Encodes (c ∷ v) (json_unit c ++ e)
json_unit-Encodes c h t = elim (Option-cases (short_escape c)) [
  | inl p ↦ let (a, b, d) = no_short_escape c p in rw (json_unit-verbatim c h p) (plain a b d t)
  | inr (x, p) ↦ rw (json_unit-short c x p) (escaped (toml_escape-short_escape c x h p) t)
]

-- `JSON.stringify` encodes every readable name.
pub json_body-Encodes : (s : Text) → readable s ≡ true → Encodes s (json_body s)
unfolding json_body readable
json_body-Encodes [] h = done
json_body-Encodes (c ∷ []) h =
    subst (Encodes (c ∷ [])) (append-nil (json_unit c)) (json_unit-Encodes c h done)
json_body-Encodes (c ∷ d ∷ s) h = elim (Bool-cases (is_high c && is_low d)) [
  | inl p ↦ rw p (
      plain (ground arith) (ground arith) (ground arith)
        (plain (ground arith) (ground arith) (ground arith) (json_body-Encodes s (ground arith))))
  | inr p ↦ rw p (json_unit-Encodes c (ground arith) (json_body-Encodes (d ∷ s) (ground arith)))
]
