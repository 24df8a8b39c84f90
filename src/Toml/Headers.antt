-- ===== src/Toml/Headers.antt =====
-- The reader on the header lines that the writer makes, bare and quoted.
use mathlib.Core.List.{append_assoc}
use any_gateway.Base.{
  ℕ, zero, suc, ◌+◌, ◌≡◌, ◌≢◌, sym, ap, ◌∙◌, true, false, some, List, [], ◌∷◌, ◌++◌, arith, length,
  get_elem?, drop, All, All-append, Bool-cases, inl, inr, take-append_length, drop-append_length,
}
use any_gateway.Base.Text.{Text, is_empty, is_space, trim, index_of}
use any_gateway.Base.Trim.{trim_of_All}
use any_gateway.Toml.{
  ok, opens_quote, is_quote, skip_spaces, read_toml_string, check_toml_tail, header_name,
  close_header, parse_toml_header,
}
use any_gateway.Toml.Writer.{is_bare, all_bare, json_body, quote_toml_name}
use any_gateway.Toml.Strings.{
  Encodes, behind, scan_double-Encodes, drop-behind, readable, json_body-Encodes,
  Encodes-no_newline,
}

module _ {ℓ} {A : Type ℓ} where
  get_elem?-drop :
      (l : List A) (i : ℕ) (c : A) (t : List A) → drop i l ≡ c ∷ t → get_elem? l i ≡ some c
  get_elem?-drop [] zero c t h = cc
  get_elem?-drop [] (suc i) c t h = cc
  get_elem?-drop (x ∷ l) zero c t h = cc
  get_elem?-drop (x ∷ l) (suc i) c t h = get_elem?-drop l i c t h

  drop-suc : (l : List A) (i : ℕ) (c : A) (t : List A) → drop i l ≡ c ∷ t → drop (suc i) l ≡ t
  drop-suc [] zero c t h = cc
  drop-suc [] (suc i) c t h = cc
  drop-suc (x ∷ l) zero c t h = cc
  drop-suc (x ∷ l) (suc i) c t h = drop-suc l i c t h

-- A closing bracket at the end of the line ends the header.
close_header-end :
    (line name : Text) (n i : ℕ) → drop i line ≡ b']' ∷ [] → close_header line n name i ≡ ok name
unfolding close_header check_toml_tail trim
close_header-end line name n i h = rw (get_elem?-drop line i b']' [] h, drop-suc line i b']' [] h)

skip_spaces-close : (i : ℕ) (t : Text) → t ≡ b']' ∷ [] → skip_spaces i t ≡ i
unfolding skip_spaces
skip_spaces-close i t h = rw h

index_of-append :
    (c : ℕ) (s t : Text) → All (λ d. d ≢ c) s → index_of c (s ++ c ∷ t) ≡ some (length s)
unfolding index_of
index_of-append c [] t h = ground arith
index_of-append c (d ∷ s) t (p, h) = ground (arith, index_of-append c s t h)

is_bare-not_special :
    (c : ℕ)
    → is_bare c ≡ true
    → (is_space c ≡ false) × (is_quote c ≡ false) × (c ≢ b' ') × (c ≢ b']') × (c ≢ 10)
unfolding is_bare is_space
is_bare-not_special c h = ground arith

all_bare-no_space : (s : Text) → all_bare s ≡ true → All (λ c. is_space c ≡ false) s
unfolding all_bare
all_bare-no_space [] h = tt
all_bare-no_space (c ∷ s) h =
    ((is_bare-not_special c (ground arith)).0, all_bare-no_space s (ground arith))

all_bare-no_newline : (s : Text) → all_bare s ≡ true → All (λ c. c ≢ 10) s
unfolding all_bare
all_bare-no_newline [] h = tt
all_bare-no_newline (c ∷ s) h =
    ((is_bare-not_special c (ground arith)).4, all_bare-no_newline s (ground arith))

all_bare-no_bracket : (s : Text) → all_bare s ≡ true → All (λ c. c ≢ b']') s
unfolding all_bare
all_bare-no_bracket [] h = tt
all_bare-no_bracket (c ∷ s) h =
    ((is_bare-not_special c (ground arith)).3, all_bare-no_bracket s (ground arith))

-- The name of a bare header, and the index of its bracket.
bare_name :
    (n c : ℕ) (s : Text)
    → all_bare (c ∷ s) ≡ true
    → is_quote c ≡ false
    → header_name (b'[' ∷ (c ∷ s) ++ b']' ∷ []) 1 n ≡ ok (c ∷ s, 1 + length (c ∷ s))
unfolding header_name opens_quote
bare_name n c s h q = rw (
  q,
  index_of-append b']' (c ∷ s) [] (all_bare-no_bracket (c ∷ s) h),
  take-append_length (c ∷ s) (b']' ∷ []),
  trim_of_All (c ∷ s) (all_bare-no_space (c ∷ s) h),
)

skip_spaces-bare : (i c : ℕ) (t : Text) → c ≢ b' ' → skip_spaces i (c ∷ t) ≡ i
unfolding skip_spaces
skip_spaces-bare i c t h = ground arith

bare_bracket :
    (c : ℕ) (s : Text) → drop (1 + length (c ∷ s)) (b'[' ∷ (c ∷ s) ++ b']' ∷ []) ≡ b']' ∷ []
bare_bracket c s =
    let e : 1 + length (c ∷ s) ≡ suc (suc (length s)) = omega arith in
    rw e (drop-append_length s (b']' ∷ []))

bare_header :
    (n c : ℕ) (s : Text)
    → all_bare (c ∷ s) ≡ true
    → is_bare c ≡ true
    → parse_toml_header (b'[' ∷ (c ∷ s) ++ b']' ∷ []) n ≡ ok (c ∷ s)
unfolding parse_toml_header
bare_header n c s h b =
    let (_, q, sp, _, _) = is_bare-not_special c b in
    rw (
      skip_spaces-bare 1 c (s ++ b']' ∷ []) sp,
      bare_name n c s h q,
      skip_spaces-close (1 + length (c ∷ s)) _ (bare_bracket c s),
      close_header-end _ (c ∷ s) n _ (bare_bracket c s),
    )

quoted_name :
    (n : ℕ) {v e : Text} (rest : Text)
    → Encodes v e
    → header_name (b'[' ∷ b'"' ∷ e ++ b'"' ∷ rest) 1 n ≡ ok (v, behind 2 e)
unfolding header_name opens_quote read_toml_string
quoted_name n rest t = scan_double-Encodes n 2 rest t

quoted_header :
    (n : ℕ) {v e : Text}
    → Encodes v e
    → parse_toml_header (b'[' ∷ b'"' ∷ e ++ b'"' ∷ b']' ∷ []) n ≡ ok v
unfolding parse_toml_header
quoted_header n {v} {e} t =
    let bracket = drop-behind b'[' b'"' e (b']' ∷ []) in
    rw (
      skip_spaces-bare 1 b'"' (e ++ b'"' ∷ b']' ∷ []) (omega arith),
      quoted_name n (b']' ∷ []) t,
      skip_spaces-close (behind 2 e) _ bracket,
      close_header-end _ v n _ bracket,
    )

quote_toml_name-bare :
    (c : ℕ) (s : Text)
    → all_bare (c ∷ s) ≡ true
    → quote_toml_name (c ∷ s) ≡ b'[' ∷ (c ∷ s) ++ b']' ∷ []
unfolding quote_toml_name
quote_toml_name-bare c s p = rw p

quote_toml_name-quoted :
    (c : ℕ) (s : Text)
    → all_bare (c ∷ s) ≡ false
    → quote_toml_name (c ∷ s) ≡ b'[' ∷ b'"' ∷ json_body (c ∷ s) ++ b'"' ∷ b']' ∷ []
unfolding quote_toml_name
quote_toml_name-quoted c s p =
    rw p (
      ap (λ (t : Text). b'[' ∷ b'"' ∷ t) (append_assoc (json_body (c ∷ s)) (b'"' ∷ []) (b']' ∷ [])))

all_bare-head : (c : ℕ) (s : Text) → all_bare (c ∷ s) ≡ true → is_bare c ≡ true
unfolding all_bare
all_bare-head c s h = ground arith

-- The header of a readable name is read back.
pub header_read :
    (n : ℕ) (name : Text)
    → is_empty name ≡ false
    → readable name ≡ true
    → parse_toml_header (quote_toml_name name) n ≡ ok name
header_read n [] e h = cc
header_read n (c ∷ s) e h = elim (Bool-cases (all_bare (c ∷ s))) [
  | inl p ↦ rw (quote_toml_name-bare c s p) (bare_header n c s p (all_bare-head c s p))
  | inr p ↦ rw (quote_toml_name-quoted c s p) (quoted_header n (json_body-Encodes (c ∷ s) h))
]

-- A header is a line between brackets.
pub quote_toml_name-brackets :
    (name : Text)
    → is_empty name ≡ false
    → readable name ≡ true
    → (m : Text) × (quote_toml_name name ≡ b'[' ∷ m ++ b']' ∷ []) × All (λ c. c ≢ 10) m
quote_toml_name-brackets [] e h = cc
quote_toml_name-brackets (c ∷ s) e h = elim (Bool-cases (all_bare (c ∷ s))) [
  | inl p ↦ (c ∷ s, quote_toml_name-bare c s p, all_bare-no_newline (c ∷ s) p)
  | inr p ↦
      let encoded = json_body-Encodes (c ∷ s) h in
      (
        b'"' ∷ json_body (c ∷ s) ++ b'"' ∷ [],
        quote_toml_name-quoted c s p
            ∙ ap (λ (t : Text). b'[' ∷ b'"' ∷ t)
                (sym (append_assoc (json_body (c ∷ s)) (b'"' ∷ []) (b']' ∷ []))),
        All-append (λ c. c ≢ 10) (b'"' ∷ json_body (c ∷ s)) (b'"' ∷ [])
            (omega arith, Encodes-no_newline encoded) (omega arith),
      )
]
