-- ===== src/Toml/Accepted.antt =====
-- What the reader guarantees of every text that it accepts.
use any_gateway.Base.{
  ℕ, suc, ◌≡◌, refl, sym, ◌∙◌, Bool, true, false, ◌||◌, Option, some, none, List, [], ◌∷◌, ◌⊎◌, inl,
  inr, arith, All, take, drop, Bool-cases, Option-cases, if◌then◌else◌,
}
use mathlib.Core.Path.{subst}
use any_gateway.Base.Text.{Text, lit, is_empty, trim, text_eq, starts_with, split_lines, index_of}
use any_gateway.Base.Trim.{trim_idem}
use any_gateway.Base.Dict.{
  Dict, Distinct, has, get, put, keys, values, Distinct-keys-put, Each, Each-put, Each-get,
}
use any_gateway.Toml.{
  key_of, check_toml_tail, require_current, require_known, read_toml_string, quote_index,
  assignment_at, open_section, VoiceEntry, Reader, Result, ok, throw, Outcome, at_line, next,
  thrown, returned, set_info, set_trial_url, update, assignment, assignment_line, header_line,
  read_line, read_lines, parse_voices_toml, entries, parse_toml_header, to_outcome, bind-eq-ok,
}
use any_gateway.Toml.Reads.{UrlIsKept, VoiceIsKept}
use any_gateway.Toml.Strings.{readable}
use any_gateway.Toml.Writer.{voices_to_toml}
use any_gateway.Toml.RoundTrip.{names, parse_voices_toml-voices_to_toml}

-- An entry under its own name, which is not empty, with trimmed texts.
abbrev pub EntryIsValid : Text → VoiceEntry → Type 0
EntryIsValid k v =
    (v.voice ≡ k) × (is_empty k ≡ false) × (trim v.info ≡ v.info) × UrlIsKept v.trial_url

record IsValid (r : Reader) : Type 0 where
  distinct : Distinct (keys r.by_name)
  valid : Each EntryIsValid r.by_name

set_info-valid :
    (k value : Text) (v : VoiceEntry) → EntryIsValid k v → EntryIsValid k (set_info value v)
set_info-valid k value v (a, b, c, d) = (a, b, trim_idem value, d)

set_trial_url-valid :
    (k value : Text) (v : VoiceEntry) → EntryIsValid k v → EntryIsValid k (set_trial_url value v)
set_trial_url-valid k value v (a, b, c, d) = elim (Bool-cases (is_empty (trim value))) [
  | inl e ↦ rw e (a, b, c, d)
  | inr e ↦ rw e (a, b, c, (e, trim_idem value))
]

update-IsValid :
    (name : Text) (f : VoiceEntry → VoiceEntry) (r : Reader)
    → ((v : VoiceEntry) → EntryIsValid name v → EntryIsValid name (f v))
    → IsValid r
    → IsValid (update name f r)
update-IsValid name f r step h = elim (Option-cases (get name r.by_name)) [
  | inl e ↦ unfold update in rw (e, update) h
  | inr (v, e) ↦
      unfold update in
      rw (e, update)
        (record {
          distinct = Distinct-keys-put name (f v) r.by_name h.distinct;
          valid =
              Each-put EntryIsValid name (f v) r.by_name
                (step v (Each-get EntryIsValid name v r.by_name e h.valid)) h.valid;
        })
]

-- A line `key = value` writes one trimmed value through `current`.
assignment-eq-ok :
    (line : Text) (eq n : ℕ) (r r' : Reader)
    → assignment line eq n r ≡ ok r'
    → (name : Text) × (value : Text) × ((r' ≡ update name (set_info value) r)
        ⊎ (r' ≡ update name (set_trial_url value) r))
unfolding assignment
assignment-eq-ok line eq n r r' h =
    let (keyed, _, h1) = bind-eq-ok (key_of (take eq line) n) _ h in
    let (_, _, h2) = bind-eq-ok (check_toml_tail (take eq line) keyed.1 n (lit "键")) _ h1 in
    let (name, _, h3) = bind-eq-ok (require_current r.current keyed.0) _ h2 in
    let (_, _, h4) = bind-eq-ok (require_known keyed.0) _ h3 in
    let rest = drop (suc eq) line in
    let (value, _, h5) = bind-eq-ok (read_toml_string rest (quote_index rest) n) _ h4 in
    let (_, _, h6) = bind-eq-ok (check_toml_tail rest value.1 n (lit "值")) _ h5 in
    (name, value.0, written (text_eq keyed.0 (lit "info")) _ _ h6)
  where
    written : (b : Bool) (x y : Reader) → ok (if b then x else y) ≡ ok r' → (r' ≡ x) ⊎ (r' ≡ y)
    written true x y e = inl (cc)
    written false x y e = inr (cc)

assignment-IsValid :
    (line : Text) (eq n : ℕ) (r r' : Reader)
    → assignment line eq n r ≡ ok r'
    → IsValid r
    → IsValid r'
assignment-IsValid line eq n r r' h v =
    let (name, value, e) = assignment-eq-ok line eq n r r' h in
    elim e [
      | inl p ↦ rw p (update-IsValid name (set_info value) r (set_info-valid name value) v)
      | inr p ↦
          rw p (update-IsValid name (set_trial_url value) r (set_trial_url-valid name value) v)
    ]

to_outcome-eq-next : (m : Result Reader) (r' : Reader) → to_outcome m ≡ next r' → m ≡ ok r'
to_outcome-eq-next (ok s) r' h = cc
to_outcome-eq-next (throw e) r' h = cc

assignment_at-IsValid :
    (o : Option ℕ) (line : Text) (n : ℕ) (r r' : Reader)
    → assignment_at o line n r ≡ next r'
    → IsValid r
    → IsValid r'
unfolding assignment_at
assignment_at-IsValid none line n r r' h v = cc
assignment_at-IsValid (some eq) line n r r' h v =
    assignment-IsValid line eq n r r' (to_outcome-eq-next _ r' h) v

next-injective : (r r' : Reader) → next r ≡ next r' → r ≡ r'
next-injective r r' h = cc

new_section :
    (name : Text) (r : Reader)
    → is_empty name ≡ false
    → IsValid r
    → IsValid (record {
      by_name = put name (record { voice = name; info = []; trial_url = none }) r.by_name;
      current = some name;
    })
new_section name r e v = record {
  distinct = Distinct-keys-put name _ r.by_name v.distinct;
  valid = Each-put EntryIsValid name _ r.by_name (refl, e, unfold trim in refl, tt) v.valid;
}

open_section-IsValid :
    (m : Result Text) (n : ℕ) (r r' : Reader)
    → open_section m n r ≡ next r'
    → IsValid r
    → IsValid r'
unfolding open_section
open_section-IsValid (throw e) n r r' h v = cc
open_section-IsValid (ok name) n r r' h v = elim (Bool-cases (is_empty name)) [
  | inl e ↦ absurd (cc (rw e at h))
  | inr e ↦ elim (Bool-cases (has (keys r.by_name) name)) [
    | inl old ↦ absurd (ground arith)
    | inr new ↦ subst IsValid (next-injective _ r' (rw (e, new) at h)) (new_section name r e v)
  ]
]

read_line-IsValid :
    (line : Text) (n : ℕ) (r r' : Reader) → read_line line n r ≡ next r' → IsValid r → IsValid r'
unfolding read_line header_line assignment_line
read_line-IsValid line n r r' h v =
    elim (Bool-cases (is_empty line || starts_with (lit "#") line)) [
      | inl p ↦ subst IsValid (next-injective r r' (rw p at h)) v
      | inr p ↦ elim (Bool-cases (starts_with (lit "[") line)) [
        | inl q ↦ open_section-IsValid (parse_toml_header line n) n r r' (rw (p, q) at h) v
        | inr q ↦ assignment_at-IsValid (index_of b'=' line) line n r r' (rw (p, q) at h) v
      ]
    ]

inl-injective : (d e : Dict VoiceEntry) → ◌≡◌ {A = Dict VoiceEntry ⊎ Text} (inl d) (inl e) → d ≡ e
inl-injective d e h = cc

after_line : Outcome → ℕ → List Text → Dict VoiceEntry ⊎ Text
after_line (next r) idx lines = read_lines (suc idx) lines r
after_line (thrown e) idx lines = inr (at_line (suc idx) e)
after_line (returned e) idx lines = inr e

read_lines-cons :
    (idx : ℕ) (raw : Text) (lines : List Text) (r : Reader)
    → read_lines idx (raw ∷ lines) r ≡ after_line (read_line (trim raw) (suc idx) r) idx lines
unfolding read_lines after_line
read_lines-cons idx raw lines r = ground arith

read_lines-IsValid :
    (idx : ℕ) (lines : List Text) (r : Reader) (d : Dict VoiceEntry)
    → read_lines idx lines r ≡ inl d
    → IsValid r
    → Distinct (keys d) × Each EntryIsValid d
read_lines-IsValid idx [] r d h v =
    let e = inl-injective r.by_name d (unfold read_lines in h) in rw (← e) (v.distinct, v.valid)
read_lines-IsValid idx (raw ∷ lines) r d h v =
    go (read_line (trim raw) (suc idx) r) refl (λ s. read_lines-IsValid (suc idx) lines s d)
      (sym (read_lines-cons idx raw lines r) ∙ h)
  where
    go :
        (o : Outcome)
        → read_line (trim raw) (suc idx) r ≡ o
        → ((s : Reader)
            → read_lines (suc idx) lines s ≡ inl d
            → IsValid s
            → Distinct (keys d) × Each EntryIsValid d)
        → after_line o idx lines ≡ inl d
        → Distinct (keys d) × Each EntryIsValid d
    go (next s) e ih k =
        ih s (unfold after_line in k) (read_line-IsValid (trim raw) (suc idx) r s e v)
    go (thrown t) e ih k = absurd (unfold after_line in cc)
    go (returned t) e ih k = absurd (unfold after_line in cc)

-- A stored voice: its name is not empty, its texts are trimmed, its trial URL is not empty.
abbrev pub VoiceIsValid : VoiceEntry → Type 0
VoiceIsValid v = (is_empty v.voice ≡ false) × (trim v.info ≡ v.info) × UrlIsKept v.trial_url

names-values : (d : Dict VoiceEntry) → Each EntryIsValid d → names (values d) ≡ keys d
names-values [] h = refl
names-values ((k, v) ∷ d) ((e, _, _, _), h) = cc (e, names-values d h)

All-values : (d : Dict VoiceEntry) → Each EntryIsValid d → All VoiceIsValid (values d)
All-values [] h = tt
All-values ((k, v) ∷ d) ((e, n, t, u), h) = ((rw e n, t, u), All-values d h)

entries-eq-inl :
    (x : Dict VoiceEntry ⊎ Text) (vs : List VoiceEntry)
    → entries x ≡ inl vs
    → (d : Dict VoiceEntry) × (x ≡ inl d) × (values d ≡ vs)
entries-eq-inl (inl d) vs h = (d, refl, cc)
entries-eq-inl (inr e) vs h = cc

-- Of every text that the reader accepts, the voices have distinct names that are not empty, their
-- texts are trimmed, and a trial URL that is there is not empty.
pub parse_voices_toml-valid :
    (text : Text) (vs : List VoiceEntry)
    → parse_voices_toml text ≡ inl vs
    → Distinct (names vs) × All VoiceIsValid vs
unfolding parse_voices_toml
parse_voices_toml-valid text vs h =
    let (d, e, same) = entries-eq-inl _ vs h in
    let (u, k) =
      read_lines-IsValid 0 (split_lines text) _ d e (record { distinct = tt; valid = tt }) in
    rw (← same) (rw (names-values d k) u, All-values d k)

IsKept-of_valid :
    (vs : List VoiceEntry)
    → All VoiceIsValid vs
    → All (λ v. readable v.voice ≡ true) vs
    → All VoiceIsKept vs
IsKept-of_valid [] h r = tt
IsKept-of_valid (v ∷ vs) ((e, t, u), h) (r, rs) = ((e, r, t, u), IsKept-of_valid vs h rs)

-- What the reader made of an accepted text, written and read once more, is the same, where the
-- names have only the escapes that the reader knows.
pub parse_voices_toml_stable :
    (text : Text) (vs : List VoiceEntry)
    → parse_voices_toml text ≡ inl vs
    → All (λ v. readable v.voice ≡ true) vs
    → parse_voices_toml (voices_to_toml vs) ≡ inl vs
parse_voices_toml_stable text vs h r =
    let (u, k) = parse_voices_toml-valid text vs h in
    parse_voices_toml-voices_to_toml vs (IsKept-of_valid vs k r) u
