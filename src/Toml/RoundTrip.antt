-- ===== src/Toml/RoundTrip.antt =====
-- The reader gives back the voices that the writer wrote.
use any_gateway.Base.{
  ℕ, ◌≡◌, ◌≢◌, refl, sym, ap, ◌∙◌, true, false, Option, some, none, List, [], ◌∷◌, ◌++◌, inl, arith,
  map, All, All-append,
}
use mathlib.Core.List.{append_assoc, append-nil}
use any_gateway.Base.Text.{Text, lit, is_empty, join, split_lines, text_eq_iff}
use any_gateway.Base.Dict.{Dict, Distinct, has, keys, values, has-append}
use any_gateway.Base.Trim.{IsLine, IsLine-concat}
use any_gateway.Toml.{VoiceEntry, Reader, read_lines, parse_voices_toml}
use any_gateway.Toml.Strings.{esc-Encodes, Encodes-no_newline, readable}
use any_gateway.Toml.Headers.{quote_toml_name-brackets}
use any_gateway.Toml.Lines.{
  Section, section_lines, later_lines, sheet, split_lines-sections, newline,
}
use any_gateway.Toml.Reads.{VoiceIsKept, Reads-line, Reads-voice, read_line-blank}
use any_gateway.Toml.Writer.{
  esc, quote_toml_name, info_lines, url_lines, voice_lines, voices_to_toml,
}

abbrev section : VoiceEntry → Section
section v = (quote_toml_name v.voice, info_lines v.info ++ url_lines v.trial_url)

abbrev named : List VoiceEntry → Dict VoiceEntry
named [] = []
named (v ∷ vs) = (v.voice, v) ∷ named vs

abbrev pub names : List VoiceEntry → List Text
names [] = []
names (v ∷ vs) = v.voice ∷ names vs

values-named : (vs : List VoiceEntry) → values (named vs) ≡ vs
values-named [] = refl
values-named (v ∷ vs) = ap (λ (ws : List VoiceEntry). v ∷ ws) (values-named vs)

-- None of the names is a key.
abbrev AreNew : Dict VoiceEntry → List VoiceEntry → Type 0
AreNew d vs = All (λ v. has (keys d) v.voice ≡ false) vs

keys-append : (d e : Dict VoiceEntry) → keys (d ++ e) ≡ keys d ++ keys e
keys-append [] e = refl
keys-append ((k, v) ∷ d) e = ap (λ (ks : List Text). k ∷ ks) (keys-append d e)

AreNew-append :
    (d : Dict VoiceEntry) (v : VoiceEntry) (vs : List VoiceEntry)
    → AreNew d vs
    → has (names vs) v.voice ≡ false
    → AreNew (d ++ (v.voice, v) ∷ []) vs
unfolding has
AreNew-append d v [] h k = tt
AreNew-append d v (w ∷ vs) (h, hs) k = (
  rw (keys-append d ((v.voice, v) ∷ [])) (
      ground (
        arith,
        has-append (keys d) (v.voice ∷ []) w.voice,
        text_eq_iff v.voice w.voice,
        text_eq_iff w.voice v.voice,
      )),
  AreNew-append d v vs hs (ground arith),
)

All-new : (vs : List VoiceEntry) → AreNew [] vs
unfolding has
All-new [] = tt
All-new (v ∷ vs) = (refl, All-new vs)

abbrev rest_lines : List VoiceEntry → List Text
rest_lines vs = later_lines (map section vs)

read_rest :
    (idx : ℕ) (vs : List VoiceEntry) (d : Dict VoiceEntry) (cur : Option Text)
    → All VoiceIsKept vs
    → Distinct (names vs)
    → AreNew d vs
    → read_lines idx (rest_lines vs) (record { by_name = d; current = cur }) ≡ inl (d ++ named vs)
unfolding voice_lines
read_rest idx [] d cur k u n = unfold read_lines in ap inl (sym (append-nil d))
read_rest idx (v ∷ vs) d cur (k, ks) (u, us) (n, ns) =
    let r : Reader = record { by_name = d; current = cur } in
    let (i, blank) =
      Reads-line [] r r (λ m. read_line-blank m r) idx
        (section_lines (section v) ++ rest_lines vs) in
    let (j, voice) = Reads-voice v d cur k n i (rest_lines vs) in
    blank
    ∙ voice
    ∙ read_rest j vs (d ++ (v.voice, v) ∷ []) (some v.voice) ks us (AreNew-append d v vs ns u)
    ∙ ap inl (append_assoc d ((v.voice, v) ∷ []) (named vs))

read_sheet :
    (vs : List VoiceEntry)
    → All VoiceIsKept vs
    → Distinct (names vs)
    → read_lines 0 (sheet (map section vs)) (record { by_name = []; current = none })
      ≡ inl (named vs)
unfolding voice_lines has
read_sheet [] k u =
    (Reads-line [] _ _ (λ m. read_line-blank m _) 0 []).1 ∙ unfold read_lines in refl
read_sheet (v ∷ vs) (k, ks) (u, us) =
    let (j, voice) = Reads-voice v [] none k refl 0 (rest_lines vs) in
    voice
    ∙ read_rest j vs ((v.voice, v) ∷ []) (some v.voice) ks us (AreNew-append [] v vs (All-new vs) u)

quoted-IsLine :
    (key : Text) (s : Text) → All (λ c. c ≢ 10) key → IsLine ((key ++ esc s) ++ lit "\"")
unfolding lit
quoted-IsLine key s h =
    IsLine-concat (key ++ esc s) b'"'
      (All-append (λ c. c ≢ 10) key (esc s) h (Encodes-no_newline (esc-Encodes s))) (omega arith)
      (omega arith)

info_lines-IsLine : (info : Text) → All IsLine (info_lines info)
info_lines-IsLine [] = tt
info_lines-IsLine (c ∷ s) =
    (quoted-IsLine (lit "info = \"") (c ∷ s) (unfold lit in omega arith), tt)

url_lines-IsLine : (url : Option Text) → All IsLine (url_lines url)
url_lines-IsLine none = tt
url_lines-IsLine (some []) = tt
url_lines-IsLine (some (c ∷ s)) =
    (quoted-IsLine (lit "trial_url = \"") (c ∷ s) (unfold lit in omega arith), tt)

header-IsLine :
    (name : Text) → is_empty name ≡ false → readable name ≡ true → IsLine (quote_toml_name name)
header-IsLine name e h =
    let (m, brackets, no_newline) = quote_toml_name-brackets name e h in
    rw brackets
      (IsLine-concat (b'[' ∷ m) b']' (omega arith, no_newline) (omega arith) (omega arith))

later_lines-IsLine : (vs : List VoiceEntry) → All VoiceIsKept vs → All IsLine (rest_lines vs)
later_lines-IsLine [] k = tt
later_lines-IsLine (v ∷ vs) ((e, h, _, _), ks) = (
  tt,
  (
    header-IsLine v.voice e h,
    All-append IsLine (info_lines v.info ++ url_lines v.trial_url) (rest_lines vs)
        (All-append IsLine _ _ (info_lines-IsLine v.info) (url_lines-IsLine v.trial_url))
        (later_lines-IsLine vs ks),
  ),
)

sheet-IsLine : (vs : List VoiceEntry) → All VoiceIsKept vs → All IsLine (sheet (map section vs))
sheet-IsLine [] k = (tt, tt)
sheet-IsLine (v ∷ vs) k = (later_lines-IsLine (v ∷ vs) k).1

written :
    (vs : List VoiceEntry)
    → map (λ v. join newline (voice_lines v)) vs
      ≡ map (λ s. join newline (section_lines s)) (map section vs)
unfolding voice_lines
written [] = refl
written (v ∷ vs) =
    ap (λ (ts : List Text). join newline (section_lines (section v)) ∷ ts) (written vs)

split_lines-voices_to_toml :
    (vs : List VoiceEntry)
    → All VoiceIsKept vs
    → split_lines (voices_to_toml vs) ≡ sheet (map section vs)
unfolding voices_to_toml
split_lines-voices_to_toml vs k =
    ap (λ (ts : List Text). split_lines (join (10 ∷ 10 ∷ []) ts)) (written vs)
    ∙ split_lines-sections (map section vs) (sheet-IsLine vs k)

-- The text that the writer makes of distinct voices is read back as the same voices in the same
-- order, where every name is not empty and has only the escapes that the reader knows, and every
-- text is trimmed.
pub parse_voices_toml-voices_to_toml :
    (vs : List VoiceEntry)
    → All VoiceIsKept vs
    → Distinct (names vs)
    → parse_voices_toml (voices_to_toml vs) ≡ inl vs
unfolding parse_voices_toml
parse_voices_toml-voices_to_toml vs k u =
    rw (split_lines-voices_to_toml vs k, read_sheet vs k u) (ap inl (values-named vs))
