-- ===== src/Toml/Writer.antt =====
-- The writer of the voice editor's text: `voicesToToml` with `quoteTomlName` and `esc`, of
-- apps/react/src/pages/Channels/index.tsx, and `JSON.stringify` of a string.
use any_gateway.Base.{
  ℕ, ◌+◌, ◌/◌, ◌%◌, Bool, true, not, ◌&&◌, ◌||◌, Option, none, some, List, [], ◌∷◌, ◌++◌, map, leb,
  ltb, ◌==◌, if◌then◌else◌,
}
use any_gateway.Base.Text.{Text, lit, is_empty, join}
use any_gateway.Toml.{VoiceEntry}

-- `/^[A-Za-z0-9_-]$/`
unfoldable pub is_bare : ℕ → Bool
is_bare c =
    (leb b'A' c && leb c b'Z')
    || (leb b'a' c && leb c b'z')
    || (leb b'0' c && leb c b'9')
    || c == b'_'
    || c == b'-'

unfoldable pub all_bare : Text → Bool
all_bare [] = true
all_bare (c ∷ s) = is_bare c && all_bare s

abbrev pub is_high : ℕ → Bool
is_high c = leb 0xD800 c && leb c 0xDBFF

abbrev pub is_low : ℕ → Bool
is_low c = leb 0xDC00 c && leb c 0xDFFF

-- `W` stands ten places before `a`.
hex_digit : ℕ → ℕ
hex_digit d = if ltb d 10 then b'0' + d else b'W' + d

unfoldable pub unicode_escape : ℕ → Text
unfolding hex_digit
unicode_escape c =
    b'\\'
    ∷ b'u'
    ∷ hex_digit (c / 4096 % 16)
    ∷ hex_digit (c / 256 % 16)
    ∷ hex_digit (c / 16 % 16)
    ∷ hex_digit (c % 16)
    ∷ []

-- The letter of a code unit's short escape in JSON.
unfoldable pub short_escape : ℕ → Option ℕ
short_escape c =
    if c == b'"'
    then some b'"'
    else if c == b'\\'
    then some b'\\'
    else if c == 8
    then some b'b'
    else if c == 12
    then some b'f'
    else if c == 10
    then some b'n'
    else if c == 13
    then some b'r'
    else if c == 9
    then some b't'
    else none

-- One code unit that is not half of a surrogate pair.
unfoldable pub json_unit : ℕ → Text
json_unit c = elim (short_escape c) [
  | some x ↦ b'\\' ∷ x ∷ []
  | none ↦ if ltb c 32 || is_high c || is_low c then unicode_escape c else c ∷ []
]

-- What `JSON.stringify` writes between the quotes.
unfoldable pub json_body : Text → Text
json_body [] = []
json_body (c ∷ []) = json_unit c
json_body (c ∷ d ∷ s) =
    let pair = c ∷ d ∷ json_body s in
    let single = json_unit c ++ json_body (d ∷ s) in if is_high c && is_low d then pair else single

unfoldable pub json_quote : Text → Text
json_quote s = b'"' ∷ json_body s ++ b'"' ∷ []

-- `quoteTomlName`
unfoldable pub quote_toml_name : Text → Text
unfolding json_quote
quote_toml_name name =
    if not (is_empty name) && all_bare name
    then b'[' ∷ name ++ b']' ∷ []
    else b'[' ∷ json_quote name ++ b']' ∷ []

-- `s.replace(/c/g, r)`
unfoldable pub replace_all : ℕ → Text → Text → Text
replace_all c r [] = []
replace_all c r (d ∷ s) = (if d == c then r else d ∷ []) ++ replace_all c r s

-- `esc`
unfoldable pub esc : Text → Text
unfolding replace_all
esc s =
    replace_all 10 (b'\\' ∷ b'n' ∷ [])
      (replace_all b'"' (b'\\' ∷ b'"' ∷ []) (replace_all b'\\' (b'\\' ∷ b'\\' ∷ []) s))

abbrev pub info_lines : Text → List Text
info_lines info = if is_empty info then [] else (lit "info = \"" ++ esc info ++ lit "\"") ∷ []

abbrev pub url_line : Text → List Text
url_line url = if is_empty url then [] else (lit "trial_url = \"" ++ esc url ++ lit "\"") ∷ []

abbrev pub url_lines : Option Text → List Text
url_lines none = []
url_lines (some url) = url_line url

-- the lines of one voice
unfoldable pub voice_lines : VoiceEntry → List Text
unfolding quote_toml_name esc
voice_lines v = quote_toml_name v.voice ∷ info_lines v.info ++ url_lines v.trial_url

-- `voicesToToml`
unfoldable pub voices_to_toml : List VoiceEntry → Text
unfolding voice_lines
voices_to_toml voices = join (10 ∷ 10 ∷ []) (map (λ v. join (10 ∷ []) (voice_lines v)) voices)
