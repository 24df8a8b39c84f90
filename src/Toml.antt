-- ===== src/Toml.antt =====
-- The TOML subset of the voice editor, apps/react/src/pages/Channels/index.tsx: the reader
-- `parseVoicesToml` with its helpers, and the writer `voicesToToml`.
pub mod Writer
mod Tests
pub mod Strings
pub mod Lines
pub mod Reads
pub mod RoundTrip
pub mod Accepted
pub mod Headers
pub mod Steps
use any_gateway.Base.{
  ℕ, ◌≡◌, refl, zero, suc, ◌+◌, ◌-◌, ◌/◌, ◌%◌, Bool, true, false, not, ◌&&◌, ◌||◌, Option, none,
  some, List, [], ◌∷◌, ◌++◌, map, leb, ltb, ◌==◌, if◌then◌else◌, length, get_elem?, take, drop, ◌⊎◌,
  inl, inr,
}
use any_gateway.Base.Text.{
  Text, lit, is_empty, trim, starts_with, index_of, join, split_lines, decimal, text_eq,
}
use any_gateway.Base.Dict.{Dict, has, get, put, keys, values}

pub record VoiceEntry : Type 0 where
  pub voice : Text
  pub info : Text
  pub trial_url : Option Text

-- What a function that may throw an `Error` gives: the value, or the error's message.
pub data Result {ℓ} (T : Type ℓ) : Type ℓ where
  throw : (message : Text) → Result T
  ok : (value : T) → Result T

pub Result-cases {ℓ} :
    {T : Type ℓ} (r : Result T)
    → ((value : T) × (r ≡ ok value)) ⊎ ((message : Text) × (r ≡ throw message))
Result-cases (throw message) = inr (message, refl)
Result-cases (ok value) = inl (value, refl)

infixl 5 ◌>>=◌
abbrev pub ◌>>=◌ {κ ℓ} : {S : Type κ} {T : Type ℓ} (first : Result S) → (S → Result T) → Result T
throw message >>= go_on = throw message
ok value >>= go_on = go_on value

pub bind-eq-ok {κ ℓ} :
    {S : Type κ} {T : Type ℓ} (first : Result S) (go_on : S → Result T) {last : T}
    → (first >>= go_on) ≡ ok last
    → (value : S) × (first ≡ ok value) × (go_on value ≡ ok last)
bind-eq-ok (throw message) go_on same = cc
bind-eq-ok (ok value) go_on same = (value, refl, same)

-- `第 ${lineNo} 行：`
unfoldable pub at_line : ℕ → Text → Text
at_line n message = lit "第 " ++ decimal n ++ lit " 行：" ++ message

-- `TOML_ESCAPES`
unfoldable pub toml_escape : ℕ → Option ℕ
toml_escape c =
    if c == b'"'
    then some b'"'
    else if c == b'\\'
    then some b'\\'
    else if c == b'n'
    then some 10
    else if c == b'r'
    then some 13
    else if c == b't'
    then some 9
    else none

unfoldable pub bad_escape : ℕ → Option ℕ → Text
bad_escape line_no none = at_line line_no (lit "非法转义 \\")
bad_escape line_no (some c) = at_line line_no (lit "非法转义 \\" ++ c ∷ [])

unfoldable pub unclosed : ℕ → Text
unclosed line_no = at_line line_no (lit "字符串未闭合")

abbrev pub prepend : ℕ → Result (Text × ℕ) → Result (Text × ℕ)
prepend c r = r >>= λ v. ok (c ∷ v.0, v.1)

-- The loop of `readTomlString` for the quote `'`: `i` is the index in the line of the rest, the
-- second part of the result the index behind the closing quote.
unfoldable pub scan_single : ℕ → ℕ → Text → Result (Text × ℕ)
unfolding unclosed
scan_single line_no i [] = throw (unclosed line_no)
scan_single line_no i (ch ∷ rest) =
    let more = prepend ch (scan_single line_no (suc i) rest) in
    if ch == b'\'' then ok ([], suc i) else more

-- The same for the quote `"`, with escapes.
unfoldable pub scan_double : ℕ → ℕ → Text → Result (Text × ℕ)
unfolding unclosed bad_escape
scan_double line_no i [] = throw (unclosed line_no)
scan_double line_no i (ch ∷ []) =
    if ch == b'\\'
    then throw (bad_escape line_no none)
    else if ch == b'"'
    then ok ([], suc i)
    else throw (unclosed line_no)
scan_double line_no i (ch ∷ nxt ∷ rest) =
    let escaped : Result (Text × ℕ) = elim (toml_escape nxt) [
      | none ↦ throw (bad_escape line_no (some nxt))
      | some c ↦ prepend c (scan_double line_no (suc (suc i)) rest)
    ] in
    let plain = prepend ch (scan_double line_no (suc i) (nxt ∷ rest)) in
    if ch == b'\\' then escaped else if ch == b'"' then ok ([], suc i) else plain

unfoldable pub read_from : ℕ → ℕ → Text → Result (Text × ℕ)
read_from line_no start [] = throw (at_line line_no (lit "值必须是带引号的字符串"))
read_from line_no start (quote ∷ rest) =
    if quote == b'"'
    then scan_double line_no (suc start) rest
    else if quote == b'\''
    then scan_single line_no (suc start) rest
    else throw (at_line line_no (lit "值必须是带引号的字符串"))

-- `readTomlString(line, start, lineNo)`; a start of `none` is -1, where the line has no character.
unfoldable pub read_toml_string : Text → Option ℕ → ℕ → Result (Text × ℕ)
unfolding read_from
read_toml_string line none line_no = read_from line_no zero []
read_toml_string line (some start) line_no = read_from line_no start (drop start line)

-- `checkTomlTail`
unfoldable pub check_toml_tail : Text → ℕ → ℕ → Text → Result (Unit {0})
check_toml_tail line i line_no what =
    let rest = trim (drop i line) in
    if not (is_empty rest) && not (starts_with (lit "#") rest)
    then throw (at_line line_no (what ++ lit "后有多余内容 \"" ++ rest ++ lit "\""))
    else ok tt

-- `while (i < line.length && line[i] === ' ') i++`, on the rest of the line at `i`
unfoldable pub skip_spaces : ℕ → Text → ℕ
skip_spaces i [] = i
skip_spaces i (c ∷ rest) = let more = skip_spaces (suc i) rest in if c == 32 then more else i

abbrev pub is_quote : ℕ → Bool
is_quote c = c == b'"' || c == b'\''

unfoldable pub opens_quote : Option ℕ → Bool
opens_quote none = false
opens_quote (some c) = is_quote c

unfoldable pub no_bracket : ℕ → Text
no_bracket line_no = at_line line_no (lit "小节头缺少 ]")

unfoldable pub header_name : Text → ℕ → ℕ → Result (Text × ℕ)
header_name line i line_no =
    if opens_quote (get_elem? line i)
    then read_toml_string line (some i) line_no
    else elim (index_of b']' (drop i line)) [
      | none ↦ throw (no_bracket line_no)
      | some k ↦ ok (trim (take k (drop i line)), i + k)
    ]

abbrev pub is_close : Option ℕ → Bool
is_close none = false
is_close (some c) = c == b']'

unfoldable pub close_header : Text → ℕ → Text → ℕ → Result Text
unfolding check_toml_tail no_bracket
close_header line line_no name i =
    if is_close (get_elem? line i)
    then (check_toml_tail line (suc i) line_no (lit "小节头") >>= λ _. ok name)
    else throw (no_bracket line_no)

-- `parseTomlHeader`
unfoldable pub parse_toml_header : Text → ℕ → Result Text
parse_toml_header line line_no = do
  named ← header_name line (skip_spaces 1 (drop 1 line)) line_no
  close_header line line_no named.0 (skip_spaces named.1 (drop named.1 line))

-- `byName` and the entry that `current` points to. Names are the keys of `byName` and the entry of
-- a name is never replaced, so the alias is the name.
pub record Reader : Type 0 where
  pub by_name : Dict VoiceEntry
  pub current : Option Text

-- A line is read, throws, or makes the function return a message at once.
pub data Outcome : Type 0 where
  next : Reader → Outcome
  thrown : Text → Outcome
  returned : Text → Outcome

unfoldable pub open_section : Result Text → ℕ → Reader → Outcome
open_section (throw e) line_no r = thrown e
open_section (ok name) line_no r =
    if is_empty name
    then returned (at_line line_no (lit "音色名为空"))
    else if has (keys r.by_name) name
    then returned (at_line line_no (lit "音色 \"" ++ name ++ lit "\" 重复"))
    else next (record {
      by_name = put name (record { voice = name; info = []; trial_url = none }) r.by_name;
      current = some name;
    })

unfoldable pub header_line : Text → ℕ → Reader → Outcome
unfolding open_section
header_line line line_no r = open_section (parse_toml_header line line_no) line_no r

-- `raw.search(/["']/)`
unfoldable pub quote_index : Text → Option ℕ
quote_index [] = none
quote_index (c ∷ s) =
    let rest : Option ℕ = elim (quote_index s) [ none ↦ none | some i ↦ some (suc i) ] in
    if is_quote c then some zero else rest

-- the key of a `key = value` line, and the index behind it
unfoldable pub key_from : Text → Text → ℕ → Result (Text × ℕ)
unfolding read_toml_string
key_from raw [] line_no = ok ([], length raw)
key_from raw (c ∷ s) line_no =
    if is_quote c then read_toml_string raw (index_of c raw) line_no else ok (c ∷ s, length raw)

unfoldable pub key_of : Text → ℕ → Result (Text × ℕ)
unfolding key_from
key_of raw line_no = key_from raw (trim raw) line_no

abbrev pub set_info : Text → VoiceEntry → VoiceEntry
set_info value v = record v { info = trim value }

abbrev pub set_trial_url : Text → VoiceEntry → VoiceEntry
set_trial_url value v =
    if is_empty (trim value) then v else record v { trial_url = some (trim value) }

-- a write through `current`
unfoldable pub update : Text → (VoiceEntry → VoiceEntry) → Reader → Reader
update name f r = elim (get name r.by_name) [
  | none ↦ r
  | some v ↦ record r { by_name = put name (f v) r.by_name }
]

abbrev pub require_current : Option Text → Text → Result Text
require_current none key = throw (key ++ lit " 出现在任何 [音色名] 小节之前")
require_current (some name) key = ok name

abbrev pub require_known : Text → Result (Unit {0})
require_known key =
    if not (text_eq key (lit "info")) && not (text_eq key (lit "trial_url"))
    then throw (lit "不支持的键 \"" ++ key ++ lit "\"（只支持 info / trial_url）")
    else ok tt

unfoldable pub assignment : Text → ℕ → ℕ → Reader → Result Reader
assignment line eq line_no r = do
  keyed ← key_of (take eq line) line_no
  _ ← check_toml_tail (take eq line) keyed.1 line_no (lit "键")
  name ← require_current r.current keyed.0
  _ ← require_known keyed.0
  let rest = drop (suc eq) line
  value ← read_toml_string rest (quote_index rest) line_no
  _ ← check_toml_tail rest value.1 line_no (lit "值")
  ok (
      if text_eq keyed.0 (lit "info")
      then update name (set_info value.0) r
      else update name (set_trial_url value.0) r)

abbrev pub to_outcome : Result Reader → Outcome
to_outcome (ok r) = next r
to_outcome (throw e) = thrown e

unfoldable pub assignment_at : Option ℕ → Text → ℕ → Reader → Outcome
assignment_at none line line_no r = thrown (lit "无法识别的行（应为 [音色名] 或 key = \"值\"）")
assignment_at (some eq) line line_no r = to_outcome (assignment line eq line_no r)

unfoldable pub assignment_line : Text → ℕ → Reader → Outcome
unfolding assignment_at
assignment_line line line_no r = assignment_at (index_of b'=' line) line line_no r

-- one round of the loop of `parseVoicesToml`, on the trimmed line
unfoldable pub read_line : Text → ℕ → Reader → Outcome
read_line line line_no r =
    if is_empty line || starts_with (lit "#") line
    then next r
    else if starts_with (lit "[") line
    then header_line line line_no r
    else assignment_line line line_no r

-- The loop. The `catch` puts the line's number before the message of what was thrown.
unfoldable pub read_lines : ℕ → List Text → Reader → Dict VoiceEntry ⊎ Text
read_lines idx [] r = inl r.by_name
read_lines idx (raw ∷ lines) r = elim (read_line (trim raw) (suc idx) r) [
  | next r' ↦ read_lines (suc idx) lines r'
  | thrown e ↦ inr (at_line (suc idx) e)
  | returned e ↦ inr e
]

abbrev pub entries : Dict VoiceEntry ⊎ Text → List VoiceEntry ⊎ Text
entries (inl d) = inl (values d)
entries (inr e) = inr e

-- `parseVoicesToml`
unfoldable pub parse_voices_toml : Text → List VoiceEntry ⊎ Text
parse_voices_toml text =
    entries (read_lines 0 (split_lines text) (record { by_name = []; current = none }))
