-- ===== src/Toml/Tests.antt =====
-- Runs of the reader and the writer of the voice editor's text.
use any_gateway.Base.{◌≡◌, refl, none, some, List, [], ◌∷◌, inl, inr, All}
use any_gateway.Base.Text.{
  lit, trim, starts_with, index_of, join, split_lines, decimal, text_eq, is_space, trim_start,
  trim_end,
}
use any_gateway.Base.Dict.{Distinct, has, get, put}
use any_gateway.Toml.Strings.{readable}
use any_gateway.Toml.{
  VoiceEntry, at_line, read_lines, read_line, header_line, assignment_line, assignment, update,
  key_of, check_toml_tail, read_toml_string, parse_toml_header, header_name, close_header,
  no_bracket, opens_quote, skip_spaces, scan_double, toml_escape, quote_index, parse_voices_toml,
}
use any_gateway.Toml.RoundTrip.{parse_voices_toml-voices_to_toml, names}
use any_gateway.Toml.Accepted.{VoiceIsValid, parse_voices_toml-valid, parse_voices_toml_stable}
use any_gateway.Toml.Writer.{
  is_bare, all_bare, json_unit, json_body, short_escape, unicode_escape, voices_to_toml,
}

reader : Unit {0}
unfolding parse_voices_toml voices_to_toml lit trim starts_with index_of join split_lines decimal
    text_eq has get put at_line skip_spaces scan_double toml_escape quote_index json_unit json_body
    short_escape unicode_escape read_lines read_line header_line assignment_line assignment update
    key_of check_toml_tail read_toml_string parse_toml_header header_name close_header no_bracket
    opens_quote is_bare all_bare
reader = tt

abbrev sample : List VoiceEntry
sample =
    record { voice = lit "a\"b 音"; info = lit "x\\y = ]"; trial_url = some (lit "http://u") }
    ∷ record { voice = lit "Bob-1"; info = []; trial_url = none }
    ∷ []

read_sample : parse_voices_toml (voices_to_toml sample) ≡ inl sample
unfolding reader
read_sample = refl

before_section :
    parse_voices_toml (lit "# c\ninfo = \"x\"") ≡ inr (lit "第 2 行：info 出现在任何 [音色名] 小节之前")
unfolding reader
before_section = refl

kept : Unit {0}
unfolding reader trim_start trim_end is_space readable
kept = tt

parse_voices_toml-voices_to_toml_example : parse_voices_toml (voices_to_toml sample) ≡ inl sample
unfolding kept
parse_voices_toml-voices_to_toml_example =
    parse_voices_toml-voices_to_toml sample
      ((refl, refl, refl, (refl, refl)), ((refl, refl, refl, tt), tt)) (refl, (refl, tt))

parse_voices_toml-valid_example : Distinct (names sample) × All VoiceIsValid sample
parse_voices_toml-valid_example = parse_voices_toml-valid (voices_to_toml sample) sample read_sample

parse_voices_toml_stable_example : parse_voices_toml (voices_to_toml sample) ≡ inl sample
unfolding kept
parse_voices_toml_stable_example =
    parse_voices_toml_stable (voices_to_toml sample) sample read_sample (refl, (refl, tt))
