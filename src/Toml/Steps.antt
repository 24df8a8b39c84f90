-- ===== src/Toml/Steps.antt =====
-- The reader on each line that the writer makes: a header, an `info` and a `trial_url`.
use any_gateway.Base.{ℕ, ◌≡◌, some, [], ◌∷◌, ◌++◌}
use any_gateway.Base.Text.{Text, lit, trim, index_of, text_eq}
use any_gateway.Toml.{
  ok, Reader, next, set_info, set_trial_url, update, read_toml_string, check_toml_tail, key_of,
  quote_index, assignment, assignment_line,
}
use any_gateway.Toml.Strings.{Encodes, behind, scan_double-Encodes, drop-behind}

abbrev pub info_line : Text → Text
info_line e = lit "info = \"" ++ e ++ lit "\""

abbrev pub url_text : Text → Text
url_text e = lit "trial_url = \"" ++ e ++ lit "\""

-- The value of a line: what stands behind the equals sign of a line that the writer makes.
value_read :
    (n : ℕ) {v e : Text}
    → Encodes v e
    → read_toml_string (b' ' ∷ b'"' ∷ e ++ b'"' ∷ []) (some 1) n ≡ ok (v, behind 2 e)
unfolding read_toml_string
value_read n t = scan_double-Encodes n 2 [] t

value_tail :
    (n : ℕ) (e what : Text)
    → check_toml_tail (b' ' ∷ b'"' ∷ e ++ b'"' ∷ []) (behind 2 e) n what ≡ ok tt
unfolding check_toml_tail trim
value_tail n e what = rw (drop-behind b' ' b'"' e [])

pub info_line-assigned :
    (n : ℕ) (name : Text) (r : Reader) {v e : Text}
    → r.current ≡ some name
    → Encodes v e
    → assignment_line (info_line e) n r ≡ next (update name (set_info v) r)
unfolding assignment_line assignment lit index_of key_of trim check_toml_tail quote_index text_eq
info_line-assigned n name r {e} cur t = rw (cur, value_read n t, drop-behind b' ' b'"' e [])

pub url_text-assigned :
    (n : ℕ) (name : Text) (r : Reader) {v e : Text}
    → r.current ≡ some name
    → Encodes v e
    → assignment_line (url_text e) n r ≡ next (update name (set_trial_url v) r)
unfolding assignment_line assignment lit index_of key_of trim check_toml_tail quote_index text_eq
url_text-assigned n name r {e} cur t = rw (cur, value_read n t, drop-behind b' ' b'"' e [])
