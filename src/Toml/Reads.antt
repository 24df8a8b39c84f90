-- ===== src/Toml/Reads.antt =====
-- The reader over the lines of one voice, whatever lines follow.
use mathlib.Core.List.{append_assoc}
use any_gateway.Base.{
  ℕ, suc, ◌≡◌, refl, ap, ◌∙◌, true, false, Option, some, none, List, [], ◌∷◌, ◌++◌, arith,
}
use any_gateway.Base.Text.{Text, lit, is_empty, is_space, trim, starts_with, text_eq_refl}
use any_gateway.Base.Dict.{Dict, has, get, put, keys, put-new}
use any_gateway.Base.Trim.{trim-concat}
use any_gateway.Toml.{
  VoiceEntry, ok, Reader, parse_toml_header, next, set_info, set_trial_url, update, header_line,
  assignment_line, read_line, read_lines,
}
use any_gateway.Toml.Strings.{readable, esc-Encodes}
use any_gateway.Toml.Headers.{header_read, quote_toml_name-brackets}
use any_gateway.Toml.Steps.{info_line, url_text, info_line-assigned, url_text-assigned}
use any_gateway.Toml.Writer.{quote_toml_name, info_lines, url_lines, voice_lines}

module _ {V : Type 0} where
  get-append_new :
      (d : Dict V) (k : Text) (v : V) → has (keys d) k ≡ false → get k (d ++ (k, v) ∷ []) ≡ some v
  unfolding get has
  get-append_new [] k v h = rw (text_eq_refl k)
  get-append_new ((j, w) ∷ d) k v h = ground (arith, get-append_new d k v)

  put-append_new :
      (d : Dict V) (k : Text) (v w : V)
      → has (keys d) k ≡ false
      → put k w (d ++ (k, v) ∷ []) ≡ d ++ (k, w) ∷ []
  unfolding put has
  put-append_new [] k v w h = rw (text_eq_refl k)
  put-append_new ((j, u) ∷ d) k v w h = ground (arith, put-append_new d k v w)

-- The reader behind the header of `name`, with the entry `v` made so far.
abbrev pub at_entry : Text → Dict VoiceEntry → VoiceEntry → Reader
at_entry name d v = record { by_name = d ++ (name, v) ∷ []; current = some name }

update-at_entry :
    (name : Text) (d : Dict VoiceEntry) (v : VoiceEntry) (f : VoiceEntry → VoiceEntry)
    → has (keys d) name ≡ false
    → update name f (at_entry name d v) ≡ at_entry name d (f v)
unfolding update
update-at_entry name d v f h =
    rw (get-append_new d name v h, put-append_new d name v (f v) h, update)

-- Whatever lines follow, reading `lines` takes the reader from `r` to `r'`.
abbrev pub Reads : List Text → Reader → Reader → Type 0
Reads lines r r' =
    (idx : ℕ) (rest : List Text)
    → (idx' : ℕ) × (read_lines idx (lines ++ rest) r ≡ read_lines idx' rest r')

pub Reads-line :
    (raw : Text) (r r' : Reader)
    → ((n : ℕ) → read_line (trim raw) n r ≡ next r')
    → Reads (raw ∷ []) r r'
unfolding read_lines
Reads-line raw r r' h idx rest = (suc idx, rw (h (suc idx), read_lines))

pub Reads-append :
    (xs ys : List Text) (r s t : Reader) → Reads xs r s → Reads ys s t → Reads (xs ++ ys) r t
Reads-append xs ys r s t p q idx rest =
    let (i, e) = p idx (ys ++ rest) in
    let (j, e') = q i rest in (j, rw (append_assoc xs ys rest) (e ∙ e'))

Reads-nil : (r : Reader) → Reads [] r r
Reads-nil r idx rest = (idx, refl)

pub read_line-blank : (n : ℕ) (r : Reader) → read_line (trim []) n r ≡ next r
unfolding read_line trim
read_line-blank n r = refl

read_line-header :
    (n : ℕ) (m : Text) (r : Reader)
    → read_line (trim (b'[' ∷ m ++ b']' ∷ [])) n r ≡ header_line (b'[' ∷ m ++ b']' ∷ []) n r
read_line-header n m r =
    rw (trim-concat b'[' m b']' (unfold is_space in refl) (unfold is_space in refl))
      (unfold read_line lit starts_with in refl)

abbrev new_entry : Text → VoiceEntry
new_entry name = record { voice = name; info = []; trial_url = none }

header_line-new :
    (n : ℕ) (line name : Text) (d : Dict VoiceEntry) (cur : Option Text)
    → parse_toml_header line n ≡ ok name
    → is_empty name ≡ false
    → has (keys d) name ≡ false
    → header_line line n (record { by_name = d; current = cur })
      ≡ next (at_entry name d (new_entry name))
unfolding header_line
header_line-new n line name d cur h e new =
    rw h (rw (e, new) (rw (put-new d name (new_entry name) new)))

Reads-header :
    (name : Text) (d : Dict VoiceEntry) (cur : Option Text)
    → is_empty name ≡ false
    → readable name ≡ true
    → has (keys d) name ≡ false
    → Reads
        (quote_toml_name name ∷ [])
        (record { by_name = d; current = cur })
        (at_entry name d (new_entry name))
Reads-header name d cur e h new =
    let (m, brackets, _) = quote_toml_name-brackets name e h in
    Reads-line _ _ _ λ n.
      ap (λ (t : Text). read_line (trim t) n (record { by_name = d; current = cur })) brackets
      ∙ read_line-header n m _
      ∙ header_line-new n _ name d cur (rw (← brackets) (header_read n name e h)) e new

read_line-info :
    (n : ℕ) (e : Text) (r : Reader)
    → read_line (trim (info_line e)) n r ≡ assignment_line (info_line e) n r
unfolding lit
read_line-info n e r =
    rw
      (trim-concat b'i' (lit "nfo = \"" ++ e) b'"' (unfold is_space in refl)
        (unfold is_space in refl))
      (unfold read_line starts_with in refl)

read_line-url :
    (n : ℕ) (e : Text) (r : Reader)
    → read_line (trim (url_text e)) n r ≡ assignment_line (url_text e) n r
unfolding lit
read_line-url n e r =
    rw
      (trim-concat b't' (lit "rial_url = \"" ++ e) b'"' (unfold is_space in refl)
        (unfold is_space in refl))
      (unfold read_line starts_with in refl)

Reads-info :
    (name info : Text) (d : Dict VoiceEntry)
    → has (keys d) name ≡ false
    → trim info ≡ info
    → Reads
        (info_lines info)
        (at_entry name d (new_entry name))
        (at_entry name d (record { voice = name; info = info; trial_url = none }))
Reads-info name [] d new t = Reads-nil _
Reads-info name (c ∷ info) d new t = Reads-line _ _ _ λ n.
    read_line-info n _ _
    ∙ info_line-assigned n name (at_entry name d (new_entry name)) refl (esc-Encodes (c ∷ info))
    ∙ ap next (update-at_entry name d (new_entry name) (set_info (c ∷ info)) new)
    ∙ ap
        (λ (i : Text). next (at_entry name d (record { voice = name; info = i; trial_url = none })))
        t

-- A stored trial URL is not empty and trimmed.
abbrev pub UrlIsKept : Option Text → Type 0
UrlIsKept none = Unit
UrlIsKept (some url) = (is_empty url ≡ false) × (trim url ≡ url)

set_trial_url-kept :
    (url : Text) (v : VoiceEntry)
    → is_empty url ≡ false
    → trim url ≡ url
    → set_trial_url url v ≡ record v { trial_url = some url }
set_trial_url-kept url v e t = rw (t, e)

Reads-url :
    (name : Text) (d : Dict VoiceEntry) (v : VoiceEntry) (url : Option Text)
    → has (keys d) name ≡ false
    → v.trial_url ≡ none
    → UrlIsKept url
    → Reads (url_lines url) (at_entry name d v) (at_entry name d (record v { trial_url = url }))
Reads-url name d v none new e k = rw (← e) (Reads-nil (at_entry name d v))
Reads-url name d v (some []) new e (k, t) = cc
Reads-url name d v (some (c ∷ url)) new e (k, t) = Reads-line _ _ _ λ n.
    read_line-url n _ _
    ∙ url_text-assigned n name (at_entry name d v) refl (esc-Encodes (c ∷ url))
    ∙ ap next (update-at_entry name d v (set_trial_url (c ∷ url)) new)
    ∙ ap (λ (w : VoiceEntry). next (at_entry name d w)) (set_trial_url-kept (c ∷ url) v k t)

-- A voice that the text format can hold: its name is not empty and readable, its texts are trimmed.
abbrev pub VoiceIsKept : VoiceEntry → Type 0
VoiceIsKept v =
    (is_empty v.voice ≡ false)
    × (readable v.voice ≡ true)
    × (trim v.info ≡ v.info)
    × UrlIsKept v.trial_url

-- The lines of one voice add that voice at the end of the entries.
pub Reads-voice :
    (v : VoiceEntry) (d : Dict VoiceEntry) (cur : Option Text)
    → VoiceIsKept v
    → has (keys d) v.voice ≡ false
    → Reads (voice_lines v) (record { by_name = d; current = cur }) (at_entry v.voice d v)
unfolding voice_lines
Reads-voice v d cur (e, h, t, k) new =
    Reads-append (quote_toml_name v.voice ∷ info_lines v.info) (url_lines v.trial_url) _
      (at_entry v.voice d (record v { trial_url = none })) _
      (Reads-append (quote_toml_name v.voice ∷ []) (info_lines v.info) _ _ _
        (Reads-header v.voice d cur e h new) (Reads-info v.voice v.info d new t))
      (Reads-url v.voice d (record v { trial_url = none }) v.trial_url new refl k)
