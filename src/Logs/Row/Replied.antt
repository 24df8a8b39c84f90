-- ===== src/Logs/Row/Replied.antt =====
-- The opened row of a record whose details have come.
use mathlib.Core.List.{append_cancel_right}
use any_gateway.Base.{
  ℕ, ◌≡◌, refl, ap, sym, ◌∙◌, Bool, true, false, Option, none, some, List, [], ◌∷◌, ◌++◌, All,
  arith, Bool-cases, inl, inr,
}
use any_gateway.Base.Found.{Pairs, map_all-Pairs}
use any_gateway.Base.Text.{Text, lit, text_eq, text_eq_iff, text_eq_refl, is_empty, join}
use any_gateway.Base.Split.{IsUnbroken, split_on-join}
use any_gateway.Base.Dict.{Dict, has, get, get-put}
use any_gateway.Json.{Json, Engine}
use any_gateway.Api.{fulfilled}
use any_gateway.Logs.{Parts, truncated, parse_messages, parse_request_max_tokens}
use any_gateway.Logs.Stream.{start, on_lines, stream_parts}
use any_gateway.Logs.Stream.Events.{
  Event, IsEventLine, event_lines, whole_content, whole_reasoning, finishes_for, on_lines-events,
}
use any_gateway.Logs.Response.{is_stream, parse_response_parts}
use any_gateway.Logs.Response.Bodies.{parse_stream}
use any_gateway.Logs.Response.Warnings.{stream_parts-truncated}
use any_gateway.Logs.Page.{MessagesCache, here, finish_expand}
use any_gateway.Logs.Row.{
  has_any, has_answer, request_of, response_of, expansion_of, Expansion, Answer, details,
  limit_text, render_warnings, answer_of, details_of, expanded_row, message_row,
}
use any_gateway.Logs.Row.Typed.{IsEntry}
use any_gateway.Logs.Row.Shown.{IsRowOf, message_row-IsRowOf}

-- The section of the response, if it stands, has the warning.
abbrev pub shows : Option Answer → Text → Bool
shows none w = false
shows (some a) w = has a.warnings w

-- The texts of the section of the response.
abbrev pub content_shown : Option Answer → Text
content_shown none = []
content_shown (some a) = a.content

abbrev pub reasoning_shown : Option Answer → Text
reasoning_shown none = []
reasoning_shown (some a) = a.reasoning

-- The section shows the pieces of the events, joined, and the warning, with the limit behind it,
-- exactly where one of them finishes a choice for its length.
abbrev pub IsShownAs : Engine → Option ℕ → List (Text × Event) → Option Answer → Type 0
IsShownAs e n ls a =
    (content_shown a ≡ whole_content ls)
    × (reasoning_shown a ≡ whole_reasoning ls)
    × (shows a (truncated ++ limit_text e n) ≡ finishes_for (lit "length") ls)

empty_text : (t : Text) → is_empty t ≡ true → t ≡ []
empty_text [] h = refl
empty_text (c ∷ t) h = absurd cc

text_eq-append : (a b x : Text) → text_eq (a ++ x) (b ++ x) ≡ text_eq a b
text_eq-append a b x = elim (Bool-cases (text_eq a b)) [
  | inl e ↦ rw e ((text_eq_iff _ _).1 (ap (λ (t : Text). t ++ x) ((text_eq_iff a b).0 e)))
  | inr e ↦ elim (Bool-cases (text_eq (a ++ x) (b ++ x))) [
    | inl k ↦
        let same = (text_eq_iff a b).1 (append_cancel_right a b x ((text_eq_iff _ _).0 k)) in
        rw k (ground arith)
    | inr k ↦ rw (e, k) refl
  ]
]

has-render_warnings :
    (e : Engine) (n : Option ℕ) (ws : List Text) (t : Text)
    → has (render_warnings e n ws) (t ++ limit_text e n) ≡ has ws t
unfolding has render_warnings
has-render_warnings e n [] t = refl
has-render_warnings e n (w ∷ ws) t =
    rw (text_eq-append w t (limit_text e n), has-render_warnings e n ws t) refl

has-nothing : (ws : List Text) (t : Text) → has_any ws ≡ false → has ws t ≡ false
unfolding has
has-nothing [] t h = refl
has-nothing (w ∷ ws) t h = absurd cc

-- The section of the response shows a warning of the parsed response, with the text behind it.
shows-answer_of :
    (e : Engine) (n : Option ℕ) (p : Parts) (t : Text)
    → shows (answer_of e n p) (t ++ limit_text e n) ≡ has p.warnings t
unfolding answer_of
shows-answer_of e n p t = elim (Bool-cases (has_answer p)) [
  | inl h ↦ rw h (has-render_warnings e n p.warnings t)
  | inr h ↦ rw h (sym (has-nothing p.warnings t (ground arith)))
]

answer_of-texts :
    (e : Engine) (n : Option ℕ) (p : Parts)
    → (content_shown (answer_of e n p) ≡ p.content)
      × (reasoning_shown (answer_of e n p) ≡ p.reasoning)
unfolding answer_of
answer_of-texts e n p = elim (Bool-cases (has_answer p)) [
  | inl h ↦ rw h (refl, refl)
  | inr h ↦
      rw h (sym (empty_text p.content (ground arith)), sym (empty_text p.reasoning (ground arith)))
]

stream_shown :
    (e : Engine) (n : Option ℕ) (ls : List (Text × Event))
    → All (IsEventLine e) ls
    → IsShownAs e n ls (answer_of e n (stream_parts e (on_lines e (event_lines ls) start)))
unfolding stream_parts join has
stream_shown e n ls h =
    let p = stream_parts e (on_lines e (event_lines ls) start) in
    let (c, r) = answer_of-texts e n p in
    let (c', r', f) = on_lines-events e ls start (lit "length") h in
    let cut = stream_parts-truncated e (on_lines e (event_lines ls) start) in
    (c ∙ c', r ∙ r', shows-answer_of e n p truncated ∙ cut.0 ∙ f)

-- What is shown of a response of events.
response-events :
    (e : Engine) (n : Option ℕ) (l : Text) (v : Event) (ls : List (Text × Event))
    → All (IsEventLine e) ((l, v) ∷ ls)
    → All IsUnbroken (event_lines ((l, v) ∷ ls))
    → is_stream (join (10 ∷ []) (event_lines ((l, v) ∷ ls))) ≡ true
    → IsShownAs e n
        ((l, v) ∷ ls)
        (answer_of e n (parse_response_parts e (some (join (10 ∷ []) (event_lines ((l, v) ∷ ls))))))
response-events e n l v ls h u b =
    rw
      (
        parse_stream e (join (10 ∷ []) (event_lines ((l, v) ∷ ls))) b,
        split_on-join l (event_lines ls) u,
      )
      (stream_shown e n ((l, v) ∷ ls) h)

-- The details of a record have come, the messages of its request are typed, and its response is an
-- event stream of pieces of an answer and of reasons for which a choice has finished, in any order,
-- on lines of their own. The opened row has one row for each message of the request, in their
-- order, which displays the message's role and, as Markdown, each text of its content: the content
-- itself, or the texts of its blocks of the type "text". It displays all the pieces of the content
-- and of the reasoning, joined, and it displays the warning that the response was cut, with the
-- limit of the request behind it, exactly where a choice has finished for its length.
pub replied-truncated :
    (e : Engine) (is_admin : Bool) (id : Text) (cache : Dict MessagesCache) (data' : Json)
    (l : Text) (v : Event) (ls : List (Text × Event))
    → response_of (some data') ≡ some (join (10 ∷ []) (event_lines ((l, v) ∷ ls)))
    → All (IsEventLine e) ((l, v) ∷ ls)
    → All IsUnbroken (event_lines ((l, v) ∷ ls))
    → is_stream (join (10 ∷ []) (event_lines ((l, v) ∷ ls))) ≡ true
    → All IsEntry (parse_messages e (request_of (some data')))
    → (d : Expansion) × (expanded_row e is_admin (get id (finish_expand id (fulfilled data') cache))
        ≡ some (details d))
      × Pairs IsRowOf (parse_messages e (request_of (some data'))) d.messages
      × IsShownAs e (parse_request_max_tokens e (request_of (some data'))) ((l, v) ∷ ls) d.answer
unfolding finish_expand expanded_row details_of
replied-truncated e is_admin id cache data' l v ls b h u s m =
    let request = request_of (some data') in
    let (rows, k, r) =
      map_all-Pairs IsRowOf IsEntry (message_row e) (message_row-IsRowOf e)
        (parse_messages e request) m in
    (
      expansion_of e is_admin (some data') rows,
      rw (get-put id id (here data') cache, text_eq_refl id) (rw k refl),
      r,
      rw b (response-events e (parse_request_max_tokens e request) l v ls h u s),
    )
