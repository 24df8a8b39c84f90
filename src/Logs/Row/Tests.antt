-- ===== src/Logs/Row/Tests.antt =====
-- Runs of the opened rows.
use any_gateway.Base.{◌≡◌, refl, true, none, some, [], ◌∷◌, ◌++◌, if◌then◌else◌}
use any_gateway.Base.Found.{Pairs}
use any_gateway.Base.Dict.{get, put, has}
use any_gateway.Base.Text.{
  lit, text_eq, join, trim, trim_start, trim_end, is_space, starts_with, includes, split_on,
}
use any_gateway.Json.{Json, str, num, arr, to_elems, Engine, member, member?, is_finite}
use any_gateway.Api.{object, fulfilled}
use any_gateway.Logs.{
  truncated, parse_messages, parse_request_max_tokens, error_of, extract_delta_text, delta_text,
  choice_text, block_text, candidate_text,
}
use any_gateway.Logs.Stream.{
  on_lines, payload_of, on_line, read_event, read_choices, read_choice, grow_block, start_block,
}
use any_gateway.Logs.Stream.Lines.{Chunk}
use any_gateway.Logs.Stream.Events.{said, finished, event_json}
use any_gateway.Logs.Response.{is_stream}
use any_gateway.Logs.Page.{finish_expand}
use any_gateway.Logs.Row.{Expansion, details, expanded_row}
use any_gateway.Logs.Row.Shown.{IsRowOf}
use any_gateway.Logs.Row.Replied.{shows, content_shown, reasoning_shown, replied-truncated}

abbrev request : Json
request = object (
    (lit "max_tokens", num 16)
    ∷ (
      lit "messages",
      arr (
          to_elems
            (object ((lit "role", str (lit "user")) ∷ (lit "content", str (lit "hi")) ∷ []) ∷ [])),
    )
    ∷ [])

abbrev piece : Chunk
piece = record { reasoning = lit "so"; content = lit "hi you" }

-- The texts stand for JSON: `1` for a piece of the answer, `2` for a choice that is finished for
-- its length.
abbrev engine : Engine
engine = record {
  parse = λ t.
      if text_eq t (lit "r")
      then some request
      else if text_eq t (lit "1")
      then some (event_json (said piece))
      else if text_eq t (lit "2")
      then some (event_json (finished (lit "length")))
      else none;
  stringify = λ v. lit "null";
  pretty = λ v. lit "null";
  number_text = λ n. lit "16";
}

abbrev record_data : Json
record_data =
    object (
      (lit "request_body", str (lit "r"))
      ∷ (lit "response_body", str (lit "data: 1\ndata: 2"))
      ∷ [])

runs : Unit {0}
unfolding lit text_eq join trim trim_start trim_end is_space starts_with includes split_on get has
    put member member? payload_of is_stream is_finite parse_messages parse_request_max_tokens
    on_lines on_line read_event read_choices read_choice grow_block start_block error_of
    extract_delta_text delta_text choice_text block_text candidate_text
runs = tt

replied-truncated_example :
    (d : Expansion) × (expanded_row engine true
        (get (lit "a") (finish_expand (lit "a") (fulfilled record_data) []))
      ≡ some (details d))
    × Pairs IsRowOf
        (object ((lit "role", str (lit "user")) ∷ (lit "content", str (lit "hi")) ∷ []) ∷ [])
        d.messages
    × ((content_shown d.answer ≡ lit "hi you")
        × (reasoning_shown d.answer ≡ lit "so")
        × (shows d.answer (truncated ++ lit " 当前请求 max_tokens=16。") ≡ true))
unfolding runs
replied-truncated_example =
    replied-truncated engine true (lit "a") [] record_data (lit "data: 1") (said piece)
      ((lit "data: 2", finished (lit "length")) ∷ []) refl (refl, (refl, tt))
      (
        (refl, (refl, (refl, (refl, (refl, (refl, (refl, tt))))))),
        ((refl, (refl, (refl, (refl, (refl, (refl, (refl, tt))))))), tt),
      )
      refl ((tt, tt, tt), tt)
