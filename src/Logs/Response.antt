-- ===== src/Logs/Response.antt =====
-- `parseResponseParts` and `parseResponseContent` of apps/react/src/pages/Logs/logParsing.ts.
pub mod Bodies
pub mod Warnings
use any_gateway.Base.{
  Bool, true, false, not, ◌&&◌, ◌||◌, Option, none, some, List, [], ◌∷◌, ◌++◌, if◌then◌else◌,
}
use any_gateway.Base.Text.{
  Text, lit, is_empty, join, text_eq, trim_start, starts_with, includes, split_on,
}
use any_gateway.Base.Dict.{remove}
use any_gateway.Json.{Json, Engine, truthy, member, present, string_of, array_of, fields}
use any_gateway.Api.{object}
use any_gateway.Logs.{
  Parts, only_content, is_text, shown, fenced, format_openai_tool_calls, extract_delta_text,
  build_response_warnings, stringify_parsed_response,
}
use any_gateway.Logs.Stream.{start, on_lines, stream_parts}

abbrev or_empty : Option Text → Text
or_empty none = []
or_empty (some t) = t

abbrev truthy? : Option Json → Bool
truthy? none = false
truthy? (some v) = truthy v

-- A body of events, line by line.
unfoldable pub is_stream : Text → Bool
is_stream body =
    let trimmed = trim_start body in
    starts_with (lit "data:") trimmed || includes (lit "\ndata:") trimmed

module _ (e : Engine) where
  abbrev pretty? : Option Json → Text
  pretty? none = lit "undefined"
  pretty? (some v) = e.pretty v

  -- The text of one block of `content`, if it has one; `none` where it throws.
  unfoldable pub content_part : Json → Option (List Text)
  content_part Json.null = none
  content_part b = some (elim (string_of (member (lit "text") b)) [
    | some t ↦ t ∷ []
    | none ↦
        if is_text (member (lit "type") b) (lit "tool_use")
        then fenced (shown e (member (lit "name") b)) (pretty? (member (lit "input") b)) ∷ []
        else []
  ])

  abbrev append_parts : Option (List Text) → Option (List Text) → Option (List Text)
  append_parts none r = none
  append_parts (some t) none = none
  append_parts (some t) (some ts) = some (t ++ ts)

  unfoldable pub content_parts : List Json → Option (List Text)
  content_parts [] = some []
  content_parts (b ∷ bs) = append_parts (content_part b) (content_parts bs)

  abbrev string_or_empty : Option Json → Text
  string_or_empty v = or_empty (string_of v)

  abbrev message_parts_with : Option Text → Option Text → Json → Option Parts
  message_parts_with none reason m = none
  message_parts_with (some calls) reason m =
      let reasoning = string_or_empty (member (lit "reasoning_content") m) in
      let content = string_or_empty (member (lit "content") m) in
      some (record {
        reasoning = reasoning;
        content = content;
        tool_calls = calls;
        errors = [];
        finish_reason = reason;
        warnings =
            build_response_warnings reason (not (is_empty reasoning)) (not (is_empty content))
              (truthy? (member (lit "tool_calls") m));
      })

  -- the result for the message of the first choice
  unfoldable pub message_parts : Option Text → Json → Option Parts
  message_parts reason m =
      message_parts_with (format_openai_tool_calls e (member (lit "tool_calls") m)) reason m

  abbrev with_rest : Text → Text → Text
  with_rest transcript rest =
      if is_empty rest || text_eq rest (lit "{}")
      then transcript
      else transcript ++ lit "\n\n```json\n" ++ rest ++ lit "\n```"

  abbrev rest_of : Json → Json
  rest_of (Json.obj fs) = object (remove (lit "transcript") (fields fs))
  rest_of v = v

  abbrev last_resort : Option (Option Text) → Json → Option Parts
  last_resort none o = none
  last_resort (some none) o = some (only_content (e.pretty o))
  last_resort (some (some t)) o = some (only_content t)

  abbrev transcript_parts : Text → Json → Option Parts
  transcript_parts t o =
      if is_empty t
      then last_resort (extract_delta_text e o) o
      else some (only_content (with_rest t (e.pretty (rest_of o))))

  -- the transcript of a speech session, or else any text
  unfoldable pub other_parts : Json → Option Parts
  other_parts o = transcript_parts (string_or_empty (member (lit "transcript") o)) o

  abbrev choice_message : Option Json → Json → Json → Option Parts
  choice_message none c o = other_parts o
  choice_message (some m) c o =
      if truthy m
      then message_parts (string_of (member (lit "finish_reason") c)) m
      else other_parts o

  unfoldable pub choices_parts : List Json → Json → Option Parts
  choices_parts [] o = other_parts o
  choices_parts (Json.null ∷ cs) o = none
  choices_parts (c ∷ cs) o = choice_message (member (lit "message") c) c o

  abbrev elements_of : Option Json → List Json
  elements_of v = elim (array_of v) [ none ↦ [] | some vs ↦ vs ]

  abbrev content_or_choices : Option (List Text) → Json → Option Parts
  content_or_choices none o = none
  content_or_choices (some []) o = choices_parts (elements_of (member (lit "choices") o)) o
  content_or_choices (some (t ∷ ts)) o = some (only_content (join (lit "\n\n") (t ∷ ts)))

  -- The `try` on a body that is one JSON value; `none` where something throws.
  unfoldable pub value_parts : Json → Option Parts
  value_parts Json.null = none
  value_parts o = content_or_choices (content_parts (elements_of (member (lit "content") o))) o

  abbrev value_or_body : Option Json → Text → Parts
  value_or_body none body = only_content body
  value_or_body (some o) body = elim (value_parts o) [ none ↦ only_content body | some p ↦ p ]

  unfoldable pub body_parts : Text → Parts
  body_parts body =
      if is_empty body
      then only_content []
      else if is_stream body
      then stream_parts e (on_lines e (split_on 10 body) start)
      else value_or_body (e.parse body) body

  -- `parseResponseParts`
  unfoldable pub parse_response_parts : Option Text → Parts
  parse_response_parts body = body_parts (or_empty body)

  -- `parseResponseContent`
  unfoldable pub parse_response_content : Option Text → Text
  parse_response_content body = stringify_parsed_response (parse_response_parts body)
