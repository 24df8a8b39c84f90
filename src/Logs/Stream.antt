-- ===== src/Logs/Stream.antt =====
-- The event stream of a logged response: the loop of `parseResponseParts` in
-- apps/react/src/pages/Logs/logParsing.ts over the lines of the body.
pub mod Lines
pub mod Calls
pub mod Events
use any_gateway.Base.{
  ℕ, Bool, true, false, not, ◌&&◌, Option, none, some, List, [], ◌∷◌, ◌++◌, map, drop,
  if◌then◌else◌, find?, last?,
}
use any_gateway.Base.Text.{Text, lit, is_empty, join, text_eq, trim, starts_with, split_on}
use any_gateway.Json.{
  Json, num, str, Engine, member, member?, present, string_of, array_of, to_text,
}
use any_gateway.Logs.{
  Parts, ToolCall, or_else, is_text, push_text, push_filled, find_key, set_key, fenced, pretty_text,
  format_calls, error_of, extract_delta_text, build_response_warnings,
}

-- A block of the Anthropic stream that calls a tool.
pub record Block : Type 0 where
  pub name : Json
  pub partial_json : Text

-- The variables of the loop.
pub record Stream : Type 0 where
  pub text_parts : List Text
  pub reasoning_parts : List Text
  pub calls : List (Json × ToolCall)
  pub blocks : List (Json × Block)
  pub errors : List Text
  pub finish_reasons : List Text

abbrev pub start : Stream
start = record {
  text_parts = [];
  reasoning_parts = [];
  calls = [];
  blocks = [];
  errors = [];
  finish_reasons = [];
}

-- What is done to the variables before the end of a line, or before something throws: the `catch`
-- of the loop goes on with what was done so far.
pub data Run : Type 0 where
  done : Stream → Run
  stopped : Stream → Run

abbrev pub and_next : Run → (Stream → Run) → Run
and_next (done s) next = next s
and_next (stopped s) next = stopped s

abbrev pub reached : Run → Stream
reached (done s) = s
reached (stopped s) = s

abbrev shown_or_empty : Engine → Option Json → Text
shown_or_empty e v = elim (present v) [ none ↦ [] | some w ↦ to_text e w ]

abbrev fresh_call : ToolCall
fresh_call = record { id = none; type = none; name = none; arguments = some (str []) }

abbrev or_fresh : Option ToolCall → ToolCall
or_fresh none = fresh_call
or_fresh (some c) = c

abbrev or_zero : Option Json → Json
or_zero none = num 0
or_zero (some v) = v

abbrev or_unknown : Option Json → Json
or_unknown none = str (lit "unknown")
or_unknown (some v) = v

abbrev set_block : Option Json → Json → Stream → Stream
set_block none block s = s
set_block (some idx) block s = record s {
  blocks =
      set_key idx
        (record { name = or_unknown (present (member (lit "name") block)); partial_json = [] })
        s.blocks;
}

-- `content_block_start`
unfoldable pub start_block : Json → Stream → Stream
start_block o s =
    if is_text (member (lit "type") o) (lit "content_block_start")
    then elim (member (lit "content_block") o) [
      | none ↦ s
      | some block ↦
          if is_text (member (lit "type") block) (lit "tool_use")
          then set_block (member (lit "index") o) block s
          else s
    ]
    else s

abbrev extend_block : Json → Text → Stream → Stream
extend_block idx t s = elim (find_key idx s.blocks) [
  | none ↦ s
  | some b ↦ record s {
    blocks = set_key idx (record b { partial_json = b.partial_json ++ t }) s.blocks;
  }
]

abbrev grow_found : Option Json → Option Text → Stream → Stream
grow_found none t s = s
grow_found (some idx) none s = s
grow_found (some idx) (some t) s = extend_block idx t s

-- `input_json_delta`
unfoldable pub grow_block : Json → Stream → Stream
grow_block o s =
    if is_text (member (lit "type") o) (lit "content_block_delta")
      && is_text (member? (lit "type") (member (lit "delta") o)) (lit "input_json_delta")
    then grow_found (member (lit "index") o)
        (string_of (member? (lit "partial_json") (member (lit "delta") o))) s
    else s

-- the payload of a line, if it is one to read
unfoldable pub payload_of : Text → Option Text
payload_of line =
    let s = trim line in
    let payload = trim (drop 5 s) in
    if starts_with (lit "data:") s
    then (if text_eq payload (lit "[DONE]") then none else some payload)
    else none

abbrev filled : List Text → Bool
filled [] = false
filled (t ∷ ts) = true

abbrev pub finish_from : Option Text → List Text → Option Text
finish_from (some r) rs = some r
finish_from none rs = last? rs

unfoldable pub finish_reason_of : List Text → Option Text
finish_reason_of rs = finish_from (find? (λ r. text_eq r (lit "length")) rs) rs

module _ (e : Engine) where
  -- `current` behind a delta
  abbrev pub grown : Json → ToolCall → ToolCall
  grown delta c = record {
    id = or_else c.id (member (lit "id") delta);
    type = or_else c.type (member (lit "type") delta);
    name = or_else c.name (member? (lit "name") (member (lit "function") delta));
    arguments = some (
        str (
          shown_or_empty e c.arguments
          ++ shown_or_empty e (member? (lit "arguments") (member (lit "function") delta))));
  }

  abbrev pub delta_key : Json → Json
  delta_key delta = or_zero (present (member (lit "index") delta))

  -- One round of the loop of `appendOpenAIToolCalls`.
  unfoldable pub append_call : Json → List (Json × ToolCall) → List (Json × ToolCall)
  append_call delta calls =
      set_key (delta_key delta) (grown delta (or_fresh (find_key (delta_key delta) calls))) calls

  -- `appendOpenAIToolCalls`; a delta `null` throws.
  unfoldable pub append_calls : List Json → Stream → Run
  append_calls [] s = done s
  append_calls (Json.null ∷ ds) s = stopped s
  append_calls (d ∷ ds) s = append_calls ds (record s { calls = append_call d s.calls })

  abbrev append_openai_tool_calls : Option Json → Stream → Run
  append_openai_tool_calls v s = elim (array_of v) [ none ↦ done s | some ds ↦ append_calls ds s ]

  -- one `choice`
  unfoldable pub read_choice : Json → Stream → Run
  read_choice Json.null s = stopped s
  read_choice c s =
      append_openai_tool_calls (member? (lit "tool_calls") (member (lit "delta") c)) (record s {
        finish_reasons = push_text (member (lit "finish_reason") c) s.finish_reasons;
        reasoning_parts =
            push_text (member? (lit "reasoning_content") (member (lit "delta") c))
              s.reasoning_parts;
      })

  unfoldable pub read_choices : List Json → Stream → Run
  read_choices [] s = done s
  read_choices (c ∷ cs) s = and_next (read_choice c s) (λ s'. read_choices cs s')

  abbrev choices_of : Option Json → Stream → Run
  choices_of v s = elim (array_of v) [ none ↦ done s | some cs ↦ read_choices cs s ]

  abbrev push_delta : Option (Option Text) → Json → Stream → Run
  push_delta none o s = stopped s
  push_delta (some none) o s = done (grow_block o s)
  push_delta (some (some t)) o s =
      if is_empty t
      then done (grow_block o s)
      else done (record s { text_parts = s.text_parts ++ t ∷ [] })

  abbrev read_delta : Option Text → Json → Stream → Run
  read_delta (some t) o s = done (record s { errors = s.errors ++ t ∷ [] })
  read_delta none o s =
      and_next (choices_of (member (lit "choices") o) (start_block o s))
        (λ s'. push_delta (extract_delta_text e o) o s')

  -- the body of the `try`
  unfoldable pub read_event : Json → Stream → Run
  read_event Json.null s = stopped s
  read_event o s = read_delta (error_of e (member (lit "error") o)) o s

  abbrev event_of : Option Text → Option Json
  event_of none = none
  event_of (some payload) = e.parse payload

  abbrev pub after_event : Option Json → Stream → Stream
  after_event none s = s
  after_event (some o) s = reached (read_event o s)

  -- one round of the loop
  unfoldable pub on_line : Text → Stream → Stream
  on_line line s = after_event (event_of (payload_of line)) s

  unfoldable pub on_lines : List Text → Stream → Stream
  on_lines [] s = s
  on_lines (l ∷ ls) s = on_lines ls (on_line l s)

  abbrev block_text : Json × Block → Text
  block_text (k, b) = fenced (to_text e b.name) (pretty_text e b.partial_json)

  abbrev some_blocks : List (Json × Block) → List Text
  some_blocks [] = []
  some_blocks (b ∷ bs) = join (lit "\n\n") (map block_text (b ∷ bs)) ∷ []

  unfoldable pub tool_parts : Stream → List Text
  tool_parts s =
      push_filled (format_calls e (map (λ (p : Json × ToolCall). p.1) s.calls)) []
      ++ some_blocks s.blocks

  -- the result behind the loop
  unfoldable pub stream_parts : Stream → Parts
  stream_parts s = record {
    reasoning = join [] s.reasoning_parts;
    content = join [] s.text_parts;
    tool_calls = join (lit "\n\n") (tool_parts s);
    errors = join (lit "\n\n") s.errors;
    finish_reason = finish_reason_of s.finish_reasons;
    warnings =
        build_response_warnings (finish_reason_of s.finish_reasons) (filled s.reasoning_parts)
          (filled s.text_parts) (filled (tool_parts s));
  }
