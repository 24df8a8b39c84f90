-- ===== src/Logs.antt =====
-- The parsing of logged requests and responses: the functions of
-- apps/react/src/pages/Logs/logParsing.ts that work on one JSON value.
pub mod Cells
pub mod Stream
pub mod Response
pub mod Page
pub mod Row
mod Tests
use any_gateway.Base.{
  ℕ, zero, suc, Bool, true, false, not, ◌&&◌, ◌||◌, ◌==◌, ◌%◌, ◌^◌, Option, none, some, List, [],
  ◌∷◌, ◌++◌, if◌then◌else◌,
}
use any_gateway.Base.Found.{map_all}
use any_gateway.Base.Text.{Text, lit, is_empty, join, decimal, text_eq}
use any_gateway.Json.{
  Json, num, str, arr, obj, bool, Engine, is_finite, truthy, member, member?, present, string_of,
  array_of, to_text, fields, end,
}

-- `ParsedResponseContent`
pub record Parts : Type 0 where
  pub reasoning : Text
  pub content : Text
  pub tool_calls : Text
  pub errors : Text
  pub finish_reason : Option Text
  pub warnings : List Text

-- `empty`, with a content
abbrev pub only_content : Text → Parts
only_content s = record {
  reasoning = [];
  content = s;
  tool_calls = [];
  errors = [];
  finish_reason = none;
  warnings = [];
}

-- `OpenAIToolCall`, without the index, which nothing reads.
pub record ToolCall : Type 0 where
  pub id : Option Json
  pub type : Option Json
  pub name : Option Json
  pub arguments : Option Json

-- `a ?? b`
abbrev pub or_else : Option Json → Option Json → Option Json
or_else a b = elim (present a) [ none ↦ b | some v ↦ some v ]

-- `v.name`; reading a member of `null` throws.
abbrev pub read : Text → Json → Option (Option Json)
read name Json.null = none
read name v = some (member name v)

-- `v === 'text'`
abbrev pub is_text : Option Json → Text → Bool
is_text v t = elim (string_of v) [ none ↦ false | some s ↦ text_eq s t ]

-- `typeof v === 'string' && v` in a list that grows
abbrev pub push_text : Option Json → List Text → List Text
push_text v ts = elim (string_of v) [ none ↦ ts | some t ↦ ts ++ t ∷ [] ]

abbrev pub push_filled : Text → List Text → List Text
push_filled t ts = if is_empty t then ts else ts ++ t ∷ []

-- The key of a `Map` that comes from JSON: the two zeros are one key, a fresh object or array is
-- equal to no other.
unfoldable pub same_key : Json → Json → Bool
same_key (num m) (num n) = m == n || (m % 2 ^ 63 == 0 && n % 2 ^ 63 == 0)
same_key (str s) (str t) = text_eq s t
same_key (bool b) (bool c) = if b then c else not c
same_key Json.null Json.null = true
same_key _ _ = false

module _ {V : Type 0} where
  unfoldable pub find_key : Json → List (Json × V) → Option V
  find_key k [] = none
  find_key k ((j, v) ∷ d) = let rest = find_key k d in if same_key j k then some v else rest

  unfoldable pub set_key : Json → V → List (Json × V) → List (Json × V)
  set_key k v [] = (k, v) ∷ []
  set_key k v ((j, w) ∷ d) =
      let rest = set_key k v d in if same_key j k then (j, v) ∷ d else (j, w) ∷ rest

abbrev pub text_or_undefined : Option Text → Text
text_or_undefined none = lit "undefined"
text_or_undefined (some t) = t

abbrev pub fenced : Text → Text → Text
fenced name body = lit "**" ++ name ++ lit "**\n```json\n" ++ body ++ lit "\n```"

module _ (e : Engine) where
  -- the text in braces of a template
  abbrev pub shown : Option Json → Text
  shown none = lit "undefined"
  shown (some v) = to_text e v

  -- `JSON.stringify(JSON.parse(s), null, 2)`, with `s` where it does not parse
  unfoldable pub pretty_text : Text → Text
  pretty_text s = elim (e.parse s) [ none ↦ s | some v ↦ e.pretty v ]

  -- `formatJson`
  unfoldable pub format_json : Json → Text
  format_json (str s) = pretty_text s
  format_json v = e.pretty v

  abbrev arguments_or_empty : Option Json → Json
  arguments_or_empty a = elim (present a) [ none ↦ obj end | some v ↦ v ]

  abbrev call_name : ToolCall → ℕ → Text
  call_name c i = elim (present (or_else c.name c.id)) [
    | none ↦ lit "tool_" ++ decimal (suc i)
    | some v ↦ to_text e v
  ]

  unfoldable pub call_texts : ℕ → List ToolCall → List Text
  call_texts i [] = []
  call_texts i (c ∷ cs) =
      fenced (call_name c i) (format_json (arguments_or_empty c.arguments)) ∷ call_texts (suc i) cs

  -- `formatOpenAIToolCalls` of calls that are there
  unfoldable pub format_calls : List ToolCall → Text
  format_calls cs = join (lit "\n\n") (call_texts 0 cs)

  abbrev code_text : Option Json → Text
  code_text c = elim (present c) [ none ↦ [] | some v ↦ lit "[" ++ to_text e v ++ lit "] " ]

  -- the text of a truthy member `error`
  unfoldable pub error_text : Json → Text
  error_text v =
      code_text (member (lit "code") v)
      ++ (elim (string_of (member (lit "message") v)) [ none ↦ e.stringify v | some t ↦ t ])

  -- `if (error)`, with the error's text
  unfoldable pub error_of : Option Json → Option Text
  error_of none = none
  error_of (some v) = if truthy v then some (error_text v) else none

-- One call of an answer's `tool_calls`; `none`: it is `null`, which throws.
abbrev pub call_of : Json → Option ToolCall
call_of Json.null = none
call_of v = some (record {
  id = member (lit "id") v;
  type = member (lit "type") v;
  name = member? (lit "name") (member (lit "function") v);
  arguments = member? (lit "arguments") (member (lit "function") v);
})

unfoldable pub calls_of : List Json → Option (List ToolCall)
calls_of vs = map_all call_of vs

-- `formatOpenAIToolCalls`; `none` where it throws
unfoldable pub format_openai_tool_calls : Engine → Option Json → Option Text
format_openai_tool_calls e v = elim (array_of v) [
  | none ↦ some []
  | some vs ↦ elim (calls_of vs) [ none ↦ none | some cs ↦ some (format_calls e cs) ]
]

abbrev first_of : Option Json → Option Json
first_of v = elim (array_of v) [ none ↦ none | some vs ↦ elim vs [ [] ↦ none | w ∷ _ ↦ some w ] ]

-- A text that is found, or the next place to look in.
abbrev otherwise : Option Text → Option (Option Text) → Option (Option Text)
otherwise none next = next
otherwise (some t) next = some (some t)

-- The end of `extractDeltaText`: the parts of the first candidate.
unfoldable pub candidate_text : Option Json → Option (Option Text)
candidate_text none = some none
candidate_text (some c) = elim (read (lit "content") c) [
  | none ↦ none
  | some content ↦
      some (string_of (member? (lit "text") (first_of (member? (lit "parts") content))))
]

unfoldable pub block_text : Option Json → Option (Option Text)
block_text none = some none
block_text (some b) = elim (read (lit "text") b) [ none ↦ none | some t ↦ some (string_of t) ]

unfoldable pub choice_text : Option Json → Option (Option Text)
choice_text none = some none
choice_text (some Json.null) = none
choice_text (some c) = some (
    string_of (
      or_else (member? (lit "content") (member (lit "delta") c))
        (member? (lit "content") (member (lit "message") c))))

abbrev block_delta_text : Json → Option Text
block_delta_text o =
    if is_text (member (lit "type") o) (lit "content_block_delta")
    then string_of (member? (lit "text") (member (lit "delta") o))
    else none

-- the next place, unless reading threw or found a text
abbrev and_then : Option (Option Text) → Option (Option Text) → Option (Option Text)
and_then none next = none
and_then (some found) next = otherwise found next

unfoldable pub delta_text : Json → Option (Option Text)
delta_text o = and_then (choice_text (first_of (member (lit "choices") o))) (
    and_then (some (block_delta_text o)) (
      and_then (block_text (first_of (member (lit "content") o)))
        (candidate_text (first_of (member (lit "candidates") o)))))

-- `extractDeltaText`; the outer `none` where it throws, the inner one where it gives `null`
unfoldable pub extract_delta_text : Engine → Json → Option (Option Text)
extract_delta_text e Json.null = none
extract_delta_text e o = elim (error_of e (member (lit "error") o)) [
  | some t ↦ some (some t)
  | none ↦ delta_text o
]

abbrev pub truncated : Text
truncated =
    lit "响应被长度限制截断（finish_reason=length）。如果只有 Reasoning 没有正文，通常是 max_tokens 太低，模型在思考阶段耗尽了输出 token。"

abbrev pub calls_only : Text
calls_only = lit "模型返回了工具调用（finish_reason=tool_calls），因此正文 content 为空。"

abbrev pub reasoning_only : Text
reasoning_only = lit "响应包含 Reasoning，但没有正文 content。"

abbrev pub reason_is : Option Text → Text → Bool
reason_is none t = false
reason_is (some r) t = text_eq r t

-- `buildResponseWarnings`
unfoldable pub build_response_warnings : Option Text → Bool → Bool → Bool → List Text
build_response_warnings reason has_reasoning has_content has_tool_calls =
    (if reason_is reason (lit "length") then truncated ∷ [] else [])
    ++ (if reason_is reason (lit "tool_calls") && has_tool_calls && not has_content
        then calls_only ∷ []
        else if has_reasoning && not has_content && not (reason_is reason (lit "length"))
        then reasoning_only ∷ []
        else [])

-- `stringifyParsedResponse`
unfoldable pub stringify_parsed_response : Parts → Text
stringify_parsed_response p = join (lit "\n\n") (
    (elim p.warnings [ [] ↦ [] | _ ∷ _ ↦ join (lit "\n\n") p.warnings ∷ [] ])
    ++ (if is_empty p.reasoning then [] else (lit "**Reasoning**\n\n" ++ p.reasoning) ∷ [])
    ++ push_filled p.content []
    ++ push_filled p.tool_calls []
    ++ push_filled p.errors [])

module _ (e : Engine) where
  abbrev parsed : Option Text → Option Json
  parsed none = none
  parsed (some s) = if is_empty s then none else e.parse s

  -- `parseMessages`
  unfoldable pub parse_messages : Option Text → List Json
  parse_messages body = elim (array_of (member? (lit "messages") (parsed body))) [
    | none ↦ []
    | some vs ↦ vs
  ]

  -- `parseRequestMaxTokens`
  unfoldable pub parse_request_max_tokens : Option Text → Option ℕ
  parse_request_max_tokens body = elim (member? (lit "max_tokens") (parsed body)) [
    | none ↦ none
    | some v ↦ elim v [ num n ↦ if is_finite n then some n else none | _ ↦ none ]
  ]
