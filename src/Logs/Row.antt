-- ===== src/Logs/Row.antt =====
-- What an opened row of the table of logs displays: RenderWarnings, RenderMessage and their
-- companions, and expandedRowRender of apps/react/src/pages/Logs/index.tsx. A value that is handed
-- to the libraries which display it stays as it is. `none`: the rendering throws.
pub mod Typed
pub mod Shown
pub mod Replied
mod Tests
use any_gateway.Base.{
  ℕ, Bool, true, false, ◌&&◌, ◌||◌, not, Option, none, some, List, [], ◌∷◌, ◌++◌, map,
  if◌then◌else◌,
}
use any_gateway.Base.Found.{map_found, map_all, both}
use any_gateway.Base.Text.{Text, lit, is_empty, join, text_eq}
use any_gateway.Base.Dict.{Dict, get}
use any_gateway.Json.{
  Json, str, arr, Engine, to_text, truthy, member, member?, present, string_of, elems,
}
use any_gateway.Logs.{
  Parts, read, pretty_text, format_openai_tool_calls, parse_messages, parse_request_max_tokens,
}
use any_gateway.Logs.Response.{parse_response_parts}
use any_gateway.Logs.Page.{MessagesCache, waiting, here, missing}

-- The elements that a message is displayed with.
pub data Piece : Type 0 where
  markdown : Json → Piece
  folded : Text → Option Json → Piece
  tool_use : Option Json → Option Text → Piece
  tool_result : Text → Piece
  tool_calls : Text → Piece
  tool_id : Json → Piece
  muted : Text → Piece

abbrev pub or_empty_text : Option Json → Json
or_empty_text none = str []
or_empty_text (some v) = v

abbrev pretty? : Engine → Option Json → Option Text
pretty? e none = none
pretty? e (some v) = some (e.pretty v)

abbrev or_muted : Text → Text → Text
or_muted default t = if is_empty t then default else t

-- `v && …` of a value, a list of what is displayed
abbrev pub where_truthy : (Json → Piece) → Option Json → List Piece
where_truthy f none = []
where_truthy f (some v) = if truthy v then f v ∷ [] else []

abbrev pub no_content : Text
no_content = lit "（无内容）"

abbrev pub calls_piece : Text → List Piece
calls_piece t = if is_empty t then [] else tool_calls t ∷ []

abbrev pub message_pieces : Json → Text × List Piece → List Piece
message_pieces m (calls, content) =
    where_truthy (λ (v : Json). folded (lit "reasoning") (some v))
      (member (lit "reasoning_content") m)
    ++ content
    ++ calls_piece calls
    ++ where_truthy tool_id (member (lit "tool_call_id") m)

module _ (e : Engine) where
  -- `b.text ?? ''`, as `join` writes it
  abbrev pub inner_text : Json → Option Text
  inner_text b =
      map_found (λ (t : Option Json). to_text e (or_empty_text (present t))) (read (lit "text") b)

  -- the text of the content of a `tool_result`
  abbrev pub result_text : Option Json → Option Text
  result_text (some (str t)) = some t
  result_text (some (arr vs)) = map_found (join (lit "\n")) (map_all inner_text (elems vs))
  result_text c = some []

  -- The block's type decides; any other type than these is displayed as a text.
  abbrev pub block_by : Option Text → Json → Option Piece
  block_by none b = some (markdown (or_empty_text (present (member (lit "text") b))))
  block_by (some t) b =
      if text_eq t (lit "thinking")
      then some (folded (lit "thinking") (member (lit "thinking") b))
      else if text_eq t (lit "tool_use")
      then some (tool_use (member (lit "name") b) (pretty? e (member (lit "input") b)))
      else if text_eq t (lit "tool_result")
      then map_found (λ (r : Text). tool_result (or_muted (lit "（空）") r))
          (result_text (member (lit "content") b))
      else some (markdown (or_empty_text (present (member (lit "text") b))))

  -- `RenderBlock`
  unfoldable pub render_block : Json → Option Piece
  render_block Json.null = none
  render_block b = block_by (string_of (member (lit "type") b)) b

  abbrev pub blocks_or_muted : List Json → Option (List Piece)
  blocks_or_muted [] = some (muted no_content ∷ [])
  blocks_or_muted (b ∷ bs) = map_all render_block (b ∷ bs)

  -- `RenderContent`
  unfoldable pub render_content : Option Json → Option (List Piece)
  render_content (some (str t)) = some (markdown (str (or_muted no_content t)) ∷ [])
  render_content (some (arr vs)) = blocks_or_muted (elems vs)
  render_content c = some (muted no_content ∷ [])

  -- `RenderMessage`
  unfoldable pub render_message : Json → Option (List Piece)
  render_message m = map_found (message_pieces m) (
      both (format_openai_tool_calls e (member (lit "tool_calls") m))
        (render_content (member (lit "content") m)))

-- A message with its role and the role's colours.
pub record MessageRow : Type 0 where
  pub role : Option Json
  pub color : Text
  pub background : Text
  pub pieces : List Piece

-- `roleColor` and `roleBgColor`
abbrev role_colors : Dict (Text × Text)
role_colors =
    (lit "system", (lit "#722ed1", lit "#f9f0ff"))
    ∷ (lit "user", (lit "#1677ff", lit "#e8f4ff"))
    ∷ (lit "assistant", (lit "#389e0d", lit "#f0f9eb"))
    ∷ []

abbrev colors_of : Option Text → Text × Text
colors_of none = (lit "gray", lit "#f7f8fa")
colors_of (some role) = elim (get role role_colors) [
  | none ↦ (lit "gray", lit "#f7f8fa")
  | some colors ↦ colors
]

abbrev row_with : Option Json → Text × Text → List Piece → MessageRow
row_with role (color, background) pieces = record {
  role = role;
  color = color;
  background = background;
  pieces = pieces;
}

abbrev pub row_of : Json → List Piece → MessageRow
row_of m pieces =
    row_with (member (lit "role") m) (colors_of (string_of (member (lit "role") m))) pieces

-- One row of the list of messages.
unfoldable pub message_row : Engine → Json → Option MessageRow
message_row e Json.null = none
message_row e m = map_found (row_of m) (render_message e m)

-- What the section of the response displays.
pub record Answer : Type 0 where
  pub warnings : List Text
  pub reasoning : Text
  pub content : Text
  pub tool_calls : Text
  pub errors : Text

pub record Expansion : Type 0 where
  pub target : Option Json
  pub messages : List MessageRow
  pub raw : Text
  pub answer : Option Answer

-- What an opened row displays.
pub data Expanded : Type 0 where
  spinning : Expanded
  failed : Text → Expanded
  details : Expansion → Expanded

abbrev pub no_messages_file : Text
no_messages_file = lit "消息文件不存在"

-- the text behind a warning
abbrev pub limit_text : Engine → Option ℕ → Text
limit_text e none = []
limit_text e (some n) = lit " 当前请求 max_tokens=" ++ e.number_text n ++ lit "。"

-- `RenderWarnings`
unfoldable pub render_warnings : Engine → Option ℕ → List Text → List Text
render_warnings e n ws = map (λ (w : Text). w ++ limit_text e n) ws

abbrev pub has_any : List Text → Bool
has_any [] = false
has_any (w ∷ ws) = true

-- The section of the response stands only where there is something in it.
abbrev pub has_answer : Parts → Bool
has_answer p =
    has_any p.warnings
    || not (is_empty p.reasoning)
    || not (is_empty p.content)
    || not (is_empty p.tool_calls)
    || not (is_empty p.errors)

unfoldable pub answer_of : Engine → Option ℕ → Parts → Option Answer
answer_of e n p =
    if has_answer p
    then some (record {
      warnings = render_warnings e n p.warnings;
      reasoning = p.reasoning;
      content = p.content;
      tool_calls = p.tool_calls;
      errors = p.errors;
    })
    else none

-- `rawRequestJson`
abbrev pub raw_request : Engine → Option Text → Text
raw_request e none = []
raw_request e (some body) = if is_empty body then [] else pretty_text e body

abbrev pub target_of : Bool → Option Json → Option Json
target_of is_admin none = none
target_of is_admin (some url) = if is_admin && truthy url then some url else none

-- The bodies of a record are texts where they are there.
abbrev pub request_of : Option Json → Option Text
request_of data' = string_of (member? (lit "request_body") data')

abbrev pub response_of : Option Json → Option Text
response_of data' = string_of (member? (lit "response_body") data')

abbrev pub expansion_of : Engine → Bool → Option Json → List MessageRow → Expansion
expansion_of e is_admin data' rows = record {
  target = target_of is_admin (member? (lit "request_url") data');
  messages = rows;
  raw = raw_request e (request_of data');
  answer =
      answer_of e (parse_request_max_tokens e (request_of data'))
        (parse_response_parts e (response_of data'));
}

unfoldable pub details_of : Engine → Bool → Option Json → Option Expanded
details_of e is_admin data' =
    map_found (λ (rows : List MessageRow). details (expansion_of e is_admin data' rows))
      (map_all (message_row e) (parse_messages e (request_of data')))

abbrev pub failure_text : Engine → Json → Text
failure_text e (str t) = if text_eq t no_messages_file then lit "（暂无消息记录）" else lit "错误：" ++ t
failure_text e error = lit "错误：" ++ to_text e error

-- `expandedRowRender` of a record's entry in the cache
unfoldable pub expanded_row : Engine → Bool → Option MessagesCache → Option Expanded
expanded_row e is_admin none = some spinning
expanded_row e is_admin (some waiting) = some spinning
expanded_row e is_admin (some (missing error)) =
    if truthy error then some (failed (failure_text e error)) else details_of e is_admin none
expanded_row e is_admin (some (here data')) = details_of e is_admin (some data')
