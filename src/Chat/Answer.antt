-- ===== src/Chat/Answer.antt =====
-- What the lines of an answer do to the conversation: the two handlers of `onLine` in
-- apps/react/src/pages/Chat/index.tsx. A message of an error that is an object is taken to have no
-- own `length`.
use any_gateway.Base.{
  ℕ, Bool, not, ◌&&◌, Option, none, some, List, [], ◌∷◌, ◌++◌, length, take, drop, ltb,
  if◌then◌else◌,
}
use any_gateway.Base.Text.{Text, lit, starts_with, text_eq}
use any_gateway.Json.{
  Json, str, arr, obj, Engine, elems, to_elems, truthy, member, member?, present, array_of, to_text,
}
use any_gateway.Api.{Notice}
use any_gateway.Logs.{is_text}
use any_gateway.Chat.{ChatMessage, update_last_assistant, put_error}

-- The history, `assistantContent` and the messages shown so far.
pub record Talk : Type 0 where
  pub history : List ChatMessage
  pub content : Text
  pub notices : List Notice

-- `choices?.[0]` where what follows is `?.delta`: a text has no element with a `delta`.
abbrev first_choice : Option Json → Option Json
first_choice (some (obj fs)) = member (lit "0") (obj fs)
first_choice v = elim (array_of v) [
  | none ↦ none
  | some vs ↦ elim vs [ [] ↦ none | w ∷ _ ↦ some w ]
]

abbrev first_part : ℕ → List Json → List Json
first_part n vs = take n vs

-- the answer grows: `assistantContent += …; updateLastAssistant(assistantContent)`
abbrev pub append : Text → Talk → Talk
append text t = record t {
  content = t.content ++ text;
  history = update_last_assistant (t.content ++ text) t.history;
}

abbrev pub is_text_delta : Json → Bool
is_text_delta o =
    is_text (member (lit "type") o) (lit "content_block_delta")
    && is_text (member? (lit "type") (member (lit "delta") o)) (lit "text_delta")

module _ (e : Engine) where
  -- `v ?? ''` behind `+=`
  abbrev pub appended : Option Json → Text
  appended v = elim (present v) [ none ↦ [] | some w ↦ to_text e w ]

  -- `rawMsg`
  unfoldable pub raw_message : Json → Json
  raw_message (str s) = str s
  raw_message err = elim (present (member (lit "message") err)) [
    | none ↦ str (e.stringify err)
    | some m ↦ m
  ]

  -- `label`
  unfoldable pub label_of : Json → Text
  label_of err = elim (present (member (lit "code") err)) [
    | none ↦ []
    | some c ↦ if truthy c then lit "[" ++ to_text e c ++ lit "] " else []
  ]

  -- `toastMsg`
  unfoldable pub toast_message : Json → Text
  toast_message (str s) = if ltb 120 (length s) then take 120 s ++ lit "…" else s
  toast_message (arr vs) =
      if ltb 120 (length (elems vs))
      then to_text e (arr (to_elems (first_part 120 (elems vs)))) ++ lit "…"
      else to_text e (arr vs)
  toast_message v = to_text e v

  -- what is put into an empty answer
  abbrev pub error_bubble : Json → Text
  error_bubble err = lit "❌ 请求失败 " ++ label_of err ++ to_text e (raw_message err)

  -- the branch `if (json.error)` of both handlers
  unfoldable pub on_error : Json → Talk → Talk
  on_error err t = record t {
    notices =
        t.notices
        ++ Notice.error (lit "请求失败：" ++ label_of err ++ toast_message (raw_message err)) ∷ [];
    history = put_error (error_bubble err) t.history;
  }

  -- what is done with an event without an error
  unfoldable pub openai_delta : Json → Talk → Talk
  openai_delta o t =
      append
        (appended (
          member? (lit "content")
            (member? (lit "delta") (first_choice (member (lit "choices") o)))))
        t

  unfoldable pub anthropic_delta : Json → Talk → Talk
  anthropic_delta o t =
      if is_text_delta o
      then append (appended (member? (lit "text") (member (lit "delta") o))) t
      else t

  abbrev pub by_error : (Json → Talk → Talk) → Option Json → Json → Talk → Talk
  by_error delta none o t = delta o t
  by_error delta (some err) o t = if truthy err then on_error err t else delta o t

  -- the body of the `try`; reading a member of `null` throws
  unfoldable pub on_event : (Json → Talk → Talk) → Json → Talk → Talk
  on_event delta Json.null t = t
  on_event delta o t = by_error delta (member (lit "error") o) o t

  abbrev pub on_parsed : (Json → Talk → Talk) → Option Json → Talk → Talk
  on_parsed delta none t = t
  on_parsed delta (some o) t = on_event delta o t

  -- `onLine` of `sendOpenAI`
  unfoldable pub openai_line : Text → Talk → Talk
  openai_line line t =
      if not (starts_with (lit "data: ") line)
      then t
      else if text_eq (drop 6 line) (lit "[DONE]")
      then t
      else on_parsed (λ o t'. openai_delta o t') (e.parse (drop 6 line)) t

  -- `onLine` of `sendAnthropic`
  unfoldable pub anthropic_line : Text → Talk → Talk
  anthropic_line line t =
      if not (starts_with (lit "data: ") line)
      then t
      else on_parsed (λ o t'. anthropic_delta o t') (e.parse (drop 6 line)) t

-- The lines that `readSSE` hands on, one by one.
unfoldable pub on_each : (Text → Talk → Talk) → List Text → Talk → Talk
on_each on_line [] t = t
on_each on_line (l ∷ ls) t = on_each on_line ls (on_line l t)
