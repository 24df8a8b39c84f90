-- ===== src/Chat/Sending.antt =====
-- `handleSend` of apps/react/src/pages/Chat/index.tsx, with the answer to its request.
pub mod History
pub mod Whole
use any_gateway.Base.{
  ℕ, Bool, true, false, not, ◌&&◌, ◌||◌, Option, none, some, List, [], ◌∷◌, ◌++◌, if◌then◌else◌,
}
use any_gateway.Base.Text.{Text, lit, is_empty, trim, decimal}
use any_gateway.Json.{Json, str, Engine, member?, present, to_text}
use any_gateway.Api.{Notice}
use any_gateway.Chat.{
  Chat, ChatMessage, Request, said, answered, is_anthropic, openai_request, anthropic_request,
  put_error, remove_empty_last_assistant,
}
use any_gateway.Chat.Sse.{Body, read_sse}
use any_gateway.Chat.Answer.{Talk, openai_line, anthropic_line, on_each}

-- What `fetch` gives: nothing (it rejects), a response that is not ok with its status and its body
-- if that is JSON, or a stream.
pub data Answer : Type 0 where
  unreachable : Answer
  refused : ℕ → Option Json → Answer
  streaming : Body → Answer

-- The conversation behind a call, what was shown, and the requests that were made.
pub record Sent : Type 0 where
  pub chat : Chat
  pub notices : List Notice
  pub requests : List Request

abbrev message_or_status : Engine → Text → Option Json → Text
message_or_status e status raw = elim (present (member? (lit "message") raw)) [
  | none ↦ status
  | some m ↦ to_text e m
]

abbrev raw_text : Engine → Text → Option Json → Text
raw_text e status (some (str s)) = s
raw_text e status raw = message_or_status e status raw

-- `errMsg`
unfoldable pub refusal_text : Engine → ℕ → Option Json → Text
refusal_text e status body = raw_text e (decimal status) (member? (lit "error") body)

abbrev pub on_line : Engine → Chat → Text → Talk → Talk
on_line e s = if is_anthropic s then anthropic_line e else openai_line e

-- `sendOpenAI` or `sendAnthropic` behind the request, and the `catch` of `handleSend`.
unfoldable pub receive : Engine → Chat → Answer → List ChatMessage → List ChatMessage × List Notice
receive e s unreachable history =
    (remove_empty_last_assistant history, Notice.error (lit "请求出错，请检查网络和配置") ∷ [])
receive e s (refused status body) history = (
  put_error (lit "❌ 请求失败：" ++ refusal_text e status body) history,
  Notice.error (lit "请求失败：" ++ refusal_text e status body) ∷ [],
)
receive e s (streaming body) history =
    let talk =
      on_each (on_line e s) (read_sse body.complete body.chunks [])
        (record { history = history; content = []; notices = [] }) in
    if body.complete then (talk.history, talk.notices) else (
      remove_empty_last_assistant talk.history,
      talk.notices ++ Notice.error (lit "请求出错，请检查网络和配置") ∷ [],
    )

abbrev request_of : Chat → List ChatMessage → Request
request_of s messages =
    if is_anthropic s then anthropic_request s messages else openai_request s messages

-- the input is blank, or no key or no model is chosen
abbrev pub is_unready : Chat → Bool
is_unready s = is_empty (trim s.input) || is_empty s.selected_key || is_empty s.selected_model

abbrev pub messages_of : Chat → List ChatMessage
messages_of s = s.history ++ said (trim s.input) ∷ []

abbrev received : Engine → Chat → Answer → List ChatMessage × List Notice
received e s answer = receive e s answer (messages_of s ++ answered [] ∷ [])

-- `handleSend`. `sending` is true while the answer is awaited.
unfoldable pub handle_send : Engine → Answer → Chat → Sent
handle_send e answer s =
    if is_unready s
    then record {
      chat = s;
      notices = Notice.warning (lit "请先选择 API Key 和模型，并输入消息") ∷ [];
      requests = [];
    }
    else record {
      chat = record s { history = (received e s answer).0; input = []; sending = false };
      notices = (received e s answer).1;
      requests = request_of s (messages_of s) ∷ [];
    }
