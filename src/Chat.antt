-- ===== src/Chat.antt =====
-- The chat of apps/react/src/pages/Chat/index.tsx: its history, the requests, and what becomes of
-- an answer. The platform's `fetch` and `TextDecoder` give the answer as a value: the texts that
-- the chunks of its body decode to.
pub mod Curl
pub mod Sse
pub mod Answer
pub mod Sending
pub mod Models
mod Tests
use any_gateway.Base.{
  ℕ, Bool, true, false, not, ◌&&◌, ◌||◌, Option, none, some, List, [], ◌∷◌, ◌++◌, if◌then◌else◌,
}
use any_gateway.Base.Text.{Text, lit, is_empty, trim, to_lower, text_eq}
use any_gateway.Base.Dict.{Dict}
use any_gateway.Json.{Json, str, num, bool, arr, to_elems}
use any_gateway.Api.{object}

pub data Role : Type 0 where
  user assistant : Role

-- `ChatMessage`
pub record ChatMessage : Type 0 where
  pub role : Role
  pub content : Text

abbrev pub said : Text → ChatMessage
said t = record { role = user; content = t }

abbrev pub answered : Text → ChatMessage
answered t = record { role = assistant; content = t }

-- The state hooks of the conversation.
pub record Chat : Type 0 where
  pub selected_key : Text
  pub selected_provider : Option Text
  pub selected_model : Text
  pub history : List ChatMessage
  pub input : Text
  pub sending : Bool

-- `isAnthropic`
unfoldable pub is_anthropic : Chat → Bool
is_anthropic s = elim s.selected_provider [
  | none ↦ false
  | some p ↦ text_eq (to_lower p) (lit "anthropic")
]

-- `updateLastAssistant`; without a message nothing is added.
unfoldable pub update_last_assistant : Text → List ChatMessage → List ChatMessage
update_last_assistant t [] = []
update_last_assistant t (m ∷ []) = answered t ∷ []
update_last_assistant t (m ∷ n ∷ ms) = m ∷ update_last_assistant t (n ∷ ms)

abbrev pub drop_empty : ChatMessage → List ChatMessage
drop_empty m = elim m.role [ user ↦ m ∷ [] | assistant ↦ if is_empty m.content then [] else m ∷ [] ]

-- `removeEmptyLastAssistant`
unfoldable pub remove_empty_last_assistant : List ChatMessage → List ChatMessage
remove_empty_last_assistant [] = []
remove_empty_last_assistant (m ∷ []) = drop_empty m
remove_empty_last_assistant (m ∷ n ∷ ms) = m ∷ remove_empty_last_assistant (n ∷ ms)

abbrev pub fill_empty : Text → ChatMessage → ChatMessage
fill_empty t m = elim m.role [ user ↦ m | assistant ↦ if is_empty m.content then answered t else m ]

-- The update of the history that puts an error into an answer that is still empty.
unfoldable pub put_error : Text → List ChatMessage → List ChatMessage
put_error t [] = []
put_error t (m ∷ []) = fill_empty t m ∷ []
put_error t (m ∷ n ∷ ms) = m ∷ put_error t (n ∷ ms)

-- What `fetch` is called with.
pub record Request : Type 0 where
  pub url : Text
  pub headers : Dict Text
  pub body : Json

abbrev role_text : Role → Text
role_text user = lit "user"
role_text assistant = lit "assistant"

abbrev message_json : ChatMessage → Json
message_json m = object ((lit "role", str (role_text m.role)) ∷ (lit "content", str m.content) ∷ [])

abbrev messages_json : List ChatMessage → List Json
messages_json [] = []
messages_json (m ∷ ms) = message_json m ∷ messages_json ms

-- The 64-bit pattern of 4096, `ANTHROPIC_MAX_TOKENS`.
abbrev max_tokens : ℕ
max_tokens = 0x40B0000000000000

-- the request of `sendOpenAI`
unfoldable pub openai_request : Chat → List ChatMessage → Request
openai_request s messages = record {
  url = lit "/v1/chat/completions";
  headers =
      (lit "Authorization", lit "Bearer " ++ s.selected_key)
      ∷ (lit "Content-Type", lit "application/json")
      ∷ [];
  body = object (
      (lit "model", str s.selected_model)
      ∷ (lit "messages", arr (to_elems (messages_json messages)))
      ∷ (lit "stream", bool true)
      ∷ []);
}

-- the request of `sendAnthropic`
unfoldable pub anthropic_request : Chat → List ChatMessage → Request
anthropic_request s messages = record {
  url = lit "/v1/messages";
  headers = (lit "x-api-key", s.selected_key) ∷ (lit "Content-Type", lit "application/json") ∷ [];
  body = object (
      (lit "model", str s.selected_model)
      ∷ (lit "messages", arr (to_elems (messages_json messages)))
      ∷ (lit "max_tokens", num max_tokens)
      ∷ (lit "stream", bool true)
      ∷ []);
}
