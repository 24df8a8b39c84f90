-- ===== src/Chat/Sending/Whole.antt =====
-- A whole answer of the chat completions API.
use any_gateway.Base.{◌≡◌, true, false, Option, none, some, List, [], ◌∷◌, ◌++◌, drop, ◌⊎◌}
use any_gateway.Base.Text.{Text, lit, text_eq, starts_with}
use any_gateway.Json.{Json, str, arr, Engine, to_elems}
use any_gateway.Api.{object}
use any_gateway.Chat.{Chat, ChatMessage, answered}
use any_gateway.Chat.Sse.{is_filled}
use any_gateway.Chat.Answer.{Talk}

-- The event with a piece of content.
abbrev pub delta_json : Text → Json
delta_json t = object (
    (
      lit "choices",
      arr (to_elems (object ((lit "delta", object ((lit "content", str t) ∷ [])) ∷ []) ∷ [])),
    )
    ∷ [])

-- A line with a piece of content, or a line without any: it is blank, is no data, or ends the
-- stream.
abbrev pub Carries : Engine → Text × Option Text → Type 0
Carries e (l, some t) =
    (is_filled l ≡ true)
    × (starts_with (lit "data: ") l ≡ true)
    × (text_eq (drop 6 l) (lit "[DONE]") ≡ false)
    × (e.parse (drop 6 l) ≡ some (delta_json t))
Carries e (l, none) =
    (is_filled l ≡ false)
    ⊎ ((starts_with (lit "data: ") l ≡ false) ⊎ (text_eq (drop 6 l) (lit "[DONE]") ≡ true))

abbrev pub lines_of : List (Text × Option Text) → List Text
lines_of [] = []
lines_of ((l, t) ∷ ls) = l ∷ lines_of ls

abbrev pub content_of : List (Text × Option Text) → Text
content_of [] = []
content_of ((l, none) ∷ ls) = content_of ls
content_of ((l, some t) ∷ ls) = t ++ content_of ls

-- The conversation behind `text`, of an answer that is the last message.
abbrev grown : List ChatMessage → Text → Talk
grown ms text = record { history = ms ++ answered text ∷ []; content = text; notices = [] }
