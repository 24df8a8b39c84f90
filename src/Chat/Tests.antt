-- ===== src/Chat/Tests.antt =====
-- Runs of the chat.
use any_gateway.Base.{◌≡◌, refl, true, false, none, some, List, [], ◌∷◌, ◌⊎◌, length, if◌then◌else◌}
use any_gateway.Base.Text.{
  Text, lit, text_eq, join, trim, trim_start, trim_end, is_space, starts_with, split_on, to_lower,
}
use any_gateway.Base.Dict.{has, get, put, add}
use any_gateway.Json.{Engine, member, member?, to_text}
use any_gateway.Chat.{
  Chat, said, is_anthropic, update_last_assistant, remove_empty_last_assistant, put_error,
}
use any_gateway.Chat.Sse.{read_sse, read_sse-handed_on}
use any_gateway.Chat.Answer.{openai_line, on_event, openai_delta, on_each}
use any_gateway.Chat.Sending.{unreachable, receive, handle_send}
use any_gateway.Chat.Sending.History.{IsReady, IsUnready, Continues, handle_send-Continues}
use any_gateway.Chat.Sending.Whole.{delta_json}
use any_gateway.Chat.Models.{
  ModelInfo, Choice, listed, filtered_models, load_models, owned_models, filtered_models-listed,
}

-- An engine that knows two texts.
abbrev engine : Engine
engine = record {
  parse = λ t.
      if text_eq t (lit "1")
      then some (delta_json (lit "Hel"))
      else if text_eq t (lit "2")
      then some (delta_json (lit "lo"))
      else none;
  stringify = λ v. lit "null";
  pretty = λ v. lit "null";
  number_text = λ n. lit "0";
}

abbrev asked : Chat
asked = record {
  selected_key = lit "k";
  selected_provider = none;
  selected_model = lit "m";
  history = [];
  input = lit " hi ";
  sending = false;
}

abbrev pieces : List Text
pieces = lit "data: 1\n\nda" ∷ lit "ta: 2\ndata: [DONE]" ∷ []

runs : Unit {0}
unfolding lit text_eq join trim trim_start trim_end is_space starts_with split_on to_lower has get
    put add member member? to_text is_anthropic update_last_assistant remove_empty_last_assistant
    put_error read_sse openai_line on_event openai_delta on_each receive handle_send filtered_models
    load_models owned_models
runs = tt

read_sse-handed_on_example :
    read_sse true pieces [] ≡ lit "data: 1" ∷ lit "data: 2" ∷ lit "data: [DONE]" ∷ []
unfolding runs
read_sse-handed_on_example = read_sse-handed_on true pieces

handle_send-Continues_example :
    (IsUnready asked
      × ((handle_send engine unreachable asked).chat ≡ asked)
      × ((handle_send engine unreachable asked).requests ≡ []))
    ⊎ IsReady asked
      × ((handle_send engine unreachable asked).chat.sending ≡ false)
      × ((handle_send engine unreachable asked).chat.input ≡ [])
      × (length (handle_send engine unreachable asked).requests ≡ 1)
      × Continues unreachable
          (said (lit "hi") ∷ [])
          (handle_send engine unreachable asked).chat.history
unfolding runs
handle_send-Continues_example = handle_send-Continues engine unreachable asked

abbrev models : List ModelInfo
models =
    record { id = some (lit "gpt"); owned_by = some (lit "openai") }
    ∷ record { id = some (lit "opus"); owned_by = some (lit "anthropic") }
    ∷ []

abbrev nothing : Choice
nothing = record { chosen_keys = []; all_models = []; providers = []; provider_models = [] }

filtered_models-listed_example :
    has (filtered_models (some (lit "openai")) (load_models (listed models) nothing)) (lit "gpt")
    ≡ true
unfolding runs
filtered_models-listed_example =
    filtered_models-listed models nothing (lit "openai") (lit "gpt") refl
