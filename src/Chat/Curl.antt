-- ===== src/Chat/Curl.antt =====
-- The command that the chat offers for a terminal, of apps/react/src/pages/Chat/index.tsx.
use any_gateway.Base.{not, ◌&&◌, ◌++◌, if◌then◌else◌}
use any_gateway.Base.Text.{Text, lit, is_empty}
use any_gateway.Chat.{Chat, is_anthropic}

abbrev anthropic_command : Text → Text → Text
anthropic_command key model =
    lit "curl http://localhost:8003/v1/messages \\\n  -H \"x-api-key: "
    ++ key
    ++ lit
        "\" \\\n  -H \"Content-Type: application/json\" \\\n  -H \"anthropic-version: 2023-06-01\" \\\n  -d '{\"model\": \""
    ++ model
    ++ lit
        "\", \"messages\": [{\"role\": \"user\", \"content\": \"你好\"}], \"max_tokens\": 4096, \"stream\": true}'"

abbrev openai_command : Text → Text → Text
openai_command key model =
    lit "curl http://localhost:8003/v1/chat/completions \\\n  -H \"Authorization: Bearer "
    ++ key
    ++ lit "\" \\\n  -H \"Content-Type: application/json\" \\\n  -d '{\"model\": \""
    ++ model
    ++ lit "\", \"messages\": [{\"role\": \"user\", \"content\": \"你好\"}], \"stream\": true}'"

-- `curlCommand`
unfoldable pub curl_command : Chat → Text
curl_command s =
    if not (is_empty s.selected_key) && not (is_empty s.selected_model)
    then (if is_anthropic s
        then anthropic_command s.selected_key s.selected_model
        else openai_command s.selected_key s.selected_model)
    else lit "# 请先选择 API Key 和模型"

-- the title above it
abbrev pub curl_title : Chat → Text
curl_title s = if is_anthropic s then lit "curl — Anthropic Messages" else lit "curl — OpenAI Chat"
