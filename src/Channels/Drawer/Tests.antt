-- ===== src/Channels/Drawer/Tests.antt =====
-- Runs of the drawer that edits a channel.
use any_gateway.Base.{◌≡◌, refl, true, false, none, some, List, [], ◌∷◌, All, if◌then◌else◌}
use any_gateway.Base.Text.{Text, lit, text_eq, trim, trim_start, trim_end, is_space}
use any_gateway.Base.Dict.{Distinct, has, put, add, add_all, unique}
use any_gateway.Json.{Json, str, Engine}
use any_gateway.Api.{fulfilled, object}
use any_gateway.Channels.{Mapping, parse_mappings}
use any_gateway.Channels.Drawer.{
  Drawer, Values, handle_submit, check_rules, check_complete, check_distinct, mapping_object,
}
use any_gateway.Channels.Drawer.Rules.{IsComplete, handle_submit-calls, parse_mappings-mapping_text}

abbrev rules : List Mapping
rules =
    record { from = lit " fast "; to = str (lit "gpt") }
    ∷ record { from = lit "slow"; to = str (lit "o1 ") }
    ∷ []

abbrev written : Text
written = lit "{\"fast\":\"gpt\",\"slow\":\"o1\"}"

abbrev clean : List Mapping
clean =
    record { from = lit "fast"; to = str (lit "gpt") }
    ∷ record { from = lit "slow"; to = str (lit "o1") }
    ∷ []

abbrev saved : Json
saved = object ((lit "fast", str (lit "gpt")) ∷ (lit "slow", str (lit "o1")) ∷ [])

-- An engine that knows one text.
abbrev engine : Engine
engine = record {
  parse = λ t. if text_eq t written then some saved else none;
  stringify = λ v. written;
  pretty = λ v. written;
  number_text = λ n. lit "0";
}

abbrev blank : Values
blank = record {
  name = some (lit "n");
  provider = none;
  base_url = none;
  api_key = none;
  weight = none;
  enabled = none;
  proxy_url = none;
  disable_ssl = none;
  disable_compression = none;
  protocol = none;
  ws_path = none;
  ws_subprotocols = none;
}

abbrev filled_in : Drawer
filled_in = record {
  channels = Json.null;
  loading = false;
  visible = true;
  editing = none;
  submitting = false;
  mappings = rules;
  form = blank;
}

runs : Unit {0}
unfolding lit text_eq trim trim_start trim_end is_space has put add add_all unique check_rules
    check_complete check_distinct mapping_object handle_submit
runs = tt

handle_submit-calls_example : All IsComplete rules × Distinct (lit "fast" ∷ lit "slow" ∷ [])
unfolding runs
handle_submit-calls_example =
    handle_submit-calls engine (some blank) (fulfilled Json.null) filled_in refl

parse_mappings-mapping_text_example : parse_mappings engine (some written) ≡ clean
unfolding runs
parse_mappings-mapping_text_example = parse_mappings-mapping_text engine rules refl refl refl
