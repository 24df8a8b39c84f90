-- ===== src/Logs/Tests.antt =====
-- Runs of the parsing of logged responses.
use any_gateway.Base.{◌≡◌, refl, none, some, List, [], ◌∷◌, map, if◌then◌else◌}
use any_gateway.Base.Text.{
  lit, text_eq, join, trim, trim_start, trim_end, is_space, starts_with, includes, split_on,
}
use any_gateway.Base.Dict.{get, has}
use any_gateway.Json.{Engine, member, member?, to_text}
use any_gateway.Logs.{find_key, same_key}
use any_gateway.Logs.Stream.{start, done, on_lines, payload_of, append_calls}
use any_gateway.Logs.Stream.Lines.{Chunk, chunk_json, on_lines-keep}
use any_gateway.Logs.Stream.Calls.{Piece, to_delta, assembled, arguments_at, append_calls-arguments}
use any_gateway.Logs.Response.{is_stream, parse_response_parts}
use any_gateway.Logs.Response.Bodies.{parse_response_parts-chunks}

abbrev first_chunk : Chunk
first_chunk = record { reasoning = lit "think "; content = [] }

abbrev second_chunk : Chunk
second_chunk = record { reasoning = lit "more"; content = lit "answer" }

-- An engine that knows two texts.
abbrev engine : Engine
engine = record {
  parse = λ t.
      if text_eq t (lit "1")
      then some (chunk_json first_chunk)
      else if text_eq t (lit "2")
      then some (chunk_json second_chunk)
      else none;
  stringify = λ v. lit "null";
  pretty = λ v. lit "null";
  number_text = λ n. lit "0";
}

abbrev pieces : List Piece
pieces =
    record { index = 0; name = some (lit "search"); part = lit "{\"q\":" }
    ∷ record { index = 1; name = some (lit "open"); part = lit "{" }
    ∷ record { index = 0; name = none; part = lit "1}" }
    ∷ record { index = 1; name = none; part = lit "}" }
    ∷ []

runs : Unit {0}
unfolding lit text_eq join trim trim_start trim_end is_space starts_with includes split_on get has
    member member? to_text payload_of is_stream same_key
runs = tt

on_lines-keep_example :
    on_lines engine (lit "event: x" ∷ lit "data: 2" ∷ lit "data: [DONE]" ∷ lit "data: ?" ∷ []) start
    ≡ on_lines engine (lit "data: 2" ∷ []) start
unfolding runs
on_lines-keep_example =
    on_lines-keep engine (lit "event: x" ∷ lit "data: 2" ∷ lit "data: [DONE]" ∷ lit "data: ?" ∷ [])
      start

parse_response_parts-chunks_example :
    ((parse_response_parts engine (some (lit "data: 1\ndata: 2"))).content ≡ lit "answer")
    × ((parse_response_parts engine (some (lit "data: 1\ndata: 2"))).reasoning ≡ lit "think more")
unfolding runs
parse_response_parts-chunks_example =
    parse_response_parts-chunks engine (lit "data: 1") first_chunk
      ((lit "data: 2", second_chunk) ∷ []) (refl, (refl, tt))
      (
        (refl, (refl, (refl, (refl, (refl, (refl, (refl, tt))))))),
        ((refl, (refl, (refl, (refl, (refl, (refl, (refl, tt))))))), tt),
      )
      refl

append_calls-arguments_example :
    (append_calls engine (map to_delta pieces) start
      ≡ done (record start { calls = assembled engine pieces [] }))
    × (arguments_at engine 0 (assembled engine pieces []) ≡ lit "{\"q\":1}")
unfolding runs find_key
append_calls-arguments_example = append_calls-arguments engine pieces start 0 tt
