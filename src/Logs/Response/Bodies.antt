-- ===== src/Logs/Response/Bodies.antt =====
-- Whole bodies of event streams.
use any_gateway.Base.{◌≡◌, refl, true, List, [], ◌∷◌, All, some}
use any_gateway.Base.Text.{Text, lit, join, split_on, trim_start, starts_with, includes}
use any_gateway.Base.Split.{IsUnbroken, split_on-join}
use any_gateway.Json.{Engine}
use any_gateway.Logs.Stream.{start, on_lines, stream_parts}
use any_gateway.Logs.Stream.Lines.{
  Chunk, IsLineOf, lines_of, contents, reasonings, stream_parts-chunks,
}
use any_gateway.Logs.Response.{is_stream, body_parts, parse_response_parts}

pub parse_stream :
    (e : Engine) (body : Text)
    → is_stream body ≡ true
    → parse_response_parts e (some body) ≡ stream_parts e (on_lines e (split_on 10 body) start)
unfolding parse_response_parts body_parts
parse_stream e [] h = absurd (unfold is_stream trim_start starts_with includes lit in cc)
parse_stream e (c ∷ body) h = rw h refl

-- A body of lines without breaks in them, each the event of a chat chunk, that is taken for a
-- stream: it is read as the whole content and the whole reasoning of the chunks.
pub parse_response_parts-chunks :
    (e : Engine) (l : Text) (c : Chunk) (ls : List (Text × Chunk))
    → All (IsLineOf e) ((l, c) ∷ ls)
    → All IsUnbroken (lines_of ((l, c) ∷ ls))
    → is_stream (join (10 ∷ []) (lines_of ((l, c) ∷ ls))) ≡ true
    → ((parse_response_parts e (some (join (10 ∷ []) (lines_of ((l, c) ∷ ls))))).content
        ≡ join [] (contents ((l, c) ∷ ls)))
      × ((parse_response_parts e (some (join (10 ∷ []) (lines_of ((l, c) ∷ ls))))).reasoning
          ≡ join [] (reasonings ((l, c) ∷ ls)))
parse_response_parts-chunks e l c ls h u s =
    rw (parse_stream e (join (10 ∷ []) (lines_of ((l, c) ∷ ls))) s, split_on-join l (lines_of ls) u)
      (stream_parts-chunks e ((l, c) ∷ ls) h)
