-- ===== src/Logs/Stream/Events.antt =====
-- Streams of chunks of a chat and of events that finish a choice, in any order.
use any_gateway.Base.{
  ◌≡◌, refl, ap, ◌∙◌, sym, Bool, false, ◌||◌, some, List, [], ◌∷◌, ◌++◌, All, arith,
}
use any_gateway.Base.Text.{Text, lit, text_eq, join}
use any_gateway.Base.Dict.{get, has}
use any_gateway.Json.{Json, str, arr, Engine, to_elems, member, member?}
use any_gateway.Api.{object}
use any_gateway.Logs.{
  extract_delta_text, delta_text, choice_text, candidate_text, block_text, error_of,
}
use any_gateway.Logs.Stream.{
  Stream, on_line, on_lines, payload_of, event_of, read_event, read_choices, read_choice,
  start_block, grow_block,
}
use any_gateway.Logs.Stream.Lines.{
  Chunk, chunk_json, with_chunk, on_line-chunk, join-concat, join-push,
}
use mathlib.Core.List.{append_assoc, append-nil}

-- What the server sends: a piece of the answer, or the reason for which a choice has finished.
pub data Event : Type 0 where
  said : Chunk → Event
  finished : Text → Event

abbrev pub finish_json : Text → Json
finish_json r = object (
    (
      lit "choices",
      arr (to_elems (object ((lit "delta", object []) ∷ (lit "finish_reason", str r) ∷ []) ∷ [])),
    )
    ∷ [])

abbrev pub event_json : Event → Json
event_json (said c) = chunk_json c
event_json (finished r) = finish_json r

-- The line is the event.
abbrev pub IsEventLine : Engine → Text × Event → Type 0
IsEventLine e (l, v) = event_of e (payload_of l) ≡ some (event_json v)

abbrev pub event_lines : List (Text × Event) → List Text
event_lines [] = []
event_lines ((l, v) ∷ ls) = l ∷ event_lines ls

abbrev content_in : Event → Text
content_in (said c) = c.content
content_in (finished r) = []

abbrev reasoning_in : Event → Text
reasoning_in (said c) = c.reasoning
reasoning_in (finished r) = []

-- The pieces of the answer, one after the other.
abbrev pub whole_content : List (Text × Event) → Text
whole_content [] = []
whole_content ((l, v) ∷ ls) = content_in v ++ whole_content ls

abbrev pub whole_reasoning : List (Text × Event) → Text
whole_reasoning [] = []
whole_reasoning ((l, v) ∷ ls) = reasoning_in v ++ whole_reasoning ls

abbrev is_finished_for : Text → Event → Bool
is_finished_for w (said c) = false
is_finished_for w (finished r) = text_eq r w

-- Some choice has finished for the reason.
abbrev pub finishes_for : Text → List (Text × Event) → Bool
finishes_for w [] = false
finishes_for w ((l, v) ∷ ls) = is_finished_for w v || finishes_for w ls

abbrev with_event : Event → Stream → Stream
with_event (said c) s = with_chunk c s
with_event (finished r) s = record s { finish_reasons = s.finish_reasons ++ r ∷ [] }

reading : Unit {0}
unfolding on_line read_event read_choices read_choice start_block extract_delta_text delta_text
    choice_text candidate_text block_text error_of member member? get lit text_eq grow_block
reading = tt

on_line-event :
    (e : Engine) (l : Text) (v : Event) (s : Stream)
    → IsEventLine e (l, v)
    → on_line e l s ≡ with_event v s
unfolding reading
on_line-event e l (said c) s h = on_line-chunk e l c.reasoning c.content s h
on_line-event e l (finished r) s h = rw h refl

on_lines-event :
    (e : Engine) (l : Text) (v : Event) (ls : List Text) (s : Stream)
    → IsEventLine e (l, v)
    → on_lines e (l ∷ ls) s ≡ on_lines e ls (with_event v s)
unfolding on_lines
on_lines-event e l v ls s h = ap (on_lines e ls) (on_line-event e l v s h)

has-push : (rs : List Text) (r w : Text) → has (rs ++ r ∷ []) w ≡ (has rs w || text_eq r w)
unfolding has
has-push [] r w = ground arith
has-push (q ∷ rs) r w = rw (has-push rs r w) (ground arith)

-- One event gives its piece of the content and of the reasoning, and its reason.
with_event-adds :
    (v : Event) (s : Stream) (w : Text)
    → (join [] (with_event v s).text_parts ≡ join [] s.text_parts ++ content_in v)
      × (join [] (with_event v s).reasoning_parts ≡ join [] s.reasoning_parts ++ reasoning_in v)
      × (has (with_event v s).finish_reasons w ≡ (has s.finish_reasons w || is_finished_for w v))
with_event-adds (said c) s w =
    (join-push c.content s.text_parts, join-concat s.reasoning_parts c.reasoning, ground arith)
with_event-adds (finished r) s w = (
  sym (append-nil (join [] s.text_parts)),
  sym (append-nil (join [] s.reasoning_parts)),
  has-push s.finish_reasons r w,
)

then_append : (j a t rest : Text) → j ≡ a ++ t → j ++ rest ≡ a ++ (t ++ rest)
then_append j a t rest h = ap (λ (u : Text). u ++ rest) h ∙ append_assoc a t rest

-- The events of a stream give the whole content, the whole reasoning and the reasons.
pub on_lines-events :
    (e : Engine) (ls : List (Text × Event)) (s : Stream) (w : Text)
    → All (IsEventLine e) ls
    → (join [] (on_lines e (event_lines ls) s).text_parts
        ≡ join [] s.text_parts ++ whole_content ls)
      × (join [] (on_lines e (event_lines ls) s).reasoning_parts
          ≡ join [] s.reasoning_parts ++ whole_reasoning ls)
      × (has (on_lines e (event_lines ls) s).finish_reasons w
          ≡ (has s.finish_reasons w || finishes_for w ls))
unfolding on_lines
on_lines-events e [] s w h = (
  sym (append-nil (join [] s.text_parts)),
  sym (append-nil (join [] s.reasoning_parts)),
  ground arith,
)
on_lines-events e ((l, v) ∷ ls) s w (h, hs) =
    let (t, r, f) = on_lines-events e ls (with_event v s) w hs in
    let (t', r', f') = with_event-adds v s w in
    rw (on_lines-event e l v (event_lines ls) s h) (
      t ∙ then_append _ (join [] s.text_parts) (content_in v) (whole_content ls) t',
      r ∙ then_append _ (join [] s.reasoning_parts) (reasoning_in v) (whole_reasoning ls) r',
      f ∙ rw f' (ground arith),
    )
