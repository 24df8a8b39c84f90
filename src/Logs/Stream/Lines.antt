-- ===== src/Logs/Stream/Lines.antt =====
-- The lines of a stream: which count, and what a stream of chat chunks gives.
use any_gateway.Base.{
  ◌≡◌, refl, ap, ◌∙◌, sym, Bool, true, false, Option, none, some, List, [], ◌∷◌, ◌++◌, All, keep,
  drop, not, ◌&&◌, if◌then◌else◌, Bool-cases, inl, inr,
}
use any_gateway.Base.Text.{Text, lit, text_eq, join, is_empty, trim, starts_with}
use any_gateway.Base.Dict.{get}
use any_gateway.Json.{Json, str, arr, Engine, to_elems, member, member?}
use any_gateway.Api.{object}
use any_gateway.Logs.{
  extract_delta_text, delta_text, choice_text, candidate_text, block_text, error_of,
}
use any_gateway.Logs.Stream.{
  Stream, start, on_line, on_lines, payload_of, event_of, after_event, read_event, read_choices,
  read_choice, start_block, grow_block, stream_parts,
}
use mathlib.Core.List.{append_assoc, append-nil}

abbrev is_there : Option Json → Bool
is_there none = false
is_there (some o) = true

-- The line, without the space around it, starts with `data:`, what follows is not the end mark, and
-- it is JSON.
abbrev pub counts : Engine → Text → Bool
counts e line =
    starts_with (lit "data:") (trim line)
    && not (text_eq (trim (drop 5 (trim line))) (lit "[DONE]"))
    && is_there (e.parse (trim (drop 5 (trim line))))

after_event-ignored :
    (e : Engine) (o : Option Json) (s : Stream) → is_there o ≡ false → after_event e o s ≡ s
after_event-ignored e none s h = refl
after_event-ignored e (some o) s h = absurd cc

on_line-ignored : (e : Engine) (l : Text) (s : Stream) → counts e l ≡ false → on_line e l s ≡ s
unfolding on_line payload_of
on_line-ignored e l s h = elim (Bool-cases (starts_with (lit "data:") (trim l))) [
  | inr d ↦ rw d refl
  | inl d ↦ elim (Bool-cases (text_eq (trim (drop 5 (trim l))) (lit "[DONE]"))) [
    | inl m ↦ rw (d, m) refl
    | inr m ↦
        rw (d, m) (after_event-ignored e (e.parse (trim (drop 5 (trim l)))) s (rw (d, m) at h))
  ]
]

-- Lines that do not start with `data:`, the end mark and lines that are not JSON may stand anywhere
-- in a stream: what is read is what the other lines give, in their order.
pub on_lines-keep :
    (e : Engine) (ls : List Text) (s : Stream) → on_lines e ls s ≡ on_lines e (keep (counts e) ls) s
unfolding on_lines
on_lines-keep e [] s = refl
on_lines-keep e (l ∷ ls) s = elim (Bool-cases (counts e l)) [
  | inl h ↦ rw h (on_lines-keep e ls (on_line e l s))
  | inr h ↦ rw (h, on_line-ignored e l s h) (on_lines-keep e ls s)
]

-- What a chunk of a chat carries.
pub record Chunk : Type 0 where
  pub reasoning : Text
  pub content : Text

abbrev pub chunk_json : Chunk → Json
chunk_json c = object (
    (
      lit "choices",
      arr (
          to_elems (
            object (
              (
                lit "delta",
                object (
                    (lit "reasoning_content", str c.reasoning)
                    ∷ (lit "content", str c.content)
                    ∷ []),
              )
              ∷ [])
            ∷ [])),
    )
    ∷ [])

-- The line is the chunk's event.
abbrev pub IsLineOf : Engine → Text × Chunk → Type 0
IsLineOf e (l, c) = event_of e (payload_of l) ≡ some (chunk_json c)

abbrev pub push_filled_text : Text → List Text → List Text
push_filled_text t ts = if is_empty t then ts else ts ++ t ∷ []

abbrev pub with_chunk : Chunk → Stream → Stream
with_chunk c s = record s {
  reasoning_parts = s.reasoning_parts ++ c.reasoning ∷ [];
  text_parts = push_filled_text c.content s.text_parts;
}

reading : Unit {0}
unfolding on_line read_event read_choices read_choice start_block extract_delta_text delta_text
    choice_text candidate_text block_text error_of member member? get lit text_eq grow_block
reading = tt

pub on_line-chunk :
    (e : Engine) (l : Text) (r t : Text) (s : Stream)
    → IsLineOf e (l, record { reasoning = r; content = t })
    → on_line e l s ≡ with_chunk (record { reasoning = r; content = t }) s
unfolding reading
on_line-chunk e l r [] s h = rw h refl
on_line-chunk e l r (c ∷ t) s h = rw h refl

-- The texts and the lines of the chunks.
abbrev pub reasonings : List (Text × Chunk) → List Text
reasonings [] = []
reasonings ((l, c) ∷ ls) = c.reasoning ∷ reasonings ls

abbrev pub contents : List (Text × Chunk) → List Text
contents [] = []
contents ((l, c) ∷ ls) = c.content ∷ contents ls

abbrev pub lines_of : List (Text × Chunk) → List Text
lines_of [] = []
lines_of ((l, c) ∷ ls) = l ∷ lines_of ls

pub join-concat : (ts : List Text) (t : Text) → join [] (ts ++ t ∷ []) ≡ join [] ts ++ t
unfolding join
join-concat [] t = refl
join-concat (u ∷ []) t = refl
join-concat (u ∷ v ∷ ts) t =
    ap (λ (r : Text). u ++ r) (join-concat (v ∷ ts) t) ∙ sym (append_assoc u (join [] (v ∷ ts)) t)

join-cons : (t : Text) (ts : List Text) → join [] (t ∷ ts) ≡ t ++ join [] ts
unfolding join
join-cons t [] = sym (append-nil t)
join-cons t (u ∷ ts) = refl

pub join-push : (t : Text) (ts : List Text) → join [] (push_filled_text t ts) ≡ join [] ts ++ t
join-push [] ts = sym (append-nil (join [] ts))
join-push (c ∷ t) ts = join-concat ts (c ∷ t)

-- Text that is there already, and a chunk's text behind it.
then-cons : (a t : Text) (ts : List Text) → (a ++ t) ++ join [] ts ≡ a ++ join [] (t ∷ ts)
then-cons a t ts = append_assoc a t (join [] ts) ∙ ap (λ (r : Text). a ++ r) (sym (join-cons t ts))

on_lines-chunk :
    (e : Engine) (l : Text) (c : Chunk) (ls : List Text) (s : Stream)
    → IsLineOf e (l, c)
    → on_lines e (l ∷ ls) s ≡ on_lines e ls (with_chunk c s)
unfolding on_lines
on_lines-chunk e l c ls s h = ap (on_lines e ls) (on_line-chunk e l c.reasoning c.content s h)

on_lines-texts :
    (e : Engine) (ls : List (Text × Chunk)) (s : Stream)
    → All (IsLineOf e) ls
    → (join [] (on_lines e (lines_of ls) s).text_parts
        ≡ join [] s.text_parts ++ join [] (contents ls))
      × (join [] (on_lines e (lines_of ls) s).reasoning_parts
          ≡ join [] s.reasoning_parts ++ join [] (reasonings ls))
unfolding join on_lines
on_lines-texts e [] s h =
    (sym (append-nil (join [] s.text_parts)), sym (append-nil (join [] s.reasoning_parts)))
on_lines-texts e ((l, c) ∷ ls) s (h, hs) =
    let (t, r) = on_lines-texts e ls (with_chunk c s) hs in
    rw (on_lines-chunk e l c (lines_of ls) s h) (
      t
          ∙ ap (λ (a : Text). a ++ join [] (contents ls)) (join-push c.content s.text_parts)
          ∙ then-cons (join [] s.text_parts) c.content (contents ls),
      r
          ∙ ap (λ (a : Text). a ++ join [] (reasonings ls))
              (join-concat s.reasoning_parts c.reasoning)
          ∙ then-cons (join [] s.reasoning_parts) c.reasoning (reasonings ls),
    )

-- A stream of chat chunks, each line an event with a piece of reasoning and a piece of content,
-- any of them empty, gives the whole reasoning and the whole content.
pub stream_parts-chunks :
    (e : Engine) (ls : List (Text × Chunk))
    → All (IsLineOf e) ls
    → ((stream_parts e (on_lines e (lines_of ls) start)).content ≡ join [] (contents ls))
      × ((stream_parts e (on_lines e (lines_of ls) start)).reasoning ≡ join [] (reasonings ls))
unfolding stream_parts join
stream_parts-chunks e ls h = on_lines-texts e ls start h
