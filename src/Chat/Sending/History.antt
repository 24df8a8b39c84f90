-- ===== src/Chat/Sending/History.antt =====
-- What a call leaves in the history.
use mathlib.Core.List.{append-nil}
use any_gateway.Base.{
  ◌≡◌, refl, ap, Bool, true, false, Option, none, some, List, [], ◌∷◌, ◌++◌, length, drop, ◌⊎◌, ◌∙◌,
  if◌then◌else◌, inl, inr, Bool-cases,
}
use any_gateway.Base.Text.{Text, lit, starts_with, text_eq, is_empty, trim}
use any_gateway.Json.{Json, Engine, truthy, member, member?}
use any_gateway.Chat.{
  is_anthropic, Chat, ChatMessage, said, answered, update_last_assistant, put_error,
  remove_empty_last_assistant, fill_empty, drop_empty,
}
use any_gateway.Chat.Sse.{read_sse}
use any_gateway.Chat.Answer.{
  Talk, append, appended, is_text_delta, error_bubble, by_error, on_error, on_event, on_parsed,
  on_each, openai_line, anthropic_line, openai_delta, anthropic_delta,
}
use any_gateway.Chat.Sending.{
  Answer, unreachable, refused, streaming, receive, handle_send, refusal_text, messages_of, on_line,
}

pub update_last-append :
    (t : Text) (ms : List ChatMessage) (m : ChatMessage)
    → update_last_assistant t (ms ++ m ∷ []) ≡ ms ++ answered t ∷ []
unfolding update_last_assistant
update_last-append t [] m = refl
update_last-append t (k ∷ []) m = refl
update_last-append t (k ∷ l ∷ ms) m =
    ap (λ (r : List ChatMessage). k ∷ r) (update_last-append t (l ∷ ms) m)

put_error-append :
    (t : Text) (ms : List ChatMessage) (m : ChatMessage)
    → put_error t (ms ++ m ∷ []) ≡ ms ++ fill_empty t m ∷ []
unfolding put_error
put_error-append t [] m = refl
put_error-append t (k ∷ []) m = refl
put_error-append t (k ∷ l ∷ ms) m =
    ap (λ (r : List ChatMessage). k ∷ r) (put_error-append t (l ∷ ms) m)

remove_empty-append :
    (ms : List ChatMessage) (m : ChatMessage)
    → remove_empty_last_assistant (ms ++ m ∷ []) ≡ ms ++ drop_empty m
unfolding remove_empty_last_assistant
remove_empty-append [] m = refl
remove_empty-append (k ∷ []) m = refl
remove_empty-append (k ∷ l ∷ ms) m =
    ap (λ (r : List ChatMessage). k ∷ r) (remove_empty-append (l ∷ ms) m)

-- The history is `ms` and one message of the assistant more.
abbrev pub EndsWith : List ChatMessage → List ChatMessage → Type 0
EndsWith ms history = (t : Text) × (history ≡ ms ++ answered t ∷ [])

-- The answer was a stream that came to its end.
abbrev pub IsComplete : Answer → Type 0
IsComplete (streaming body) = body.complete ≡ true
IsComplete _ = ⊥

-- The history is `ms`, or `ms` and a message of the assistant, which is not empty unless the whole
-- answer has come.
abbrev pub Continues : Answer → List ChatMessage → List ChatMessage → Type 0
Continues answer ms history =
    (history ≡ ms)
    ⊎ ((t : Text) × (history ≡ ms ++ answered t ∷ []) × ((is_empty t ≡ false) ⊎ IsComplete answer))

fill_empty-answered :
    (t c : Text) → fill_empty t (answered c) ≡ answered (if is_empty c then t else c)
fill_empty-answered t [] = refl
fill_empty-answered t (c ∷ cs) = refl

append-EndsWith :
    (ms : List ChatMessage) (text : Text) (t : Talk)
    → EndsWith ms t.history
    → EndsWith ms (append text t).history
append-EndsWith ms text t (c, h) =
    (t.content ++ text, rw h (update_last-append (t.content ++ text) ms (answered c)))

on_error-EndsWith :
    (e : Engine) (ms : List ChatMessage) (err : Json) (t : Talk)
    → EndsWith ms t.history
    → EndsWith ms (on_error e err t).history
unfolding on_error
on_error-EndsWith e ms err t (c, h) = (
  if is_empty c then error_bubble e err else c,
  rw h (put_error-append (error_bubble e err) ms (answered c))
      ∙ ap (λ (m : ChatMessage). ms ++ m ∷ []) (fill_empty-answered (error_bubble e err) c),
)

-- A handler of events that keeps the shape of the history.
abbrev KeepsEnd : (Json → Talk → Talk) → List ChatMessage → Type 0
KeepsEnd delta ms = (o : Json) (t : Talk) → EndsWith ms t.history → EndsWith ms (delta o t).history

by_error-EndsWith :
    (e : Engine) (ms : List ChatMessage) (delta : Json → Talk → Talk)
    → KeepsEnd delta ms
    → (err : Option Json) (o : Json) (t : Talk) → EndsWith ms t.history
    → EndsWith ms (by_error e delta err o t).history
by_error-EndsWith e ms delta k none o t h = k o t h
by_error-EndsWith e ms delta k (some err) o t h = elim (Bool-cases (truthy err)) [
  | inl p ↦ rw p (on_error-EndsWith e ms err t h)
  | inr p ↦ rw p (k o t h)
]

on_event-EndsWith :
    (e : Engine) (ms : List ChatMessage) (delta : Json → Talk → Talk)
    → KeepsEnd delta ms
    → (o : Json) (t : Talk) → EndsWith ms t.history
    → EndsWith ms (on_event e delta o t).history
unfolding on_event
on_event-EndsWith e ms delta k Json.null t h = h
on_event-EndsWith e ms delta k (Json.bool b) t h =
    by_error-EndsWith e ms delta k _ (Json.bool b) t h
on_event-EndsWith e ms delta k (Json.num n) t h = by_error-EndsWith e ms delta k _ (Json.num n) t h
on_event-EndsWith e ms delta k (Json.str s) t h = by_error-EndsWith e ms delta k _ (Json.str s) t h
on_event-EndsWith e ms delta k (Json.arr vs) t h =
    by_error-EndsWith e ms delta k _ (Json.arr vs) t h
on_event-EndsWith e ms delta k (Json.obj fs) t h =
    by_error-EndsWith e ms delta k _ (Json.obj fs) t h

on_parsed-EndsWith :
    (e : Engine) (ms : List ChatMessage) (delta : Json → Talk → Talk)
    → KeepsEnd delta ms
    → (o : Option Json) (t : Talk) → EndsWith ms t.history
    → EndsWith ms (on_parsed e delta o t).history
on_parsed-EndsWith e ms delta k none t h = h
on_parsed-EndsWith e ms delta k (some o) t h = on_event-EndsWith e ms delta k o t h

anthropic_delta-KeepsEnd : (e : Engine) (ms : List ChatMessage) → KeepsEnd (anthropic_delta e) ms
unfolding anthropic_delta
anthropic_delta-KeepsEnd e ms o t h = elim (Bool-cases (is_text_delta o)) [
  | inl p ↦
      rw p (append-EndsWith ms (appended e (member? (lit "text") (member (lit "delta") o))) t h)
  | inr p ↦ rw p h
]

openai_line-EndsWith :
    (e : Engine) (ms : List ChatMessage) (l : Text) (t : Talk)
    → EndsWith ms t.history
    → EndsWith ms (openai_line e l t).history
unfolding openai_line openai_delta
openai_line-EndsWith e ms l t h = elim (Bool-cases (starts_with (lit "data: ") l)) [
  | inr p ↦ rw p h
  | inl p ↦ elim (Bool-cases (text_eq (drop 6 l) (lit "[DONE]"))) [
    | inl q ↦ rw (p, q) h
    | inr q ↦
        rw (p, q)
          (on_parsed-EndsWith e ms (openai_delta e) (λ o t' h'. append-EndsWith ms _ t' h')
            (e.parse (drop 6 l)) t h)
  ]
]

anthropic_line-EndsWith :
    (e : Engine) (ms : List ChatMessage) (l : Text) (t : Talk)
    → EndsWith ms t.history
    → EndsWith ms (anthropic_line e l t).history
unfolding anthropic_line
anthropic_line-EndsWith e ms l t h = elim (Bool-cases (starts_with (lit "data: ") l)) [
  | inr p ↦ rw p h
  | inl p ↦ rw p (
      on_parsed-EndsWith e ms (anthropic_delta e) (anthropic_delta-KeepsEnd e ms)
        (e.parse (drop 6 l)) t h)
]

on_line-EndsWith :
    (e : Engine) (s : Chat) (ms : List ChatMessage) (l : Text) (t : Talk)
    → EndsWith ms t.history
    → EndsWith ms (on_line e s l t).history
on_line-EndsWith e s ms l t h = elim (Bool-cases (is_anthropic s)) [
  | inl p ↦ rw p (anthropic_line-EndsWith e ms l t h)
  | inr p ↦ rw p (openai_line-EndsWith e ms l t h)
]

on_each-EndsWith :
    (e : Engine) (s : Chat) (ms : List ChatMessage) (ls : List Text) (t : Talk)
    → EndsWith ms t.history
    → EndsWith ms (on_each (on_line e s) ls t).history
unfolding on_each
on_each-EndsWith e s ms [] t h = h
on_each-EndsWith e s ms (l ∷ ls) t h =
    on_each-EndsWith e s ms ls (on_line e s l t) (on_line-EndsWith e s ms l t h)

remove_empty-Continues :
    (answer : Answer) (ms h : List ChatMessage)
    → EndsWith ms h
    → Continues answer ms (remove_empty_last_assistant h)
remove_empty-Continues answer ms h ([], e) =
    inl (rw e (remove_empty-append ms (answered [])) ∙ append-nil ms)
remove_empty-Continues answer ms h (c ∷ t, e) =
    inr (c ∷ t, rw e (remove_empty-append ms (answered (c ∷ t))), inl refl)

receive-Continues :
    (e : Engine) (s : Chat) (answer : Answer) (ms : List ChatMessage)
    → Continues answer ms (receive e s answer (ms ++ answered [] ∷ [])).0
unfolding receive
receive-Continues e s unreachable ms = remove_empty-Continues unreachable ms _ ([], refl)
receive-Continues e s (refused status body) ms = inr (
  lit "❌ 请求失败：" ++ refusal_text e status body,
  put_error-append _ ms (answered []),
  inl (unfold lit in refl),
)
receive-Continues e s (streaming body) ms =
    let talk = λ (c : Bool).
      on_each-EndsWith e s ms (read_sse c body.chunks [])
        (record { history = ms ++ answered [] ∷ []; content = []; notices = [] }) ([], refl) in
    elim (Bool-cases body.complete) [
      | inl p ↦ let (t, h) = talk true in rw p (inr (t, h, inr refl))
      | inr p ↦ rw p (
          remove_empty-Continues (streaming (record { chunks = body.chunks; complete = false })) ms
            _ (talk false))
    ]

-- Nothing can be sent: the input is blank, or there is no key or no model.
abbrev pub IsUnready : Chat → Type 0
IsUnready s =
    (is_empty (trim s.input) ≡ true)
    ⊎ (is_empty s.selected_key ≡ true)
    ⊎ (is_empty s.selected_model ≡ true)

abbrev pub IsReady : Chat → Type 0
IsReady s =
    (is_empty (trim s.input) ≡ false)
    × (is_empty s.selected_key ≡ false)
    × (is_empty s.selected_model ≡ false)

-- Of one call, while no other is under way, whatever the server answers: either the input is blank
-- or no key or no model is chosen, and nothing changes and no request is made. Or all three are
-- there, and one request is made, nothing is being sent any more and the input is cleared; the
-- history is the old one and the user's trimmed input, alone or with one message of the assistant,
-- which is empty only where a whole answer came. So where the request fails or the connection
-- breaks, no empty message stays.
pub handle_send-Continues :
    (e : Engine) (answer : Answer) (s : Chat)
    → (IsUnready s × ((handle_send e answer s).chat ≡ s) × ((handle_send e answer s).requests ≡ []))
      ⊎ IsReady s
        × ((handle_send e answer s).chat.sending ≡ false)
        × ((handle_send e answer s).chat.input ≡ [])
        × (length (handle_send e answer s).requests ≡ 1)
        × Continues answer
            (s.history ++ said (trim s.input) ∷ [])
            (handle_send e answer s).chat.history
unfolding handle_send
handle_send-Continues e answer s = elim (Bool-cases (is_empty (trim s.input))) [
  | inl a ↦ rw a (inl (inl refl, refl, refl))
  | inr a ↦ elim (Bool-cases (is_empty s.selected_key)) [
    | inl b ↦ rw (a, b) (inl (inr (inl refl), refl, refl))
    | inr b ↦ elim (Bool-cases (is_empty s.selected_model)) [
      | inl c ↦ rw (a, b, c) (inl (inr (inr refl), refl, refl))
      | inr c ↦
          rw (a, b, c)
            (inr
              ((refl, refl, refl), refl, refl, refl, receive-Continues e s answer (messages_of s)))
    ]
  ]
]
