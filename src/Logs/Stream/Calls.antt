-- ===== src/Logs/Stream/Calls.antt =====
-- The calls of tools in a stream: an answer's arguments come in pieces, those of several calls
-- mixed.
use mathlib.Core.List.{append_assoc, append-nil}
use any_gateway.Base.{
  ℕ, ◌≡◌, refl, ap, ◌∙◌, sym, Bool, true, ◌&&◌, ◌||◌, ◌==◌, ◌%◌, ◌^◌, Option, none, some, List, [],
  ◌∷◌, ◌++◌, map, arith, All, if◌then◌else◌, Bool-cases, inl, inr,
}
use any_gateway.Base.Text.{Text, lit, text_eq}
use any_gateway.Base.Dict.{Dict, get}
use any_gateway.Json.{Json, num, str, Engine, member, member?, to_text}
use any_gateway.Api.{object}
use any_gateway.Logs.{ToolCall, find_key, set_key, same_key}
use any_gateway.Logs.Stream.{
  Stream, done, append_call, append_calls, grown, or_fresh, shown_or_empty,
}

-- A piece of a call: the call's index, its name, if the piece has it, and a part of the arguments.
pub record Piece : Type 0 where
  pub index : ℕ
  pub name : Option Text
  pub part : Text

abbrev name_field : Option Text → Dict Json
name_field none = []
name_field (some n) = (lit "name", str n) ∷ []

abbrev pub to_delta : Piece → Json
to_delta p = object (
    (lit "index", num p.index)
    ∷ (lit "function", object ((lit "arguments", str p.part) ∷ name_field p.name))
    ∷ [])

-- The same number: the two zeros are one.
abbrev pub same_num : ℕ → ℕ → Bool
same_num m n = m == n || (m % 2 ^ 63 == 0 && n % 2 ^ 63 == 0)

-- The parts of the call at an index, in their order.
abbrev pub parts_at : ℕ → List Piece → Text
parts_at n [] = []
parts_at n (p ∷ ps) = (if same_num p.index n then p.part else []) ++ parts_at n ps

abbrev arguments_of : Engine → Option ToolCall → Text
arguments_of e none = []
arguments_of e (some c) = shown_or_empty e c.arguments

-- The arguments that are kept for an index.
abbrev pub arguments_at : Engine → ℕ → List (Json × ToolCall) → Text
arguments_at e n calls = arguments_of e (find_key (num n) calls)

abbrev IsNumber : Json → Type 0
IsNumber v = (n : ℕ) × (v ≡ num n)

abbrev pub AreNumbers : List (Json × ToolCall) → Type 0
AreNumbers calls = All (λ p. IsNumber p.0) calls

find_key-set_key :
    (m n : ℕ) (c : ToolCall) (calls : List (Json × ToolCall))
    → AreNumbers calls
    → find_key (num n) (set_key (num m) c calls)
      ≡ (if same_num m n then some c else find_key (num n) calls)
unfolding find_key set_key same_key
find_key-set_key m n c [] h = refl
find_key-set_key m n c ((k, d) ∷ calls) ((j, e), h) =
    rw e (ground (arith, find_key-set_key m n c calls h))

find_key-same :
    (m n : ℕ) (calls : List (Json × ToolCall))
    → AreNumbers calls
    → same_num m n ≡ true
    → find_key (num n) calls ≡ find_key (num m) calls
unfolding find_key same_key
find_key-same m n [] h s = refl
find_key-same m n ((k, d) ∷ calls) ((j, e), h) s =
    rw e (ground (arith, find_key-same m n calls h s))

AreNumbers-set_key :
    (m : ℕ) (c : ToolCall) (calls : List (Json × ToolCall))
    → AreNumbers calls
    → AreNumbers (set_key (num m) c calls)
unfolding set_key same_key
AreNumbers-set_key m c [] h = ((m, refl), tt)
AreNumbers-set_key m c ((k, d) ∷ calls) ((j, e), h) = elim (Bool-cases (same_key k (num m))) [
  | inl s ↦ rw s ((j, e), h)
  | inr s ↦ rw s ((j, e), AreNumbers-set_key m c calls h)
]

grown-arguments :
    (e : Engine) (p : Piece) (o : Option ToolCall)
    → arguments_of e (some (grown e (to_delta p) (or_fresh o))) ≡ arguments_of e o ++ p.part
unfolding member get lit text_eq to_text member?
grown-arguments e p none = refl
grown-arguments e p (some c) = refl

append_call-to_delta :
    (e : Engine) (p : Piece) (calls : List (Json × ToolCall))
    → append_call e (to_delta p) calls
      ≡ set_key (num p.index) (grown e (to_delta p) (or_fresh (find_key (num p.index) calls))) calls
unfolding append_call member get lit text_eq
append_call-to_delta e p calls = refl

arguments_at-append_call :
    (e : Engine) (p : Piece) (n : ℕ) (calls : List (Json × ToolCall))
    → AreNumbers calls
    → arguments_at e n (append_call e (to_delta p) calls)
      ≡ arguments_at e n calls ++ (if same_num p.index n then p.part else [])
arguments_at-append_call e p n calls h = elim (Bool-cases (same_num p.index n)) [
  | inl s ↦
      rw
        (
          append_call-to_delta e p calls,
          find_key-set_key p.index n
              (grown e (to_delta p) (or_fresh (find_key (num p.index) calls))) calls h,
          s,
          find_key-same p.index n calls h s,
        )
        (grown-arguments e p (find_key (num p.index) calls))
  | inr s ↦
      rw
        (
          append_call-to_delta e p calls,
          find_key-set_key p.index n
              (grown e (to_delta p) (or_fresh (find_key (num p.index) calls))) calls h,
          s,
        )
        (sym (append-nil (arguments_at e n calls)))
]

AreNumbers-append_call :
    (e : Engine) (p : Piece) (calls : List (Json × ToolCall))
    → AreNumbers calls
    → AreNumbers (append_call e (to_delta p) calls)
AreNumbers-append_call e p calls h =
    rw (append_call-to_delta e p calls) (AreNumbers-set_key p.index _ calls h)

abbrev with_calls : List (Json × ToolCall) → Stream → Stream
with_calls calls s = record s { calls = calls }

-- The calls behind the pieces.
abbrev pub assembled : Engine → List Piece → List (Json × ToolCall) → List (Json × ToolCall)
assembled e [] calls = calls
assembled e (p ∷ ps) calls = assembled e ps (append_call e (to_delta p) calls)

arguments_at-assembled :
    (e : Engine) (ps : List Piece) (n : ℕ) (calls : List (Json × ToolCall))
    → AreNumbers calls
    → arguments_at e n (assembled e ps calls) ≡ arguments_at e n calls ++ parts_at n ps
arguments_at-assembled e [] n calls h = sym (append-nil (arguments_at e n calls))
arguments_at-assembled e (p ∷ ps) n calls h =
    arguments_at-assembled e ps n _ (AreNumbers-append_call e p calls h)
    ∙ ap (λ (t : Text). t ++ parts_at n ps) (arguments_at-append_call e p n calls h)
    ∙ append_assoc (arguments_at e n calls) (if same_num p.index n then p.part else [])
        (parts_at n ps)

append_calls-assembled :
    (e : Engine) (ps : List Piece) (s : Stream)
    → append_calls e (map to_delta ps) s ≡ done (record s { calls = assembled e ps s.calls })
unfolding append_calls
append_calls-assembled e [] s = refl
append_calls-assembled e (p ∷ ps) s = append_calls-assembled e ps _

-- The pieces of several calls, mixed in any way, are read to their end; behind them the arguments
-- kept for an index are those kept before and the parts of that index, in the order of the pieces,
-- where every call that is there already has a number for its key.
pub append_calls-arguments :
    (e : Engine) (ps : List Piece) (s : Stream) (n : ℕ)
    → AreNumbers s.calls
    → (append_calls e (map to_delta ps) s ≡ done (record s { calls = assembled e ps s.calls }))
      × (arguments_at e n (assembled e ps s.calls) ≡ arguments_at e n s.calls ++ parts_at n ps)
append_calls-arguments e ps s n h =
    (append_calls-assembled e ps s, arguments_at-assembled e ps n s.calls h)
