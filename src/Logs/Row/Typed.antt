-- ===== src/Logs/Row/Typed.antt =====
-- Messages of the types that ContentBlock and MessageEntry of logParsing.ts give them, as far as
-- the rendering relies on them.
use any_gateway.Base.{refl, Option, none, some, All, Bool-cases, inl, inr}
use any_gateway.Base.Found.{map_found, IsFound, map_all-IsFound}
use any_gateway.Base.Text.{Text, lit, text_eq, join}
use any_gateway.Json.{Json, null, bool, num, str, arr, obj, Engine, member, elems}
use any_gateway.Logs.{calls_of, call_of, format_calls, format_openai_tool_calls}
use any_gateway.Logs.Row.{inner_text, result_text, block_by}

abbrev pub IsThere : Json → Type 0
IsThere null = ⊥
IsThere v = Unit

-- The elements, if it is an array.
abbrev pub AreThere : Option Json → Type 0
AreThere (some (arr vs)) = All IsThere (elems vs)
AreThere v = Unit

abbrev pub IsBlock : Json → Type 0
IsBlock b = IsThere b × AreThere (member (lit "content") b)

abbrev pub AreBlocks : Option Json → Type 0
AreBlocks (some (arr vs)) = All IsBlock (elems vs)
AreBlocks v = Unit

-- A message has blocks for its content, if it has an array, and calls for its calls.
abbrev pub IsEntry : Json → Type 0
IsEntry m =
    IsThere m × AreBlocks (member (lit "content") m) × AreThere (member (lit "tool_calls") m)

map_found-IsFound : {A B : Type 0} (f : A → B) (o : Option A) → IsFound o → IsFound (map_found f o)
map_found-IsFound f o (a, e) = (f a, rw e refl)

call_of-IsFound : (v : Json) → IsThere v → IsFound (call_of v)
call_of-IsFound null h = absurd h
call_of-IsFound (bool b) h = (_, refl)
call_of-IsFound (num n) h = (_, refl)
call_of-IsFound (str t) h = (_, refl)
call_of-IsFound (arr vs) h = (_, refl)
call_of-IsFound (obj fs) h = (_, refl)

module _ (e : Engine) where
  inner_text-IsFound : (v : Json) → IsThere v → IsFound (inner_text e v)
  inner_text-IsFound null h = absurd h
  inner_text-IsFound (bool b) h = (_, refl)
  inner_text-IsFound (num n) h = (_, refl)
  inner_text-IsFound (str t) h = (_, refl)
  inner_text-IsFound (arr vs) h = (_, refl)
  inner_text-IsFound (obj fs) h = (_, refl)

  pub calls-IsFound : (v : Option Json) → AreThere v → IsFound (format_openai_tool_calls e v)
  unfolding format_openai_tool_calls calls_of
  calls-IsFound none h = (_, refl)
  calls-IsFound (some null) h = (_, refl)
  calls-IsFound (some (bool b)) h = (_, refl)
  calls-IsFound (some (num n)) h = (_, refl)
  calls-IsFound (some (str t)) h = (_, refl)
  calls-IsFound (some (obj fs)) h = (_, refl)
  calls-IsFound (some (arr vs)) h =
      let (cs, k, n) = map_all-IsFound call_of IsThere call_of-IsFound (elems vs) h in
      (format_calls e cs, rw (format_openai_tool_calls, calls_of, k) refl)

  result_text-IsFound : (v : Option Json) → AreThere v → IsFound (result_text e v)
  result_text-IsFound none h = (_, refl)
  result_text-IsFound (some null) h = (_, refl)
  result_text-IsFound (some (bool b)) h = (_, refl)
  result_text-IsFound (some (num n)) h = (_, refl)
  result_text-IsFound (some (str t)) h = (_, refl)
  result_text-IsFound (some (obj fs)) h = (_, refl)
  result_text-IsFound (some (arr vs)) h =
      let (ts, k, n) = map_all-IsFound (inner_text e) IsThere inner_text-IsFound (elems vs) h in
      (join (lit "\n") ts, rw k refl)

  pub block_by-IsFound :
      (t : Option Text) (b : Json) → AreThere (member (lit "content") b) → IsFound (block_by e t b)
  block_by-IsFound none b h = (_, refl)
  block_by-IsFound (some t) b h = elim (Bool-cases (text_eq t (lit "thinking"))) [
    | inl x ↦ rw x (_, refl)
    | inr x ↦ elim (Bool-cases (text_eq t (lit "tool_use"))) [
      | inl y ↦ rw (x, y) (_, refl)
      | inr y ↦ elim (Bool-cases (text_eq t (lit "tool_result"))) [
        | inl z ↦
            rw (x, y, z) (map_found-IsFound _ _ (result_text-IsFound (member (lit "content") b) h))
        | inr z ↦ rw (x, y, z) (_, refl)
      ]
    ]
  ]
