-- ===== src/Logs/Row/Shown.antt =====
-- The rows of typed messages: their roles and their texts are displayed.
use any_gateway.Base.{
  ◌≡◌, refl, ◌∙◌, Bool, true, false, ◌||◌, Option, none, some, List, [], ◌∷◌, ◌++◌, All, All-append,
  any, arith, Bool-cases, inl, inr, if◌then◌else◌,
}
use any_gateway.Base.Found.{map_found, Pairs, map_all-Pairs}
use any_gateway.Base.Text.{Text, lit, text_eq, text_eq_iff, text_eq_refl, is_empty}
use any_gateway.Json.{
  Json, null, bool, num, str, arr, obj, Engine, member, present, string_of, elems,
}
use any_gateway.Logs.Row.{
  or_empty_text, Piece, markdown, folded, tool_id, MessageRow, block_by, render_block,
  blocks_or_muted, render_content, render_message, message_pieces, where_truthy, row_of,
  message_row, calls_piece,
}
use any_gateway.Logs.Row.Typed.{
  AreThere, IsBlock, AreBlocks, IsEntry, block_by-IsFound, calls-IsFound,
}

abbrev text_in : Option Json → List Text
text_in (some (str t)) = t ∷ []
text_in v = []

abbrev block_texts_by : Option Text → Json → List Text
block_texts_by none b = []
block_texts_by (some t) b = if text_eq t (lit "text") then text_in (member (lit "text") b) else []

-- The text of a block of the type `text`.
abbrev pub block_texts : Json → List Text
block_texts b = block_texts_by (string_of (member (lit "type") b)) b

abbrev all_texts : List Json → List Text
all_texts [] = []
all_texts (b ∷ bs) = block_texts b ++ all_texts bs

-- The texts of a message's content: itself, or those of its blocks.
abbrev pub texts_of : Option Json → List Text
texts_of (some (str t)) = if is_empty t then [] else t ∷ []
texts_of (some (arr vs)) = all_texts (elems vs)
texts_of v = []

abbrev is_markdown : Text → Piece → Bool
is_markdown t (markdown (str s)) = text_eq s t
is_markdown t p = false

-- The text is displayed.
abbrev pub IsShown : List Piece → Text → Type 0
IsShown ps t = any (is_markdown t) ps ≡ true

-- The row displays the role and the texts of the message.
abbrev pub IsRowOf : Json → MessageRow → Type 0
IsRowOf m r =
    (r.role ≡ member (lit "role") m) × All (IsShown r.pieces) (texts_of (member (lit "content") m))

any-append : (p : Piece → Bool) (xs ys : List Piece) → any p (xs ++ ys) ≡ (any p xs || any p ys)
any-append p [] ys = refl
any-append p (x ∷ xs) ys = let rest = any-append p xs ys in rw rest (ground arith)

IsShown-left : (ps qs : List Piece) (t : Text) → IsShown ps t → IsShown (ps ++ qs) t
IsShown-left ps qs t h = any-append (is_markdown t) ps qs ∙ rw h refl

IsShown-right : (ps qs : List Piece) (t : Text) → IsShown qs t → IsShown (ps ++ qs) t
IsShown-right ps qs t h = any-append (is_markdown t) ps qs ∙ (let h' = h in ground arith)

All-IsShown :
    (ps qs : List Piece) (ts : List Text)
    → ((t : Text) → IsShown ps t → IsShown qs t)
    → All (IsShown ps) ts
    → All (IsShown qs) ts
All-IsShown ps qs [] k h = tt
All-IsShown ps qs (t ∷ ts) k (s, h) = (k t s, All-IsShown ps qs ts k h)

abbrev IsPieceOf : Json → Piece → Type 0
IsPieceOf b p = All (IsShown (p ∷ [])) (block_texts b)

Pairs-IsShown :
    (bs : List Json) (ps : List Piece) → Pairs IsPieceOf bs ps → All (IsShown ps) (all_texts bs)
Pairs-IsShown [] [] h = tt
Pairs-IsShown [] (p ∷ ps) h = tt
Pairs-IsShown (b ∷ bs) [] h = absurd h
Pairs-IsShown (b ∷ bs) (p ∷ ps) (r, h) =
    All-append (IsShown (p ∷ ps)) (block_texts b) (all_texts bs)
      (All-IsShown (p ∷ []) (p ∷ ps) (block_texts b) (λ t s. IsShown-left (p ∷ []) ps t s) r)
      (All-IsShown ps (p ∷ ps) (all_texts bs) (λ t s. IsShown-right (p ∷ []) ps t s)
        (Pairs-IsShown bs ps h))

-- What is found, with a proof about it.
abbrev pub Found : {A : Type 0} → Option A → (A → Type 0) → Type 0
Found {A} o P = (a : A) × (o ≡ some a) × P a

module _ (e : Engine) where
  text_block :
      (v : Option Json) → All (IsShown (markdown (or_empty_text (present v)) ∷ [])) (text_in v)
  text_block none = tt
  text_block (some null) = tt
  text_block (some (bool b)) = tt
  text_block (some (num n)) = tt
  text_block (some (str t)) = (rw (text_eq_refl t) refl, tt)
  text_block (some (arr vs)) = tt
  text_block (some (obj fs)) = tt

  block_by-text :
      (b : Json)
      → Found
          (block_by e (some (lit "text")) b)
          (λ p. All (IsShown (p ∷ [])) (block_texts_by (some (lit "text")) b))
  unfolding lit text_eq
  block_by-text b = (
    markdown (or_empty_text (present (member (lit "text") b))),
    refl,
    text_block (member (lit "text") b),
  )

  block_by-IsShown :
      (t : Option Text) (b : Json)
      → AreThere (member (lit "content") b)
      → Found (block_by e t b) (λ p. All (IsShown (p ∷ [])) (block_texts_by t b))
  block_by-IsShown none b h = (_, refl, tt)
  block_by-IsShown (some t) b h = elim (Bool-cases (text_eq t (lit "text"))) [
    | inl x ↦ rw ((text_eq_iff t (lit "text")).0 x) (block_by-text b)
    | inr x ↦ let (p, k) = block_by-IsFound e (some t) b h in (p, k, rw x tt)
  ]

  render_block-IsPieceOf : (b : Json) → IsBlock b → Found (render_block e b) (IsPieceOf b)
  unfolding render_block
  render_block-IsPieceOf null (n, h) = absurd n
  render_block-IsPieceOf (bool b) (n, h) = block_by-IsShown _ (bool b) h
  render_block-IsPieceOf (num b) (n, h) = block_by-IsShown _ (num b) h
  render_block-IsPieceOf (str b) (n, h) = block_by-IsShown _ (str b) h
  render_block-IsPieceOf (arr b) (n, h) = block_by-IsShown _ (arr b) h
  render_block-IsPieceOf (obj b) (n, h) = block_by-IsShown _ (obj b) h

  blocks-IsShown :
      (bs : List Json)
      → All IsBlock bs
      → Found (blocks_or_muted e bs) (λ ps. All (IsShown ps) (all_texts bs))
  blocks-IsShown [] h = (_, refl, tt)
  blocks-IsShown (b ∷ bs) h =
      let (ps, k, r) =
        map_all-Pairs IsPieceOf IsBlock (render_block e) render_block-IsPieceOf (b ∷ bs) h in
      (ps, k, Pairs-IsShown (b ∷ bs) ps r)

  render_content-IsShown :
      (v : Option Json)
      → AreBlocks v
      → Found (render_content e v) (λ ps. All (IsShown ps) (texts_of v))
  unfolding render_content
  render_content-IsShown none h = (_, refl, tt)
  render_content-IsShown (some null) h = (_, refl, tt)
  render_content-IsShown (some (bool b)) h = (_, refl, tt)
  render_content-IsShown (some (num n)) h = (_, refl, tt)
  render_content-IsShown (some (str [])) h = (_, refl, tt)
  render_content-IsShown (some (str (c ∷ t))) h = (_, refl, (rw (text_eq_refl (c ∷ t)) refl, tt))
  render_content-IsShown (some (obj fs)) h = (_, refl, tt)
  render_content-IsShown (some (arr vs)) h = blocks-IsShown (elems vs) h

  abbrev reasoning_of : Json → List Piece
  reasoning_of m =
      where_truthy (λ (v : Json). folded (lit "reasoning") (some v))
        (member (lit "reasoning_content") m)

  render_message-IsShown :
      (m : Json)
      → IsEntry m
      → Found (render_message e m) (λ ps. All (IsShown ps) (texts_of (member (lit "content") m)))
  unfolding render_message
  render_message-IsShown m (n, c, t) =
      let (calls, k) = calls-IsFound e (member (lit "tool_calls") m) t in
      let (pieces, l, shown) = render_content-IsShown (member (lit "content") m) c in
      (
        message_pieces m (calls, pieces),
        rw (k, l) refl,
        All-IsShown pieces (message_pieces m (calls, pieces)) (texts_of (member (lit "content") m))
            (λ u s.
              IsShown-left (reasoning_of m ++ pieces ++ calls_piece calls)
                (where_truthy tool_id (member (lit "tool_call_id") m)) u
                (IsShown-left (reasoning_of m ++ pieces) (calls_piece calls) u
                  (IsShown-right (reasoning_of m) pieces u s)))
            shown,
      )

  row_of-IsRowOf :
      (m : Json) → IsEntry m → Found (map_found (row_of m) (render_message e m)) (IsRowOf m)
  row_of-IsRowOf m h =
      let (ps, k, shown) = render_message-IsShown m h in (row_of m ps, rw k refl, (refl, shown))

  pub message_row-IsRowOf : (m : Json) → IsEntry m → Found (message_row e m) (IsRowOf m)
  unfolding message_row
  message_row-IsRowOf null (n, c, t) = absurd n
  message_row-IsRowOf (bool b) h = row_of-IsRowOf (bool b) h
  message_row-IsRowOf (num b) h = row_of-IsRowOf (num b) h
  message_row-IsRowOf (str b) h = row_of-IsRowOf (str b) h
  message_row-IsRowOf (arr b) h = row_of-IsRowOf (arr b) h
  message_row-IsRowOf (obj b) h = row_of-IsRowOf (obj b) h
