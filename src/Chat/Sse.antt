-- ===== src/Chat/Sse.antt =====
-- `readSSE` of apps/react/src/pages/Chat/index.tsx: the lines that it hands on, and that they do
-- not depend on how the body is cut into chunks.
use mathlib.Core.List.{append_assoc, append-nil}
use any_gateway.Base.{
  ◌≡◌, refl, ap, ◌∙◌, sym, Bool, true, false, not, List, [], ◌∷◌, ◌++◌, keep, if◌then◌else◌, arith,
}
use any_gateway.Base.Text.{Text, is_empty, trim, split_on}
use any_gateway.Base.Split.{
  IsUnbroken, split_on-last, before_last, last_line, IsCons, IsCons-split_on, split_on-append,
  last_line-IsUnbroken, before_last-append, last_line-append,
}

-- The body of an answer: the texts of its chunks, and whether it is read to its end or reading
-- fails behind them.
pub record Body : Type 0 where
  pub chunks : List Text
  pub complete : Bool

abbrev pub is_filled : Text → Bool
is_filled line = not (is_empty (trim line))

abbrev pub left_over : Bool → Text → List Text
left_over false buffer = []
left_over true buffer = if is_filled buffer then buffer ∷ [] else []

-- The loop: the lines that are handed to `onLine`, in order.
unfoldable pub read_sse : Bool → List Text → Text → List Text
read_sse complete [] buffer = left_over complete buffer
read_sse complete (chunk ∷ chunks) buffer =
    let lines = split_on 10 (buffer ++ chunk) in
    keep is_filled (before_last lines) ++ read_sse complete chunks (last_line lines)

abbrev pub concat : List Text → Text
concat [] = []
concat (t ∷ ts) = t ++ concat ts

keep-append :
    (ls ms : List Text) → keep is_filled (ls ++ ms) ≡ keep is_filled ls ++ keep is_filled ms
keep-append [] ms = refl
keep-append (l ∷ ls) ms = ground (arith, keep-append ls ms)

-- What is handed on of a text in one piece.
abbrev pub handed_on : Bool → Text → List Text
handed_on complete text =
    keep is_filled (before_last (split_on 10 text))
    ++ left_over complete (last_line (split_on 10 text))

handed_on-append :
    (complete : Bool) (s t : Text)
    → handed_on complete (s ++ t)
      ≡ keep is_filled (before_last (split_on 10 s))
        ++ handed_on complete (last_line (split_on 10 s) ++ t)
handed_on-append complete s t =
    let more = IsCons-split_on (last_line (split_on 10 s) ++ t) in
    rw
      (
        split_on-append s t,
        before_last-append (before_last (split_on 10 s))
            (split_on 10 (last_line (split_on 10 s) ++ t)) more,
        last_line-append (before_last (split_on 10 s))
            (split_on 10 (last_line (split_on 10 s) ++ t)) more,
        keep-append (before_last (split_on 10 s))
            (before_last (split_on 10 (last_line (split_on 10 s) ++ t))),
      )
      (append_assoc (keep is_filled (before_last (split_on 10 s)))
        (keep is_filled (before_last (split_on 10 (last_line (split_on 10 s) ++ t))))
        (left_over complete (last_line (split_on 10 (last_line (split_on 10 s) ++ t)))))

read_sse-buffer :
    (complete : Bool) (chunks : List Text) (buffer : Text)
    → IsUnbroken buffer
    → read_sse complete chunks buffer ≡ handed_on complete (buffer ++ concat chunks)
unfolding read_sse
read_sse-buffer complete [] buffer u = rw (append-nil buffer, split_on-last buffer u) refl
read_sse-buffer complete (chunk ∷ chunks) buffer u =
    let lines = split_on 10 (buffer ++ chunk) in
    ap (λ (r : List Text). keep is_filled (before_last lines) ++ r)
      (read_sse-buffer complete chunks (last_line lines) (last_line-IsUnbroken (buffer ++ chunk)))
    ∙ sym (handed_on-append complete (buffer ++ chunk) (concat chunks))
    ∙ ap (handed_on complete) (append_assoc buffer chunk (concat chunks))

-- However the body of an answer is cut into chunks, the lines that are handed on are those of the
-- whole text: every line that is closed by a line break and is not blank, in their order, and the
-- text behind the last line break if the body was read to its end and that text is not blank.
pub read_sse-handed_on :
    (complete : Bool) (chunks : List Text)
    → read_sse complete chunks [] ≡ handed_on complete (concat chunks)
read_sse-handed_on complete chunks = read_sse-buffer complete chunks [] tt

all-filled :
    (ls : List Text)
    → IsCons ls
    → keep is_filled (before_last ls) ++ left_over true (last_line ls) ≡ keep is_filled ls
all-filled [] h = elim h [ ]
all-filled (l ∷ []) h = ground arith
all-filled (l ∷ m ∷ ls) h = ground (arith, all-filled (m ∷ ls) tt)

-- Of a body that is read to its end, all lines that are not blank.
pub read_sse_complete :
    (chunks : List Text) → read_sse true chunks [] ≡ keep is_filled (split_on 10 (concat chunks))
read_sse_complete chunks =
    read_sse-handed_on true chunks
    ∙ all-filled (split_on 10 (concat chunks)) (IsCons-split_on (concat chunks))
