-- ===== src/Toml/Lines.antt =====
-- The text that the writer makes is split into the lines of the voices, with an empty line between
-- two of them.
use mathlib.Core.List.{append-nil}
use any_gateway.Base.{◌≡◌, refl, ap, sym, ◌∙◌, List, [], ◌∷◌, ◌++◌, map, All}
use any_gateway.Base.Text.{Text, join, split_lines}
use any_gateway.Base.Trim.{IsLine, split_lines-join, join-append}

abbrev pub newline : Text
newline = 10 ∷ []

-- A section: the line of its header and the lines below it.
abbrev pub Section : Type 0
Section = Text × List Text

abbrev pub section_lines : Section → List Text
section_lines (h, ls) = h ∷ ls

abbrev pub later_lines : List Section → List Text
later_lines [] = []
later_lines (s ∷ ss) = [] ∷ (section_lines s ++ later_lines ss)

abbrev pub sheet : List Section → List Text
sheet [] = [] ∷ []
sheet (s ∷ ss) = section_lines s ++ later_lines ss

join-sheet :
    (ss : List Section)
    → join (10 ∷ 10 ∷ []) (map (λ s. join newline (section_lines s)) ss) ≡ join newline (sheet ss)
unfolding join
join-sheet [] = refl
join-sheet (s ∷ []) = ap (λ (ls : List Text). join newline (s.0 ∷ ls)) (sym (append-nil s.1))
join-sheet (s ∷ t ∷ ss) =
    ap (λ (rest : Text). join newline (section_lines s) ++ 10 ∷ 10 ∷ rest) (join-sheet (t ∷ ss))
    ∙ sym (join-append s.0 s.1 [] (t.0 ∷ (t.1 ++ later_lines ss)) newline)

pub split_lines-sections :
    (ss : List Section)
    → All IsLine (sheet ss)
    → split_lines (join (10 ∷ 10 ∷ []) (map (λ s. join newline (section_lines s)) ss)) ≡ sheet ss
split_lines-sections [] h = rw (join-sheet []) (split_lines-join [] [] h)
split_lines-sections (s ∷ ss) h =
    ap split_lines (join-sheet (s ∷ ss)) ∙ split_lines-join s.0 (s.1 ++ later_lines ss) h
