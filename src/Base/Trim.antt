-- ===== src/Base/Trim.antt =====
-- What `trim` leaves alone, and how a text of joined lines is split again.
use any_gateway.Base.Lists.{All}
use Prim.Native.Nat.{ℕ}
use mathlib.Core.Path.{◌≡◌, refl, ap, ◌∙◌}
use mathlib.Core.Logic.{◌≢◌}
use mathlib.Core.Bool.{false}
use mathlib.Core.List.{List, [], ◌∷◌, ◌++◌, append_assoc}
use native.Mathlib.Omega.{arith}
use any_gateway.Base.Text.{Text, is_space, cons_kept, trim_start, trim_end, trim, join, split_lines}

pub trim_end-concat : (s : Text) (d : ℕ) → is_space d ≡ false → trim_end (s ++ d ∷ []) ≡ s ++ d ∷ []
unfolding trim_end
trim_end-concat [] d h = rw h
trim_end-concat (c ∷ []) d h = rw h
trim_end-concat (c ∷ b ∷ s) d h = rw (trim_end-concat (b ∷ s) d h)

trim_lem : (s : Text) → trim s ≡ trim_end (trim_start s)
unfolding trim
trim_lem s = refl

trim_start-cons : (c : ℕ) (s : Text) → is_space c ≡ false → trim_start (c ∷ s) ≡ c ∷ s
unfolding trim_start
trim_start-cons c s h = rw h

-- A text that begins and ends with other characters than white space is not changed.
pub trim-concat :
    (c : ℕ) (s : Text) (d : ℕ)
    → is_space c ≡ false
    → is_space d ≡ false
    → trim (c ∷ s ++ d ∷ []) ≡ c ∷ s ++ d ∷ []
trim-concat c s d h k =
    trim_lem _ ∙ ap trim_end (trim_start-cons c _ h) ∙ trim_end-concat (c ∷ s) d k

pub trim_end_of_All : (s : Text) → All (λ c. is_space c ≡ false) s → trim_end s ≡ s
unfolding trim_end
trim_end_of_All [] h = refl
trim_end_of_All (c ∷ []) (h, k) = rw h
trim_end_of_All (c ∷ d ∷ s) (h, k) = rw (trim_end_of_All (d ∷ s) k)

pub trim_of_All : (s : Text) → All (λ c. is_space c ≡ false) s → trim s ≡ s
trim_of_All [] h = unfold trim in refl
trim_of_All (c ∷ s) (h, k) =
    trim_lem _ ∙ ap trim_end (trim_start-cons c s h) ∙ trim_end_of_All (c ∷ s) (h, k)

cons_kept-trim_end : (c : ℕ) (t : Text) → trim_end t ≡ t → trim_end (cons_kept c t) ≡ cons_kept c t
unfolding trim_end
cons_kept-trim_end c [] h = ground arith
cons_kept-trim_end c (d ∷ t) h = rw h

trim_start-cons_kept :
    (c : ℕ) (t : Text) → is_space c ≡ false → trim_start (cons_kept c t) ≡ cons_kept c t
unfolding trim_start
trim_start-cons_kept c [] h = rw (h, trim_start) (rw h)
trim_start-cons_kept c (d ∷ t) h = rw h

trim_end_idem : (s : Text) → trim_end (trim_end s) ≡ trim_end s
unfolding trim_end
trim_end_idem [] = refl
trim_end_idem (c ∷ s) = cons_kept-trim_end c (trim_end s) (trim_end_idem s)

trim_start-eq-cons : (s : Text) (c : ℕ) (t : Text) → trim_start s ≡ c ∷ t → is_space c ≡ false
unfolding trim_start
trim_start-eq-cons [] c t h = cc
trim_start-eq-cons (d ∷ s) c t h = ground (arith, trim_start-eq-cons s c t)

trim_start-trim_end-cons :
    (c : ℕ) (t : Text) → is_space c ≡ false → trim_start (trim_end (c ∷ t)) ≡ trim_end (c ∷ t)
unfolding trim_start trim_end
trim_start-trim_end-cons c t h = trim_start-cons_kept c (trim_end t) h

trim_start_fixed : (s t : Text) → trim_start s ≡ t → trim_start (trim_end t) ≡ trim_end t
trim_start_fixed s [] h = unfold trim_start trim_end in refl
trim_start_fixed s (c ∷ t) h = trim_start-trim_end-cons c t (trim_start-eq-cons s c t h)

pub trim_idem : (s : Text) → trim (trim s) ≡ trim s
trim_idem s = rw (trim_lem s) (
    trim_lem (trim_end (trim_start s))
    ∙ ap trim_end (trim_start_fixed s (trim_start s) refl)
    ∙ trim_end_idem (trim_start s))

-- A line that `split(/\r?\n/)` leaves whole: it holds no newline and ends with no carriage return.
abbrev pub IsLine : Text → Type 0
IsLine [] = Unit
IsLine (c ∷ []) = (c ≢ 10) × (c ≢ 13)
IsLine (c ∷ d ∷ s) = (c ≢ 10) × IsLine (d ∷ s)

split_lines_of_IsLine : (l : Text) → IsLine l → split_lines l ≡ l ∷ []
unfolding split_lines
split_lines_of_IsLine [] h = refl
split_lines_of_IsLine (c ∷ []) h = ground arith
split_lines_of_IsLine (c ∷ d ∷ []) (p, h) = ground arith
split_lines_of_IsLine (c ∷ d ∷ e ∷ s) (p, h) = ground (arith, split_lines_of_IsLine (d ∷ e ∷ s) h)

split_lines-newline : (l t : Text) → IsLine l → split_lines (l ++ 10 ∷ t) ≡ l ∷ split_lines t
unfolding split_lines
split_lines-newline [] t h = refl
split_lines-newline (c ∷ []) t h = ground arith
split_lines-newline (c ∷ d ∷ s) t (p, h) = ground (arith, split_lines-newline (d ∷ s) t h)

-- Lines that are joined by newlines are found again.
pub split_lines-join :
    (l : Text) (ls : List Text)
    → All IsLine (l ∷ ls)
    → split_lines (join (10 ∷ []) (l ∷ ls)) ≡ l ∷ ls
unfolding join
split_lines-join l [] (h, _) = split_lines_of_IsLine l h
split_lines-join l (m ∷ ls) (h, hs) =
    split_lines-newline l (join (10 ∷ []) (m ∷ ls)) h
    ∙ ap (λ (t : List Text). l ∷ t) (split_lines-join m ls hs)

pub join-append :
    (x : Text) (xs : List Text) (y : Text) (ys : List Text) (sep : Text)
    → join sep ((x ∷ xs) ++ y ∷ ys) ≡ join sep (x ∷ xs) ++ (sep ++ join sep (y ∷ ys))
unfolding join
join-append x [] y ys sep = refl
join-append x (z ∷ xs) y ys sep = simp (join-append z xs y ys sep, append_assoc)

pub IsLine-concat :
    (s : Text) (d : ℕ) → All (λ c. c ≢ 10) s → d ≢ 10 → d ≢ 13 → IsLine (s ++ d ∷ [])
IsLine-concat [] d h p q = (p, q)
IsLine-concat (c ∷ []) d (h, _) p q = (h, (p, q))
IsLine-concat (c ∷ b ∷ s) d (h, hs) p q = (h, IsLine-concat (b ∷ s) d hs p q)
