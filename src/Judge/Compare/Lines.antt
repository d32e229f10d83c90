-- ===== src/Judge/Compare/Lines.antt =====
-- An independent reading of a text's lines, by their numbers, and how `split_lines` of
-- src/judge/judge_engine.cpp agrees with it.
use flowstudy_judge.Common.{
  ℕ, zero, suc, Bytes, bytes, bytes_eq_iff, is_empty, one_of, ◌≡◌, refl, sym, ap, ◌∙◌, ◌↔◌, Bool,
  true, false, not, ◌&&◌, List, [], ◌∷◌, map, length, get_or, getlines, arith, ◌==◌, if◌then◌else◌,
}
use flowstudy_judge.Judge.Compare.{
  normalize_line, pop_empty, split_lines, same_lines, compare_output,
}

abbrev pub is_blank : ℕ → Bool
is_blank c = one_of c (bytes " \t\r")

-- A line without the blanks at its end.
unfoldable pub strip : Bytes → Bytes
strip [] = []
strip (c ∷ cs) = if is_blank c && is_empty (strip cs) then [] else c ∷ strip cs

-- The text of the line with number `i`, from 0; the empty text past the last line.
unfoldable pub line_at : Bytes → ℕ → Bytes
line_at [] i = []
line_at (c ∷ cs) zero = if c == b'\n' then [] else c ∷ line_at cs zero
line_at (c ∷ cs) (suc i) = if c == b'\n' then line_at cs i else line_at cs (suc i)

normalize_line-strip : (l : Bytes) → normalize_line l ≡ strip l
unfolding normalize_line strip
normalize_line-strip [] = refl
normalize_line-strip (c ∷ []) = ground arith
normalize_line-strip (c ∷ d ∷ ds) = ground (arith, normalize_line-strip (d ∷ ds))

getlines-line_at : (s : Bytes) (i : ℕ) → get_or (getlines s) i [] ≡ line_at s i
unfolding getlines line_at
getlines-line_at [] i = refl
getlines-line_at (c ∷ cs) zero = ground (arith, getlines-line_at cs zero)
getlines-line_at (c ∷ cs) (suc i) =
    ground (arith, getlines-line_at cs i, getlines-line_at cs (suc i))

get_or-map-strip :
    (ls : List Bytes) (i : ℕ) → get_or (map normalize_line ls) i [] ≡ strip (get_or ls i [])
unfolding strip
get_or-map-strip [] i = refl
get_or-map-strip (l ∷ ls) zero = normalize_line-strip l
get_or-map-strip (l ∷ ls) (suc i) = get_or-map-strip ls i

get_or-pop_empty : (ls : List Bytes) (i : ℕ) → get_or (pop_empty ls) i [] ≡ get_or ls i []
unfolding pop_empty
get_or-pop_empty [] i = refl
get_or-pop_empty (l ∷ ls) zero = ground arith
get_or-pop_empty (l ∷ ls) (suc i) = ground (arith, get_or-pop_empty ls i)

pop_empty-ext :
    (xs ys : List Bytes) → ((i : ℕ) → get_or xs i [] ≡ get_or ys i []) → pop_empty xs ≡ pop_empty ys
unfolding pop_empty
pop_empty-ext [] [] h = refl
pop_empty-ext [] (y ∷ ys) h = ground (arith, h 0, pop_empty-ext [] ys (λ i. h (suc i)))
pop_empty-ext (x ∷ xs) [] h = ground (arith, h 0, pop_empty-ext xs [] (λ i. h (suc i)))
pop_empty-ext (x ∷ xs) (y ∷ ys) h = ground (arith, h 0, pop_empty-ext xs ys (λ i. h (suc i)))

same_lines_iff :
    (xs ys : List Bytes)
    → ((if not (length xs == length ys) then false else same_lines xs ys) ≡ true) ↔ (xs ≡ ys)
unfolding same_lines
same_lines_iff [] [] = ground arith
same_lines_iff [] (y ∷ ys) = ground arith
same_lines_iff (x ∷ xs) [] = ground arith
same_lines_iff (x ∷ xs) (y ∷ ys) = ground (arith, bytes_eq_iff x y, same_lines_iff xs ys)

line_at-split_lines : (s : Bytes) (i : ℕ) → get_or (split_lines s) i [] ≡ strip (line_at s i)
unfolding split_lines
line_at-split_lines s i =
    get_or-pop_empty (map normalize_line (getlines s)) i
    ∙ get_or-map-strip (getlines s) i
    ∙ ap strip (getlines-line_at s i)

-- The comparison accepts exactly if the two texts agree in every line, up to blanks at the line's
-- end; lines past the end of a text count as empty.
pub compare_output_iff :
    (expected actual : Bytes)
    → (compare_output expected actual ≡ true)
      ↔ ((i : ℕ) → strip (line_at expected i) ≡ strip (line_at actual i))
unfolding compare_output split_lines
compare_output_iff expected actual = (
  λ e i.
      sym (line_at-split_lines expected i)
      ∙ ap (λ ls. get_or ls i []) ((same_lines_iff _ _).0 e)
      ∙ line_at-split_lines actual i,
  λ h. (same_lines_iff _ _).1 (
      pop_empty-ext _ _ (λ i.
        get_or-map-strip (getlines expected) i
        ∙ ap strip (getlines-line_at expected i)
        ∙ h i
        ∙ sym (get_or-map-strip (getlines actual) i ∙ ap strip (getlines-line_at actual i)))),
)
