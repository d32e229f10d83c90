-- ===== src/Judge/Compare/Laws.antt =====
-- Which outputs `JudgeEngine::compare_output` of src/judge/judge_engine.cpp takes for the same.
use mathlib.Core.List.{append-nil}
use flowstudy_judge.Common.{
  subst, ℕ, zero, suc, Bytes, ◌≡◌, refl, sym, ◌∙◌, true, ◌||◌, [], ◌∷◌, ◌++◌, All, arith, ◌==◌,
}
use flowstudy_judge.Judge.Compare.{compare_output}
use flowstudy_judge.Judge.Compare.Lines.{is_blank, strip, line_at, compare_output_iff}

-- The two texts agree in every line, up to blanks at its end.
abbrev Agree : Bytes → Bytes → Type 0
Agree s t = (i : ℕ) → strip (line_at s i) ≡ strip (line_at t i)

-- The comparison is an equivalence relation: every output matches itself, the order of the two
-- texts does not matter, and outputs that match one text match each other.
pub compare_output-equivalence :
    ((s : Bytes) → compare_output s s ≡ true)
    × ((s t : Bytes) → compare_output s t ≡ true → compare_output t s ≡ true)
    × ((s t u : Bytes)
        → compare_output s t ≡ true
        → compare_output t u ≡ true
        → compare_output s u ≡ true)
compare_output-equivalence = (
  λ s. (compare_output_iff s s).1 (λ i. refl),
  λ s t h. (compare_output_iff t s).1 (λ i. sym ((compare_output_iff s t).0 h i)),
  λ s t u h k.
      (compare_output_iff s u).1
        (λ i. (compare_output_iff s t).0 h i ∙ (compare_output_iff t u).0 k i),
)

Agree-cons : (c : ℕ) (s t : Bytes) → Agree s t → Agree (c ∷ s) (c ∷ t)
unfolding line_at strip
Agree-cons c s t h zero = ground (arith, h zero)
Agree-cons c s t h (suc i) = ground (arith, h i, h (suc i))

Agree-prefix : (pre s t : Bytes) → Agree s t → Agree (pre ++ s) (pre ++ t)
Agree-prefix [] s t h = h
Agree-prefix (c ∷ pre) s t h = Agree-cons c (pre ++ s) (pre ++ t) (Agree-prefix pre s t h)

-- A line ends here: at the end of the text, or at a newline.
abbrev pub EndsLine : Bytes → Type 0
EndsLine [] = Unit {0}
EndsLine (c ∷ cs) = c ≡ b'\n'

EndsLine-line_at : (rest : Bytes) → EndsLine rest → line_at rest 0 ≡ []
unfolding line_at
EndsLine-line_at [] e = refl
EndsLine-line_at (c ∷ cs) e = ground arith

Agree-blanks :
    (ws rest : Bytes) → All (λ c. is_blank c ≡ true) ws → EndsLine rest → Agree (ws ++ rest) rest
unfolding line_at strip
Agree-blanks [] rest h e i = refl
Agree-blanks (w ∷ ws) rest h e zero =
    ground (arith, h.0, Agree-blanks ws rest h.1 e zero, EndsLine-line_at rest e)
Agree-blanks (w ∷ ws) rest h e (suc i) = ground (arith, h.0, Agree-blanks ws rest h.1 e (suc i))

-- Spaces, tabs and carriage returns in front of a newline or of the end of one of the two texts do
-- not matter.
pub compare_output_blanks :
    (pre ws rest : Bytes)
    → All (λ c. is_blank c ≡ true) ws
    → EndsLine rest
    → compare_output (pre ++ (ws ++ rest)) (pre ++ rest) ≡ true
compare_output_blanks pre ws rest h e =
    (compare_output_iff _ _).1 (Agree-prefix pre (ws ++ rest) rest (Agree-blanks ws rest h e))

Agree-nil : (tl : Bytes) → All (λ c. (is_blank c || c == b'\n') ≡ true) tl → Agree tl []
unfolding line_at strip
Agree-nil [] h i = refl
Agree-nil (c ∷ tl) h zero = ground (arith, h.0, Agree-nil tl h.1 zero)
Agree-nil (c ∷ tl) h (suc i) = ground (arith, h.0, Agree-nil tl h.1 i, Agree-nil tl h.1 (suc i))

-- Lines of blanks at the end of one of the two texts do not matter.
pub compare_output_tail :
    (s tl : Bytes)
    → All (λ c. (is_blank c || c == b'\n') ≡ true) tl
    → compare_output (s ++ tl) s ≡ true
compare_output_tail s tl h =
    subst (λ t. compare_output (s ++ tl) t ≡ true) (append-nil s)
      ((compare_output_iff _ _).1 (Agree-prefix s tl [] (Agree-nil tl h)))
