-- ===== src/Judge/Compare.antt =====
-- The comparison of outputs, `normalize_line` and `JudgeEngine::compare_output` of
-- src/judge/judge_engine.cpp.
pub mod Lines
pub mod Laws
mod Tests
use flowstudy_judge.Common.{
  ℕ, zero, suc, Bytes, bytes, bytes_eq, is_empty, Bool, true, false, not, ◌||◌, List, [], ◌∷◌, map,
  length, take, some, none, find_last_not_of, getlines, ◌==◌, if◌then◌else◌,
}

unfoldable pub normalize_line : Bytes → Bytes
unfolding find_last_not_of
normalize_line line = elim (find_last_not_of line (bytes " \t\r")) [
  | none ↦ []
  | some last ↦ take (suc last) line
]

-- `lines` without its last elements that are empty: the `pop_back` loop of `split_lines`.
unfoldable pub pop_empty : List Bytes → List Bytes
pop_empty [] = []
pop_empty (l ∷ ls) = elim (pop_empty ls) [
  | [] ↦ if is_empty l then [] else l ∷ []
  | k ∷ ks ↦ l ∷ k ∷ ks
]

unfoldable pub split_lines : Bytes → List Bytes
unfolding normalize_line pop_empty getlines
split_lines s = pop_empty (map normalize_line (getlines s))

-- The loop over the indices of `exp_lines`; the lists are of one length.
unfoldable pub same_lines : List Bytes → List Bytes → Bool
same_lines [] act = true
same_lines (e ∷ exp) [] = false
same_lines (e ∷ exp) (a ∷ act) = if not (bytes_eq e a) then false else same_lines exp act

unfoldable pub compare_output : Bytes → Bytes → Bool
unfolding split_lines same_lines bytes_eq
compare_output expected actual =
    let exp_lines = split_lines expected in
    let act_lines = split_lines actual in
    if not (length exp_lines == length act_lines) then false else same_lines exp_lines act_lines
