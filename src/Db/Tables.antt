-- ===== src/Db/Tables.antt =====
-- The tables that src/db/mysql_client.cpp writes, and what its updates are to make of them. The
-- columns are those that it names, without `updated_at`.
use flowstudy_judge.Common.{
  ℕ, suc, Bytes, bytes, bytes_eq, is_empty, Bool, not, ◌&&◌, ◌==◌, ℤ, List, ◌∷◌, ◌++◌, map, keep,
  Option, none, [], some, if◌then◌else◌,
}
use flowstudy_judge.Db.{JudgeResult, JudgeCaseResult}

-- A row of `fs_submission`.
pub record SubmissionRow : Type 0 where
  pub status : Bytes
  pub score : ℕ
  pub time_used_ms : ℤ
  pub memory_used_kb : ℤ
  pub compile_message : Option Bytes
  pub runtime_message : Option Bytes

-- A row of `fs_code_run`.
pub record RunRow : Type 0 where
  pub status : Bytes
  pub time_used_ms : ℤ
  pub memory_used_kb : ℤ
  pub compile_message : Option Bytes
  pub runtime_message : Option Bytes

-- A row of `fs_judge_case_result` or `fs_code_run_case_result`, behind its first column.
pub record CaseRow : Type 0 where
  pub testcase_id : Option ℕ
  pub case_index : ℤ
  pub status : Bytes
  pub time_used_ms : ℤ
  pub memory_used_kb : ℤ
  pub input_text : Option Bytes
  pub actual_output : Option Bytes
  pub expected_output : Option Bytes
  pub error_message : Option Bytes

-- The tables with an id as their key are functions; the others keep the order of insertion, with the
-- id of the submission or of the run.
pub record Tables : Type 0 where
  pub submissions : ℕ → Option SubmissionRow
  pub runs : ℕ → Option RunRow
  pub submission_cases : List (ℕ × CaseRow)
  pub run_cases : List (ℕ × CaseRow)
  -- `accepted_count` of `fs_problem`
  pub accepted : ℕ → Option ℕ

-- NULL for an empty text, and for the id 0.
abbrev nullable : Bytes → Option Bytes
nullable s = if is_empty s then none else some s

abbrev nullable_id : ℕ → Option ℕ
nullable_id n = if n == 0 then none else some n

abbrev pub submission_row : JudgeResult → SubmissionRow
submission_row r = record {
  status = r.status;
  score = if bytes_eq r.status (bytes "ACCEPTED") then 100 else 0;
  time_used_ms = r.time_used_ms;
  memory_used_kb = r.memory_used_kb;
  compile_message = nullable r.compiler_output;
  runtime_message = nullable r.error_message;
}

abbrev pub run_row : JudgeResult → RunRow
run_row r = record {
  status = r.status;
  time_used_ms = r.time_used_ms;
  memory_used_kb = r.memory_used_kb;
  compile_message = nullable r.compiler_output;
  runtime_message = nullable r.error_message;
}

abbrev pub case_row : JudgeCaseResult → CaseRow
case_row item = record {
  testcase_id = nullable_id item.testcase_id;
  case_index = item.case_index;
  status = item.status;
  time_used_ms = item.time_used_ms;
  memory_used_kb = item.memory_used_kb;
  input_text = nullable item.input_text;
  actual_output = nullable item.actual_output;
  expected_output = nullable item.expected_output;
  error_message = nullable item.error_message;
}

-- `UPDATE … WHERE id = …`: a row that there is changes.
abbrev pub update_row : {Row : Type 0} → ℕ → (Row → Row) → (ℕ → Option Row) → ℕ → Option Row
update_row id f rows n = elim (rows n) [
  | none ↦ none
  | some row ↦ some (if n == id then f row else row)
]

-- The rows of the other ids.
abbrev pub others : ℕ → List (ℕ × CaseRow) → List (ℕ × CaseRow)
others id rows = keep (λ row. not (row.0 == id)) rows

-- What each statement does.
abbrev pub set_submission : JudgeResult → Tables → Tables
set_submission r t = record t {
  submissions = update_row r.submission_id (λ _. submission_row r) t.submissions;
}

abbrev pub set_run : JudgeResult → Tables → Tables
set_run r t = record t { runs = update_row r.run_id (λ _. run_row r) t.runs }

abbrev pub clear_submission_cases : ℕ → Tables → Tables
clear_submission_cases id t = record t { submission_cases = others id t.submission_cases }

abbrev pub clear_run_cases : ℕ → Tables → Tables
clear_run_cases id t = record t { run_cases = others id t.run_cases }

abbrev pub add_submission_case : ℕ → JudgeCaseResult → Tables → Tables
add_submission_case id item t = record t {
  submission_cases = t.submission_cases ++ (id, case_row item) ∷ [];
}

abbrev pub add_run_case : ℕ → JudgeCaseResult → Tables → Tables
add_run_case id item t = record t { run_cases = t.run_cases ++ (id, case_row item) ∷ [] }

abbrev pub count_accepted : ℕ → Tables → Tables
count_accepted id t = record t { accepted = update_row id suc t.accepted }

-- The case results of this id.
abbrev pub case_rows : ℕ → JudgeResult → List (ℕ × CaseRow)
case_rows id r = map (λ item. (id, case_row item)) r.case_results

abbrev pub is_counted : JudgeResult → Bool
is_counted r = bytes_eq r.status (bytes "ACCEPTED") && not (r.problem_id == 0)

-- What a whole update makes of the tables.
abbrev pub submission_recorded : JudgeResult → Tables → Tables
submission_recorded r t = record t {
  submissions = update_row r.submission_id (λ _. submission_row r) t.submissions;
  submission_cases = others r.submission_id t.submission_cases ++ case_rows r.submission_id r;
  accepted = if is_counted r then update_row r.problem_id suc t.accepted else t.accepted;
}

abbrev pub run_recorded : JudgeResult → Tables → Tables
run_recorded r t = record t {
  runs = update_row r.run_id (λ _. run_row r) t.runs;
  run_cases = others r.run_id t.run_cases ++ case_rows r.run_id r;
}

-- The count of an accepted submission of a known problem.
abbrev pub counted : JudgeResult → Tables → Tables
counted r t = record t {
  accepted = if is_counted r then update_row r.problem_id suc t.accepted else t.accepted;
}
