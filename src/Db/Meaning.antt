-- ===== src/Db/Meaning.antt =====
-- What the statements of src/db/mysql_client.cpp are to say.
use flowstudy_judge.Common.{
  ℕ, Bytes, bytes, bytes_eq, not, ◌&&◌, ◌==◌, List, [], ◌∷◌, ◌++◌, map, if◌then◌else◌,
}
use flowstudy_judge.Db.{JudgeResult, JudgeCaseResult}
use flowstudy_judge.Db.Pieces.{
  Piece, sql, number, row_id, row_id_or_null, choice, text, text_or_null,
}

-- The statements, as SQL and values.
unfoldable pub update_submission_pieces : JudgeResult → List Piece
update_submission_pieces r =
    sql (bytes "UPDATE fs_submission SET status = ")
    ∷ text r.status b','
    ∷ sql (bytes " score = ")
    ∷ choice (bytes_eq r.status (bytes "ACCEPTED")) (bytes "100") (bytes "0")
    ∷ sql (bytes ", time_used_ms = ")
    ∷ number r.time_used_ms
    ∷ sql (bytes ", memory_used_kb = ")
    ∷ number r.memory_used_kb
    ∷ sql (bytes ", compile_message = ")
    ∷ text_or_null r.compiler_output b','
    ∷ sql (bytes " runtime_message = ")
    ∷ text_or_null r.error_message b','
    ∷ sql (bytes " updated_at = NOW() WHERE id = ")
    ∷ row_id r.submission_id
    ∷ []

unfoldable pub update_code_run_pieces : JudgeResult → List Piece
update_code_run_pieces r =
    sql (bytes "UPDATE fs_code_run SET status = ")
    ∷ text r.status b','
    ∷ sql (bytes " time_used_ms = ")
    ∷ number r.time_used_ms
    ∷ sql (bytes ", memory_used_kb = ")
    ∷ number r.memory_used_kb
    ∷ sql (bytes ", compile_message = ")
    ∷ text_or_null r.compiler_output b','
    ∷ sql (bytes " runtime_message = ")
    ∷ text_or_null r.error_message b','
    ∷ sql (bytes " updated_at = NOW() WHERE id = ")
    ∷ row_id r.run_id
    ∷ []

-- The row of one test case; `head` names the table and its first column, and `key` is the value there.
unfoldable pub insert_case_pieces : Bytes → ℕ → JudgeCaseResult → List Piece
insert_case_pieces head key item =
    sql head
    ∷ sql (bytes ", testcase_id, case_index, status, time_used_ms, memory_used_kb, ")
    ∷ sql (bytes "input_text, actual_output, expected_output, error_message) VALUES (")
    ∷ row_id key
    ∷ sql (bytes ", ")
    ∷ row_id_or_null item.testcase_id
    ∷ sql (bytes ", ")
    ∷ number item.case_index
    ∷ sql (bytes ", ")
    ∷ text item.status b','
    ∷ sql (bytes " ")
    ∷ number item.time_used_ms
    ∷ sql (bytes ", ")
    ∷ number item.memory_used_kb
    ∷ sql (bytes ", ")
    ∷ text_or_null item.input_text b','
    ∷ sql (bytes " ")
    ∷ text_or_null item.actual_output b','
    ∷ sql (bytes " ")
    ∷ text_or_null item.expected_output b','
    ∷ sql (bytes " ")
    ∷ text_or_null item.error_message b')'
    ∷ []

-- A statement that ends in an id.
unfoldable pub with_id_pieces : Bytes → ℕ → List Piece
with_id_pieces head key = sql head ∷ row_id key ∷ []

-- The statements of `update_submission` and of `update_code_run` in their order.
abbrev pub submission_pieces : JudgeResult → List (List Piece)
submission_pieces r =
    update_submission_pieces r
    ∷ with_id_pieces (bytes "DELETE FROM fs_judge_case_result WHERE submission_id = ")
        r.submission_id
    ∷ (map
          (insert_case_pieces (bytes "INSERT INTO fs_judge_case_result (submission_id")
            r.submission_id)
          r.case_results
        ++ (if bytes_eq r.status (bytes "ACCEPTED") && not (r.problem_id == 0)
            then with_id_pieces
                (bytes "UPDATE fs_problem SET accepted_count = accepted_count + 1 WHERE id = ")
                r.problem_id
              ∷ []
            else []))

abbrev pub code_run_pieces : JudgeResult → List (List Piece)
code_run_pieces r =
    update_code_run_pieces r
    ∷ with_id_pieces (bytes "DELETE FROM fs_code_run_case_result WHERE run_id = ") r.run_id
    ∷ map (insert_case_pieces (bytes "INSERT INTO fs_code_run_case_result (run_id") r.run_id)
        r.case_results
