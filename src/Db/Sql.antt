-- ===== src/Db/Sql.antt =====
-- The texts of the statements of src/db/mysql_client.cpp.
use flowstudy_judge.Common.{
  ℕ, Bytes, bytes, bytes_eq, is_empty, concat, [], ◌∷◌, ◌++◌, ◌==◌, if◌then◌else◌, to_string_ℕ,
  to_string_ℤ, Option, M, done, threw, return, ◌>>=◌, ◌>>◌,
}
use flowstudy_judge.Db.{MySqlLib, JudgeResult, JudgeCaseResult}

abbrev pub case_columns : Bytes
case_columns =
    bytes "testcase_id, case_index, status, time_used_ms, memory_used_kb, "
    ++ bytes "input_text, actual_output, expected_output, error_message) VALUES ("

module _ (l : MySqlLib) (conn : Option l.Handle) where
  -- The error return is no length: `resize` throws.
  unfoldable pub escape_sql : Bytes → M l.World Bytes
  escape_sql value w = if l.escape_fails conn value w then threw w else done (l.escape conn value) w

  unfoldable pub nullable_sql : Bytes → M l.World Bytes
  unfolding escape_sql
  nullable_sql value =
      if is_empty value
      then return (bytes "NULL")
      else do escaped ← escape_sql value; return (bytes "'" ++ (escaped ++ bytes "'"))

  -- The texts that both give where they return.
  abbrev pub escaped_text : Bytes → Bytes
  escaped_text value = l.escape conn value

  unfoldable pub nullable_text : Bytes → Bytes
  nullable_text value =
      if is_empty value then bytes "NULL" else bytes "'" ++ (escaped_text value ++ bytes "'")

  unfoldable pub update_submission_sql : JudgeResult → Bytes
  unfolding nullable_text bytes_eq
  update_submission_sql r = concat (
      bytes "UPDATE fs_submission SET "
      ∷ bytes "status = '"
      ∷ escaped_text r.status
      ∷ bytes "', "
      ∷ bytes "score = "
      ∷ (if bytes_eq r.status (bytes "ACCEPTED") then bytes "100" else bytes "0")
      ∷ bytes ", "
      ∷ bytes "time_used_ms = "
      ∷ to_string_ℤ r.time_used_ms
      ∷ bytes ", "
      ∷ bytes "memory_used_kb = "
      ∷ to_string_ℤ r.memory_used_kb
      ∷ bytes ", "
      ∷ bytes "compile_message = "
      ∷ nullable_text r.compiler_output
      ∷ bytes ", "
      ∷ bytes "runtime_message = "
      ∷ nullable_text r.error_message
      ∷ bytes ", "
      ∷ bytes "updated_at = NOW() "
      ∷ bytes "WHERE id = "
      ∷ to_string_ℕ r.submission_id
      ∷ [])

  unfoldable pub update_code_run_sql : JudgeResult → Bytes
  unfolding nullable_text
  update_code_run_sql r = concat (
      bytes "UPDATE fs_code_run SET "
      ∷ bytes "status = '"
      ∷ escaped_text r.status
      ∷ bytes "', "
      ∷ bytes "time_used_ms = "
      ∷ to_string_ℤ r.time_used_ms
      ∷ bytes ", "
      ∷ bytes "memory_used_kb = "
      ∷ to_string_ℤ r.memory_used_kb
      ∷ bytes ", "
      ∷ bytes "compile_message = "
      ∷ nullable_text r.compiler_output
      ∷ bytes ", "
      ∷ bytes "runtime_message = "
      ∷ nullable_text r.error_message
      ∷ bytes ", "
      ∷ bytes "updated_at = NOW() "
      ∷ bytes "WHERE id = "
      ∷ to_string_ℕ r.run_id
      ∷ [])

  -- The values of an INSERT, from the id of the submission or run on.
  unfoldable pub case_values : ℕ → JudgeCaseResult → Bytes
  unfolding nullable_text
  case_values id item = concat (
      to_string_ℕ id
      ∷ bytes ", "
      ∷ (if item.testcase_id == 0 then bytes "NULL" else to_string_ℕ item.testcase_id)
      ∷ bytes ", "
      ∷ to_string_ℤ item.case_index
      ∷ bytes ", "
      ∷ bytes "'"
      ∷ escaped_text item.status
      ∷ bytes "', "
      ∷ to_string_ℤ item.time_used_ms
      ∷ bytes ", "
      ∷ to_string_ℤ item.memory_used_kb
      ∷ bytes ", "
      ∷ nullable_text item.input_text
      ∷ bytes ", "
      ∷ nullable_text item.actual_output
      ∷ bytes ", "
      ∷ nullable_text item.expected_output
      ∷ bytes ", "
      ∷ nullable_text item.error_message
      ∷ bytes ")"
      ∷ [])

  unfoldable pub insert_submission_case_sql : JudgeResult → JudgeCaseResult → Bytes
  unfolding case_values
  insert_submission_case_sql r item =
      bytes "INSERT INTO fs_judge_case_result (submission_id, "
      ++ (case_columns ++ case_values r.submission_id item)

  unfoldable pub insert_code_run_case_sql : JudgeResult → JudgeCaseResult → Bytes
  unfolding case_values
  insert_code_run_case_sql r item =
      bytes "INSERT INTO fs_code_run_case_result (run_id, "
      ++ (case_columns ++ case_values r.run_id item)

  -- A statement is built of the texts that `escape_sql` returns, and not sent if one of the calls
  -- throws.
  unfoldable pub build_update_submission : JudgeResult → M l.World Bytes
  unfolding escape_sql nullable_sql
  build_update_submission r =
      escape_sql r.status
      >> nullable_sql r.compiler_output
      >> nullable_sql r.error_message
      >> return (update_submission_sql r)

  unfoldable pub build_update_code_run : JudgeResult → M l.World Bytes
  unfolding escape_sql nullable_sql
  build_update_code_run r =
      escape_sql r.status
      >> nullable_sql r.compiler_output
      >> nullable_sql r.error_message
      >> return (update_code_run_sql r)

  unfoldable pub escape_case : JudgeCaseResult → M l.World Bytes
  unfolding escape_sql nullable_sql
  escape_case item =
      escape_sql item.status
      >> nullable_sql item.input_text
      >> nullable_sql item.actual_output
      >> nullable_sql item.expected_output
      >> nullable_sql item.error_message

  unfoldable pub build_insert_submission_case : JudgeResult → JudgeCaseResult → M l.World Bytes
  unfolding escape_case
  build_insert_submission_case r item =
      escape_case item >> return (insert_submission_case_sql r item)

  unfoldable pub build_insert_code_run_case : JudgeResult → JudgeCaseResult → M l.World Bytes
  unfolding escape_case
  build_insert_code_run_case r item = escape_case item >> return (insert_code_run_case_sql r item)

-- The statements that no text of a user goes into.
unfoldable pub clear_submission_cases_sql : JudgeResult → Bytes
clear_submission_cases_sql r =
    bytes "DELETE FROM fs_judge_case_result WHERE submission_id = " ++ to_string_ℕ r.submission_id

unfoldable pub clear_code_run_cases_sql : JudgeResult → Bytes
clear_code_run_cases_sql r =
    bytes "DELETE FROM fs_code_run_case_result WHERE run_id = " ++ to_string_ℕ r.run_id

unfoldable pub update_problem_sql : JudgeResult → Bytes
update_problem_sql r =
    bytes "UPDATE fs_problem SET accepted_count = accepted_count + 1 WHERE id = "
    ++ to_string_ℕ r.problem_id
