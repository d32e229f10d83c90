-- ===== src/Db/Tests.antt =====
-- Instances and tests for the updates of src/db/mysql_client.cpp.
use flowstudy_judge.Common.{
  Bytes, bytes, bytes_eq, to_string_ℕ, Bool, pos, negsuc, ◌≡◌, refl, List, [], ◌∷◌, map, some,
  Outcome, done, threw, hung, length,
}
use flowstudy_judge.Db.{connect, ping, JudgeResult, JudgeCaseResult}
use flowstudy_judge.Db.Sql.{
  escape_sql, nullable_sql, escape_case, build_update_submission, build_insert_submission_case,
  update_submission_sql, insert_submission_case_sql, update_problem_sql, clear_submission_cases_sql,
}
use flowstudy_judge.Db.Update.{
  update_submission, update_code_run, in_transaction, or_rollback, build_or_rollback, insert_cases,
}
use flowstudy_judge.Db.Transaction.{submission_statements, code_run_statements}
use flowstudy_judge.Db.Atomic.{
  AllOrNothing, update_submission-AllOrNothing, update_code_run-AllOrNothing,
}
use flowstudy_judge.Db.Lexer.{quote, outside, read}
use flowstudy_judge.Db.Pieces.{tokens}
use flowstudy_judge.Db.Meaning.{submission_pieces, code_run_pieces}
use flowstudy_judge.Db.Injection.{statements-Reads}
use flowstudy_judge.Db.Connection.{Reports, connect-ping-Reports}
use flowstudy_judge.Db.Scripted.{Store, mysql, server, client, transactions}

abbrev pub item : JudgeCaseResult
item = record {
  testcase_id = 11;
  case_index = pos 1;
  status = bytes "ACCEPTED";
  time_used_ms = pos 2;
  memory_used_kb = pos 100;
  input_text = bytes "1 2";
  actual_output = bytes "3";
  expected_output = bytes "3";
  error_message = [];
}

abbrev pub result : JudgeResult
result = record {
  run_id = 0;
  submission_id = 7;
  problem_id = 100;
  status = bytes "ACCEPTED";
  time_used_ms = pos 2;
  memory_used_kb = pos 100;
  error_message = [];
  compiler_output = [];
  failed_testcase = negsuc 0;
  case_results = item ∷ [];
}

-- A server that refuses to count the problem.
abbrev refusing : Store
refusing = record server {
  refused = bytes "UPDATE fs_problem SET accepted_count = accepted_count + 1 WHERE id = 100";
}

abbrev rows_after : Outcome Store Bool → List Bytes
rows_after (done b w) = w.committed
rows_after (threw w) = w.committed
rows_after (hung w) = w.committed

four_statements_or_none :
    (length (rows_after (update_submission mysql (client server) result server)) ≡ 4)
    × (rows_after (update_submission mysql (client refusing) result refusing) ≡ [])
unfolding update_submission in_transaction bytes_eq or_rollback build_or_rollback
    build_update_submission escape_sql nullable_sql escape_case build_insert_submission_case
    update_submission_sql clear_submission_cases_sql insert_cases insert_submission_case_sql
    update_problem_sql to_string_ℕ
four_statements_or_none = (refl, refl)

update_submission-AllOrNothing_example :
    AllOrNothing mysql
      (client refusing)
      transactions
      (update_submission mysql (client refusing) result)
      (submission_statements mysql (client refusing) result)
      refusing
unfolding transactions
update_submission-AllOrNothing_example =
    update_submission-AllOrNothing mysql (client refusing) transactions result refusing refl

update_code_run-AllOrNothing_example :
    AllOrNothing mysql
      (client server)
      transactions
      (update_code_run mysql (client server) result)
      (code_run_statements mysql (client server) result)
      server
unfolding transactions
update_code_run-AllOrNothing_example =
    update_code_run-AllOrNothing mysql (client server) transactions result server refl

connect-ping-Reports_example :
    Reports mysql (client server) (connect mysql (client server))
    × Reports mysql (client server) (ping mysql (client server))
connect-ping-Reports_example = connect-ping-Reports mysql (client server)

-- A submission that prints a piece of SQL.
abbrev hostile : JudgeResult
hostile = record result {
  error_message = bytes "x', score = 100 WHERE id = 1; -- ";
  compiler_output = quote ∷ 92 ∷ 0 ∷ [];
}

statements-Reads_example :
    (map (read outside) (submission_statements mysql (client server) hostile)
      ≡ map (λ ps. some (tokens ps)) (submission_pieces hostile))
    × (map (read outside) (code_run_statements mysql (client server) hostile)
        ≡ map (λ ps. some (tokens ps)) (code_run_pieces hostile))
statements-Reads_example = statements-Reads mysql (client server) (λ s. refl) hostile
