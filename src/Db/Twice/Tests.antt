-- ===== src/Db/Twice/Tests.antt =====
-- Instances for the updates of src/db/mysql_client.cpp, on a server that keeps the tables.
use flowstudy_judge.Common.{
  Bytes, bytes, bytes_eq, to_string_ℕ, to_string_ℤ, true, ◌==◌, ◌≡◌, refl, List, [], ◌∷◌, ◌++◌,
  none, some, if◌then◌else◌, pos, done,
}
use flowstudy_judge.Db.Transaction.{submission_statements}
use flowstudy_judge.Db.Sql.{
  escape_sql, nullable_sql, escape_case, build_update_submission, build_insert_submission_case,
  update_submission_sql, clear_submission_cases_sql, insert_submission_case_sql, update_problem_sql,
}
use flowstudy_judge.Db.Update.{
  update_submission, update_code_run, in_transaction, or_rollback, build_or_rollback, insert_cases,
}
use flowstudy_judge.Db.Pieces.{Piece, tokens}
use flowstudy_judge.Db.Meaning.{
  update_submission_pieces, update_code_run_pieces, insert_case_pieces, with_id_pieces,
}
use flowstudy_judge.Db.Recorded.{Performs}
use flowstudy_judge.Db.Recorded.Scripted.{Known, tables_of, does}
use flowstudy_judge.Db.Tables.{
  Tables, set_submission, set_run, clear_submission_cases, clear_run_cases, case_row,
  add_submission_case, add_run_case, count_accepted, counted, submission_recorded, run_recorded,
}
use flowstudy_judge.Db.Scripted.{Store, mysql, server, client, transactions}
use flowstudy_judge.Db.Tests.{item, result}
use flowstudy_judge.Db.Twice.{Records, updates-Records, update_submission-twice}

abbrev sets : List Piece
sets = update_submission_pieces result

abbrev sets_a_run : List Piece
sets_a_run = update_code_run_pieces result

abbrev clears : List Piece
clears = with_id_pieces (bytes "DELETE FROM fs_judge_case_result WHERE submission_id = ") 7

abbrev clears_a_run : List Piece
clears_a_run = with_id_pieces (bytes "DELETE FROM fs_code_run_case_result WHERE run_id = ") 0

abbrev adds : List Piece
adds = insert_case_pieces (bytes "INSERT INTO fs_judge_case_result (submission_id") 7 item

abbrev adds_to_a_run : List Piece
adds_to_a_run = insert_case_pieces (bytes "INSERT INTO fs_code_run_case_result (run_id") 0 item

abbrev counts : List Piece
counts =
    with_id_pieces (bytes "UPDATE fs_problem SET accepted_count = accepted_count + 1 WHERE id = ")
      100

-- The statements for `result`.
abbrev known : List Known
known =
    (sets, set_submission result)
    ∷ (sets_a_run, set_run result)
    ∷ (clears, clear_submission_cases 7)
    ∷ (clears_a_run, clear_run_cases 0)
    ∷ (adds, add_submission_case 7 item)
    ∷ (adds_to_a_run, add_run_case 0 item)
    ∷ (counts, count_accepted 100)
    ∷ []

-- The problem 100 and a submission 7 with a case result of an earlier judgement.
abbrev before : Tables
before = record {
  submissions = λ id.
      if id == 7
      then some (record {
        status = bytes "PENDING";
        score = 0;
        time_used_ms = pos 0;
        memory_used_kb = pos 0;
        compile_message = none;
        runtime_message = none;
      })
      else none;
  runs = λ id. none;
  submission_cases = (7, case_row item) ∷ (8, case_row item) ∷ [];
  run_cases = [];
  accepted = λ id. if id == 100 then some 5 else none;
}

-- In `mysql` a change adds its text to the committed data.
unfoldable performs : Performs mysql (some tt) transactions result
unfolding transactions tokens update_submission_pieces update_code_run_pieces insert_case_pieces
    with_id_pieces bytes_eq to_string_ℕ to_string_ℤ
performs = record {
  tables = tables_of known before;
  sets_submission = does known before sets (set_submission result) (λ x. refl);
  sets_run = does known before sets_a_run (set_run result) (λ x. refl);
  clears_submission = does known before clears (clear_submission_cases 7) (λ x. refl);
  clears_run = does known before clears_a_run (clear_run_cases 0) (λ x. refl);
  adds_submission_cases = (does known before adds (add_submission_case 7 item) (λ x. refl), tt);
  adds_run_cases = (does known before adds_to_a_run (add_run_case 0 item) (λ x. refl), tt);
  counts_accepted = does known before counts (count_accepted 100) (λ x. refl);
}

updates-Records_example :
    Records mysql
      (client server)
      (λ s. refl)
      transactions
      result
      performs
      (submission_recorded result)
      (update_submission mysql (client server) result)
      server
    × Records mysql
        (client server)
        (λ s. refl)
        transactions
        result
        performs
        (run_recorded result)
        (update_code_run mysql (client server) result)
        server
unfolding transactions
updates-Records_example =
    updates-Records mysql (client server) (λ s. refl) transactions result performs server refl

abbrev written : List Bytes
written = submission_statements mysql (client server) result

abbrev once : Store
once = record server { committed = written }

abbrev twice : Store
twice = record server { committed = written ++ written }

first_update : update_submission mysql (client server) result server ≡ done true once
unfolding update_submission in_transaction or_rollback build_or_rollback bytes_eq insert_cases
    build_update_submission escape_sql nullable_sql escape_case build_insert_submission_case
    update_submission_sql clear_submission_cases_sql insert_submission_case_sql update_problem_sql
first_update = refl

second_update : update_submission mysql (client server) result once ≡ done true twice
unfolding update_submission in_transaction or_rollback build_or_rollback bytes_eq insert_cases
    build_update_submission escape_sql nullable_sql escape_case build_insert_submission_case
    update_submission_sql clear_submission_cases_sql insert_submission_case_sql update_problem_sql
second_update = refl

update_submission-twice_example :
    performs.tables (transactions.committed twice)
    ≡ counted result (performs.tables (transactions.committed once))
unfolding transactions
update_submission-twice_example =
    update_submission-twice mysql (client server) (λ s. refl) transactions result performs server
      once once twice refl first_update refl refl second_update
