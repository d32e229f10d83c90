-- ===== src/Db/Transaction.antt =====
-- The two updates of src/db/mysql_client.cpp as one scheme: a transaction over a list of statements.
use flowstudy_judge.Common.{
  Bytes, bytes, bytes_eq, Bool, true, false, not, ◌&&◌, ◌≡◌, refl, ap, ◌∙◌, List, [], ◌∷◌, ◌++◌,
  map, ◌==◌, if◌then◌else◌, M, return, append-nil,
}
use flowstudy_judge.Db.{MySqlLib, MySqlClient, JudgeResult, JudgeCaseResult}
use flowstudy_judge.Db.Sql.{
  update_submission_sql, update_code_run_sql, insert_submission_case_sql, insert_code_run_case_sql,
  clear_submission_cases_sql, clear_code_run_cases_sql, update_problem_sql, build_update_submission,
  build_update_code_run, build_insert_submission_case, build_insert_code_run_case,
}
use flowstudy_judge.Db.Update.{
  or_rollback, build_or_rollback, in_transaction, insert_cases, update_submission, update_code_run,
}

module _ (l : MySqlLib) (c : MySqlClient l) where
  -- The statements in their order: the verdict, the old case results, each new case result, and the
  -- count of the problem for an accepted submission of a known problem.
  abbrev pub submission_statements : JudgeResult → List Bytes
  submission_statements r =
      update_submission_sql l c.conn r
      ∷ clear_submission_cases_sql r
      ∷ (map (insert_submission_case_sql l c.conn r) r.case_results
          ++ (if bytes_eq r.status (bytes "ACCEPTED") && not (r.problem_id == 0)
              then update_problem_sql r ∷ []
              else []))

  abbrev pub code_run_statements : JudgeResult → List Bytes
  code_run_statements r =
      update_code_run_sql l c.conn r
      ∷ clear_code_run_cases_sql r
      ∷ map (insert_code_run_case_sql l c.conn r) r.case_results

  -- How they are built.
  abbrev pub submission_builds : JudgeResult → List (M l.World Bytes)
  submission_builds r =
      build_update_submission l c.conn r
      ∷ return (clear_submission_cases_sql r)
      ∷ (map (build_insert_submission_case l c.conn r) r.case_results
          ++ (if bytes_eq r.status (bytes "ACCEPTED") && not (r.problem_id == 0)
              then return (update_problem_sql r) ∷ []
              else []))

  abbrev pub code_run_builds : JudgeResult → List (M l.World Bytes)
  code_run_builds r =
      build_update_code_run l c.conn r
      ∷ return (clear_code_run_cases_sql r)
      ∷ map (build_insert_code_run_case l c.conn r) r.case_results

  -- The statements one after the other, each rolled back where it fails, and the commit.
  unfoldable pub run_statements : List (M l.World Bytes) → M l.World Bool
  run_statements [] = or_rollback l c (bytes "COMMIT") (return true)
  run_statements (m ∷ ms) = build_or_rollback l c m (run_statements ms)

  insert_cases-run_statements :
      (build : JudgeCaseResult → M l.World Bytes) (items : List JudgeCaseResult)
      (ms : List (M l.World Bytes))
      → insert_cases l c build items (run_statements ms) ≡ run_statements (map build items ++ ms)
  unfolding insert_cases run_statements
  insert_cases-run_statements build [] ms = refl
  insert_cases-run_statements build (item ∷ items) ms =
      ap (build_or_rollback l c (build item)) (insert_cases-run_statements build items ms)

  count_problem :
      (b : Bool) (sql : Bytes)
      → (if b
          then or_rollback l c sql (or_rollback l c (bytes "COMMIT") (return true))
          else or_rollback l c (bytes "COMMIT") (return true))
        ≡ run_statements (if b then return sql ∷ [] else [])
  unfolding run_statements build_or_rollback
  count_problem true sql = refl
  count_problem false sql = refl

  -- `update_submission` runs, in one transaction, exactly these statements in this order: the
  -- verdict, the removal of the old case results, each new case result, and the count of the problem
  -- for an accepted submission of a known problem.
  pub update_submission-run_statements :
      (r : JudgeResult)
      → update_submission l c r ≡ in_transaction l c (run_statements (submission_builds r))
  unfolding update_submission run_statements build_or_rollback
  update_submission-run_statements r =
      let build = build_insert_submission_case l c.conn r in
      ap
        (λ b. in_transaction l c (
          build_or_rollback l c (build_update_submission l c.conn r)
            (or_rollback l c (clear_submission_cases_sql r) b)))
        (ap (insert_cases l c build r.case_results) (count_problem _ (update_problem_sql r))
          ∙ insert_cases-run_statements build r.case_results _)

  -- `update_code_run` runs, in one transaction, exactly these statements in this order: the verdict
  -- of the run, the removal of its old case results, and each new case result.
  pub update_code_run-run_statements :
      (r : JudgeResult)
      → update_code_run l c r ≡ in_transaction l c (run_statements (code_run_builds r))
  unfolding update_code_run run_statements build_or_rollback
  update_code_run-run_statements r =
      let build = build_insert_code_run_case l c.conn r in
      ap
        (λ b. in_transaction l c (
          build_or_rollback l c (build_update_code_run l c.conn r)
            (or_rollback l c (clear_code_run_cases_sql r) b)))
        (insert_cases-run_statements build r.case_results []
          ∙ ap run_statements (append-nil (map build r.case_results)))
