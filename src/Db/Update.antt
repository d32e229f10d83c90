-- ===== src/Db/Update.antt =====
-- `MySQLClient::update_submission` and `MySQLClient::update_code_run` of src/db/mysql_client.cpp.
use flowstudy_judge.Common.{
  Bytes, bytes, bytes_eq, Bool, true, false, not, ◌&&◌, List, [], ◌∷◌, ◌==◌, if◌then◌else◌, M,
  return, call, ◌>>=◌, ◌>>◌,
}
use flowstudy_judge.Db.{MySqlLib, MySqlClient, JudgeResult, JudgeCaseResult}
use flowstudy_judge.Db.Sql.{
  build_update_submission, build_update_code_run, build_insert_submission_case,
  build_insert_code_run_case, clear_submission_cases_sql, clear_code_run_cases_sql,
  update_problem_sql,
}

module _ (l : MySqlLib) (c : MySqlClient l) where
  abbrev pub send : Bytes → M l.World Bool
  send sql = call (l.query c.conn sql)

  -- A statement inside the transaction: where it fails the transaction is rolled back and the
  -- function returns `false`; otherwise it goes on with `next`.
  unfoldable pub or_rollback : Bytes → M l.World Bool → M l.World Bool
  or_rollback sql next = do
    success ← send sql
    if not success then (send (bytes "ROLLBACK") >> return false) else next

  -- The statement is built first; an exception leaves the transaction open.
  unfoldable pub build_or_rollback : M l.World Bytes → M l.World Bool → M l.World Bool
  unfolding or_rollback
  build_or_rollback build next = do sql ← build; or_rollback sql next

  -- The loop over `case_results`.
  unfoldable pub insert_cases :
      (JudgeCaseResult → M l.World Bytes) → List JudgeCaseResult → M l.World Bool → M l.World Bool
  insert_cases build [] next = next
  insert_cases build (item ∷ items) next =
      build_or_rollback (build item) (insert_cases build items next)

  -- How both updates begin: they return `false` where the client is not connected, or where no
  -- transaction can be started.
  unfoldable pub in_transaction : M l.World Bool → M l.World Bool
  in_transaction body =
      if not c.connected
      then return false
      else do started ← send (bytes "START TRANSACTION"); if not started then return false else body

  unfoldable pub update_submission : JudgeResult → M l.World Bool
  update_submission r =
      let commit = or_rollback (bytes "COMMIT") (return true) in
      in_transaction (
        build_or_rollback (build_update_submission l c.conn r) (
          or_rollback (clear_submission_cases_sql r) (
            insert_cases (build_insert_submission_case l c.conn r) r.case_results (
              if bytes_eq r.status (bytes "ACCEPTED") && not (r.problem_id == 0)
              then or_rollback (update_problem_sql r) commit
              else commit))))

  unfoldable pub update_code_run : JudgeResult → M l.World Bool
  update_code_run r = in_transaction (
      build_or_rollback (build_update_code_run l c.conn r) (
        or_rollback (clear_code_run_cases_sql r) (
          insert_cases (build_insert_code_run_case l c.conn r) r.case_results
            (or_rollback (bytes "COMMIT") (return true)))))
