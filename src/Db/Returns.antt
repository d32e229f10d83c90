-- ===== src/Db/Returns.antt =====
-- The updates of src/db/mysql_client.cpp, whatever the server answers: they return, or the escaping of
-- a value throws.
use flowstudy_judge.Common.{
  Bytes, bytes, Bool, true, not, sym, subst, List, [], ◌∷◌, M, Outcome, done, threw, hung, ◌>>=◌,
  return, NotHung, if-NotHung,
}
use flowstudy_judge.Db.{MySqlLib, MySqlClient, JudgeResult}
use flowstudy_judge.Db.Update.{
  or_rollback, build_or_rollback, in_transaction, update_submission, update_code_run,
}
use flowstudy_judge.Db.Transaction.{
  submission_statements, code_run_statements, submission_builds, code_run_builds, run_statements,
  update_submission-run_statements, update_code_run-run_statements,
}
use flowstudy_judge.Db.Builds.{
  AllBuild, BuiltAs, submission_builds-AllBuild, code_run_builds-AllBuild,
}

module _ (l : MySqlLib) (c : MySqlClient l) where
  -- Every answer leads to an end.
  abbrev Ends : M l.World Bool → Type 0
  Ends m = (w : l.World) → NotHung (m w)

  or_rollback-Ends : (s : Bytes) (next : M l.World Bool) → Ends next → Ends (or_rollback l c s next)
  unfolding or_rollback
  or_rollback-Ends s next h w =
      if-NotHung (not (l.query c.conn s w).0) _ next (l.query c.conn s w).1 tt (h _)

  run_statements-Ends :
      (ms : List (M l.World Bytes)) (ss : List Bytes)
      → AllBuild l c.conn ms ss
      → Ends (run_statements l c ms)
  unfolding run_statements build_or_rollback
  run_statements-Ends [] ss built w = or_rollback-Ends (bytes "COMMIT") (return true) (λ w. tt) w
  run_statements-Ends (m ∷ ms) [] built w = absurd built
  run_statements-Ends (m ∷ ms) (s ∷ ss) (built, rest) w =
      go (m w) (built w) (run_statements-Ends ms ss rest)
    where
      go :
          (o : Outcome l.World Bytes)
          → BuiltAs l c.conn s w o
          → Ends (run_statements l c ms)
          → NotHung (◌>>=◌ (λ _. o) (λ sql. or_rollback l c sql (run_statements l c ms)) w)
      go (done a w') h ih = or_rollback-Ends a (run_statements l c ms) ih w'
      go (threw w') h ih = tt
      go (hung w') h ih = absurd h

  in_transaction-Ends : (body : M l.World Bool) → Ends body → Ends (in_transaction l c body)
  unfolding in_transaction
  in_transaction-Ends body h w =
      let start = l.query c.conn (bytes "START TRANSACTION") w in
      if-NotHung (not c.connected) _ _ w tt (if-NotHung (not start.0) _ body start.1 tt (h start.1))

  pub update_submission-Ends : (r : JudgeResult) → Ends (update_submission l c r)
  update_submission-Ends r = subst Ends (sym (update_submission-run_statements l c r)) (
      in_transaction-Ends _ (
        run_statements-Ends (submission_builds l c r) (submission_statements l c r)
          (submission_builds-AllBuild l c r)))

  pub update_code_run-Ends : (r : JudgeResult) → Ends (update_code_run l c r)
  update_code_run-Ends r = subst Ends (sym (update_code_run-run_statements l c r)) (
      in_transaction-Ends _ (
        run_statements-Ends (code_run_builds l c r) (code_run_statements l c r)
          (code_run_builds-AllBuild l c r)))
