-- ===== src/Db/RowChange.antt =====
-- The statements of src/db/mysql_client.cpp that change rows.
use flowstudy_judge.Common.{
  Bytes, bytes, strip_prefix, Bool, true, false, ◌||◌, ◌≡◌, refl, List, [], ◌∷◌, map, All,
  All-append, if◌then◌else◌, none, some,
}
use flowstudy_judge.Db.{MySqlLib, MySqlClient, JudgeResult, JudgeCaseResult}
use flowstudy_judge.Db.Sql.{
  update_submission_sql, update_code_run_sql, insert_submission_case_sql, insert_code_run_case_sql,
  clear_submission_cases_sql, clear_code_run_cases_sql, update_problem_sql,
}
use flowstudy_judge.Db.Transaction.{submission_statements, code_run_statements}

abbrev begins_with : Bytes → Bytes → Bool
begins_with s prefix = elim (strip_prefix prefix s) [ none ↦ false | some _ ↦ true ]

-- A statement that changes rows.
abbrev pub is_row_change : Bytes → Bool
is_row_change s =
    begins_with s (bytes "UPDATE ")
    || begins_with s (bytes "DELETE ")
    || begins_with s (bytes "INSERT ")

abbrev pub IsRowChange : Bytes → Type 0
IsRowChange s = is_row_change s ≡ true

module _ (l : MySqlLib) (c : MySqlClient l) where
  map-All :
      (f : JudgeCaseResult → Bytes) (items : List JudgeCaseResult)
      → ((item : JudgeCaseResult) → IsRowChange (f item))
      → All IsRowChange (map f items)
  map-All f [] h = tt
  map-All f (item ∷ items) h = (h item, map-All f items h)

  optional-All : (b : Bool) (s : Bytes) → IsRowChange s → All IsRowChange (if b then s ∷ [] else [])
  optional-All true s h = (h, tt)
  optional-All false s h = tt

  pub submission_statements-All : (r : JudgeResult) → All IsRowChange (submission_statements l c r)
  unfolding update_submission_sql clear_submission_cases_sql insert_submission_case_sql
      update_problem_sql
  submission_statements-All r = (
    refl,
    (
      refl,
      All-append IsRowChange _ _ (map-All _ r.case_results (λ item. refl))
          (optional-All _ (update_problem_sql r) refl),
    ),
  )

  pub code_run_statements-All : (r : JudgeResult) → All IsRowChange (code_run_statements l c r)
  unfolding update_code_run_sql clear_code_run_cases_sql insert_code_run_case_sql
  code_run_statements-All r = (refl, (refl, map-All _ r.case_results (λ item. refl)))
