-- ===== src/Db/Builds.antt =====
-- How the statements of src/db/mysql_client.cpp are built: escaping returns, or throws.
use flowstudy_judge.Common.{
  Bytes, bytes, is_empty, Bool, true, false, ◌≡◌, refl, List, [], ◌∷◌, ◌++◌, map, Option,
  if◌then◌else◌, M, Outcome, done, threw, hung, return, ◌>>=◌, ◌>>◌,
}
use flowstudy_judge.Db.{MySqlLib, MySqlClient, JudgeResult, JudgeCaseResult}
use flowstudy_judge.Db.Sql.{
  escape_sql, nullable_sql, escaped_text, nullable_text, escape_case, build_update_submission,
  build_update_code_run, build_insert_submission_case, build_insert_code_run_case,
  update_submission_sql, update_code_run_sql, insert_submission_case_sql, insert_code_run_case_sql,
}
use flowstudy_judge.Db.Transaction.{
  submission_statements, code_run_statements, submission_builds, code_run_builds,
}

module _ (l : MySqlLib) (conn : Option l.Handle) where
  -- Escaping a value fails in this world.
  abbrev pub Refuses : l.World → Type 0
  Refuses w = (value : Bytes) × (l.escape_fails conn value w ≡ true)

  -- This text is built, or an exception leaves the escaping of a value. The world stays.
  abbrev pub BuiltAs : Bytes → l.World → Outcome l.World Bytes → Type 0
  BuiltAs s w (done a w') = (a ≡ s) × (w' ≡ w)
  BuiltAs s w (threw w') = (w' ≡ w) × Refuses w
  BuiltAs s w (hung w') = ⊥

  abbrev pub Builds : M l.World Bytes → Bytes → Type 0
  Builds m s = (w : l.World) → BuiltAs s w (m w)

  return-Builds : (s : Bytes) → Builds (return s) s
  return-Builds s w = (refl, refl)

  >>-Builds : (m k : M l.World Bytes) (s t : Bytes) → Builds m s → Builds k t → Builds (m >> k) t
  >>-Builds m k s t h h' w = go (m w) (h w)
    where
      go : (o : Outcome l.World Bytes) → BuiltAs s w o → BuiltAs t w (◌>>=◌ (λ _. o) (λ _. k) w)
      go (done a w') (e, same) = rw same (h' w)
      go (threw w') h = h
      go (hung w') h = absurd h

  escape_sql-Builds : (value : Bytes) → Builds (escape_sql l conn value) (escaped_text l conn value)
  unfolding escape_sql
  escape_sql-Builds value w = go (l.escape_fails conn value w) refl
    where
      go :
          (b : Bool)
          → l.escape_fails conn value w ≡ b
          → BuiltAs
              (escaped_text l conn value)
              w
              (if b then threw w else done (l.escape conn value) w)
      go true e = (refl, (value, e))
      go false e = (refl, refl)

  nullable_sql-Builds :
      (value : Bytes) → Builds (nullable_sql l conn value) (nullable_text l conn value)
  unfolding nullable_sql nullable_text
  nullable_sql-Builds value w = go (is_empty value)
    where
      wrapped :
          (o : Outcome l.World Bytes)
          → BuiltAs (escaped_text l conn value) w o
          → BuiltAs
              (bytes "'" ++ (escaped_text l conn value ++ bytes "'"))
              w
              (◌>>=◌ (λ _. o) (λ escaped. return (bytes "'" ++ (escaped ++ bytes "'"))) w)
      wrapped (done a w') (e, same) = (rw e refl, same)
      wrapped (threw w') h = h
      wrapped (hung w') h = absurd h

      go :
          (b : Bool)
          → BuiltAs
              (if b then bytes "NULL" else bytes "'" ++ (escaped_text l conn value ++ bytes "'"))
              w
              ((if b
                  then return (bytes "NULL")
                  else ◌>>=◌
                      (escape_sql l conn value)
                      (λ escaped. return (bytes "'" ++ (escaped ++ bytes "'"))))
                w)
      go true = (refl, refl)
      go false = wrapped (escape_sql l conn value w) (escape_sql-Builds value w)

  build_update_submission-Builds :
      (r : JudgeResult) → Builds (build_update_submission l conn r) (update_submission_sql l conn r)
  unfolding build_update_submission
  build_update_submission-Builds r =
      >>-Builds _ _ _ _
        (>>-Builds _ _ _ _
          (>>-Builds _ _ _ _ (escape_sql-Builds r.status) (nullable_sql-Builds r.compiler_output))
          (nullable_sql-Builds r.error_message))
        (return-Builds (update_submission_sql l conn r))

  build_update_code_run-Builds :
      (r : JudgeResult) → Builds (build_update_code_run l conn r) (update_code_run_sql l conn r)
  unfolding build_update_code_run
  build_update_code_run-Builds r =
      >>-Builds _ _ _ _
        (>>-Builds _ _ _ _
          (>>-Builds _ _ _ _ (escape_sql-Builds r.status) (nullable_sql-Builds r.compiler_output))
          (nullable_sql-Builds r.error_message))
        (return-Builds (update_code_run_sql l conn r))

  escape_case-Builds :
      (item : JudgeCaseResult)
      → Builds (escape_case l conn item) (nullable_text l conn item.error_message)
  unfolding escape_case
  escape_case-Builds item =
      >>-Builds _ _ _ _
        (>>-Builds _ _ _ _
          (>>-Builds _ _ _ _
            (>>-Builds _ _ _ _ (escape_sql-Builds item.status)
              (nullable_sql-Builds item.input_text))
            (nullable_sql-Builds item.actual_output))
          (nullable_sql-Builds item.expected_output))
        (nullable_sql-Builds item.error_message)

  -- Each of these is built as the text at its place.
  abbrev pub AllBuild : List (M l.World Bytes) → List Bytes → Type 0
  AllBuild [] [] = Unit
  AllBuild (m ∷ ms) (s ∷ ss) = Builds m s × AllBuild ms ss
  AllBuild [] (s ∷ ss) = ⊥
  AllBuild (m ∷ ms) [] = ⊥

  cases-AllBuild :
      (build : JudgeCaseResult → M l.World Bytes) (text : JudgeCaseResult → Bytes)
      (items : List JudgeCaseResult) (ms : List (M l.World Bytes)) (ss : List Bytes)
      → ((item : JudgeCaseResult) → Builds (build item) (text item))
      → AllBuild ms ss
      → AllBuild (map build items ++ ms) (map text items ++ ss)
  cases-AllBuild build text [] ms ss h h' = h'
  cases-AllBuild build text (item ∷ items) ms ss h h' =
      (h item, cases-AllBuild build text items ms ss h h')

  all_cases-AllBuild :
      (build : JudgeCaseResult → M l.World Bytes) (text : JudgeCaseResult → Bytes)
      (items : List JudgeCaseResult)
      → ((item : JudgeCaseResult) → Builds (build item) (text item))
      → AllBuild (map build items) (map text items)
  all_cases-AllBuild build text [] h = tt
  all_cases-AllBuild build text (item ∷ items) h = (h item, all_cases-AllBuild build text items h)

  optional-AllBuild :
      (b : Bool) (s : Bytes) → AllBuild (if b then return s ∷ [] else []) (if b then s ∷ [] else [])
  optional-AllBuild true s = (return-Builds s, tt)
  optional-AllBuild false s = tt

module _ (l : MySqlLib) (c : MySqlClient l) where
  pub submission_builds-AllBuild :
      (r : JudgeResult) → AllBuild l c.conn (submission_builds l c r) (submission_statements l c r)
  unfolding build_insert_submission_case
  submission_builds-AllBuild r = (
    build_update_submission-Builds l c.conn r,
    (
      return-Builds l c.conn _,
      cases-AllBuild l c.conn (build_insert_submission_case l c.conn r)
          (insert_submission_case_sql l c.conn r) r.case_results _ _
          (λ item.
            >>-Builds l c.conn _ _ _ _ (escape_case-Builds l c.conn item)
              (return-Builds l c.conn _))
          (optional-AllBuild l c.conn _ _),
    ),
  )

  pub code_run_builds-AllBuild :
      (r : JudgeResult) → AllBuild l c.conn (code_run_builds l c r) (code_run_statements l c r)
  unfolding build_insert_code_run_case
  code_run_builds-AllBuild r = (
    build_update_code_run-Builds l c.conn r,
    (
      return-Builds l c.conn _,
      all_cases-AllBuild l c.conn (build_insert_code_run_case l c.conn r)
          (insert_code_run_case_sql l c.conn r) r.case_results
          (λ item.
            >>-Builds l c.conn _ _ _ _ (escape_case-Builds l c.conn item)
              (return-Builds l c.conn _)),
    ),
  )
