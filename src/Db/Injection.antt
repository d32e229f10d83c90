-- ===== src/Db/Injection.antt =====
-- The statements of src/db/mysql_client.cpp as a server reads them, with the texts of a submission.
use flowstudy_judge.Common.{
  ℕ, Bytes, bytes, bytes_eq, Bool, true, false, not, ◌&&◌, ◌==◌, true, ◌≡◌, refl, sym, ap, ◌∙◌,
  List, [], ◌∷◌, ◌++◌, some, map, if◌then◌else◌, all_of, to_string_ℕ, map-append, append-nil, ap₂,
  append-nil, append-nil,
}
use flowstudy_judge.Db.{MySqlLib, MySqlClient, JudgeResult, JudgeCaseResult}
use flowstudy_judge.Db.Sql.{
  update_submission_sql, update_code_run_sql, insert_submission_case_sql, insert_code_run_case_sql,
  clear_submission_cases_sql, clear_code_run_cases_sql, update_problem_sql, case_values,
}
use flowstudy_judge.Db.Transaction.{submission_statements, code_run_statements}
use flowstudy_judge.Db.Lexer.{is_code, outside, read, EscapesAsDocumented}
use flowstudy_judge.Db.Pieces.{Piece, tokens, render, read-render}
use flowstudy_judge.Db.Meaning.{
  update_submission_pieces, update_code_run_pieces, insert_case_pieces, with_id_pieces,
  submission_pieces, code_run_pieces,
}

module _ (l : MySqlLib) (c : MySqlClient l) (documented : EscapesAsDocumented l c.conn) where
  -- The server reads this statement as these pieces.
  abbrev Read : Bytes → List Piece → Type 0
  Read s ps = read outside s ≡ some (tokens ps)

  pub update_submission_sql-Read :
      (r : JudgeResult) → Read (update_submission_sql l c.conn r) (update_submission_pieces r)
  unfolding update_submission_sql render update_submission_pieces
  update_submission_sql-Read r = read-render l c.conn documented (update_submission_pieces r) refl

  pub update_code_run_sql-Read :
      (r : JudgeResult) → Read (update_code_run_sql l c.conn r) (update_code_run_pieces r)
  unfolding update_code_run_sql render update_code_run_pieces
  update_code_run_sql-Read r = read-render l c.conn documented (update_code_run_pieces r) refl

  pub insert_submission_case_sql-Read :
      (r : JudgeResult) (item : JudgeCaseResult)
      → Read (insert_submission_case_sql l c.conn r item) (
          insert_case_pieces
            (bytes "INSERT INTO fs_judge_case_result (submission_id")
            r.submission_id
            item)
  unfolding insert_submission_case_sql case_values render insert_case_pieces
  insert_submission_case_sql-Read r item =
      let head = bytes "INSERT INTO fs_judge_case_result (submission_id" in
      read-render l c.conn documented (insert_case_pieces head r.submission_id item) refl

  pub insert_code_run_case_sql-Read :
      (r : JudgeResult) (item : JudgeCaseResult)
      → Read
          (insert_code_run_case_sql l c.conn r item)
          (insert_case_pieces (bytes "INSERT INTO fs_code_run_case_result (run_id") r.run_id item)
  unfolding insert_code_run_case_sql case_values render insert_case_pieces
  insert_code_run_case_sql-Read r item =
      let head = bytes "INSERT INTO fs_code_run_case_result (run_id" in
      read-render l c.conn documented (insert_case_pieces head r.run_id item) refl

  pub with_id-Read :
      (head : Bytes) (id : ℕ)
      → all_of is_code head ≡ true
      → Read (head ++ to_string_ℕ id) (with_id_pieces head id)
  unfolding render with_id_pieces
  with_id-Read head id h =
      ap (λ s. read outside (head ++ s)) (sym (append-nil (to_string_ℕ id)))
      ∙ read-render l c.conn documented (with_id_pieces head id) (ap (λ b. b && true) h)

  -- The server reads each of these statements as the pieces at its place.
  abbrev AllRead : List Bytes → List (List Piece) → Type 0
  AllRead ss pss = map (read outside) ss ≡ map (λ ps. some (tokens ps)) pss

  AllRead-append :
      (ss ts : List Bytes) (pss qss : List (List Piece))
      → AllRead ss pss
      → AllRead ts qss
      → AllRead (ss ++ ts) (pss ++ qss)
  AllRead-append ss ts pss qss h k =
      map-append (read outside) ss ts
      ∙ ap₂ ◌++◌ h k
      ∙ sym (map-append (λ ps. some (tokens ps)) pss qss)

  AllRead-map :
      (f : JudgeCaseResult → Bytes) (g : JudgeCaseResult → List Piece)
      → ((item : JudgeCaseResult) → Read (f item) (g item))
      → (items : List JudgeCaseResult) → AllRead (map f items) (map g items)
  AllRead-map f g h [] = refl
  AllRead-map f g h (item ∷ items) = ap₂ ◌∷◌ (h item) (AllRead-map f g h items)

  AllRead-if :
      (b : Bool) (s : Bytes) (ps : List Piece)
      → Read s ps
      → AllRead (if b then s ∷ [] else []) (if b then ps ∷ [] else [])
  AllRead-if true s ps h = ap (λ x. x ∷ []) h
  AllRead-if false s ps h = refl

  submission-AllRead :
      (r : JudgeResult) → AllRead (submission_statements l c r) (submission_pieces r)
  unfolding clear_submission_cases_sql update_problem_sql
  submission-AllRead r =
      let rows =
        AllRead-map (insert_submission_case_sql l c.conn r) _ (insert_submission_case_sql-Read r)
          r.case_results in
      let count = AllRead-if (bytes_eq r.status (bytes "ACCEPTED") && not (r.problem_id == 0)) _ _ (
        with_id-Read (bytes "UPDATE fs_problem SET accepted_count = accepted_count + 1 WHERE id = ")
          r.problem_id refl) in
      ap₂ ◌∷◌ (update_submission_sql-Read r) (
        ap₂ ◌∷◌
          (with_id-Read (bytes "DELETE FROM fs_judge_case_result WHERE submission_id = ")
            r.submission_id refl)
          (AllRead-append _ _ _ _ rows count))

  code_run-AllRead : (r : JudgeResult) → AllRead (code_run_statements l c r) (code_run_pieces r)
  unfolding clear_code_run_cases_sql
  code_run-AllRead r = ap₂ ◌∷◌ (update_code_run_sql-Read r) (
      ap₂ ◌∷◌
        (with_id-Read (bytes "DELETE FROM fs_code_run_case_result WHERE run_id = ") r.run_id refl)
        (AllRead-map (insert_code_run_case_sql l c.conn r) _ (insert_code_run_case_sql-Read r)
          r.case_results))

  -- If `mysql_real_escape_string` escapes a value as its manual says, then a server reads each
  -- statement of `update_submission` and of `update_code_run` as the fixed SQL with the texts of the result
  -- as values: whatever bytes the status, the messages, the inputs and the outputs hold, no literal
  -- ends early, each value is the text itself, and an empty text is NULL. Nor does a zero byte cut off the C string.
  pub statements-Reads :
      (r : JudgeResult)
      → (map (read outside) (submission_statements l c r)
          ≡ map (λ ps. some (tokens ps)) (submission_pieces r))
        × (map (read outside) (code_run_statements l c r)
            ≡ map (λ ps. some (tokens ps)) (code_run_pieces r))
  statements-Reads r = (submission-AllRead r, code_run-AllRead r)
