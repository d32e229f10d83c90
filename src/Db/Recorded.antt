-- ===== src/Db/Recorded.antt =====
-- The updates of src/db/mysql_client.cpp, down to the rows of the tables.
pub mod Scripted
use flowstudy_judge.Common.{
  ℕ, suc, Bytes, bytes, Bool, true, false, ◌≡◌, refl, sym, ap, ◌∙◌, List, [], ◌∷◌, ◌++◌, map, foldl,
  foldl-append, All, Option, some, if◌then◌else◌, append_assoc, append-nil,
}
use flowstudy_judge.Db.{MySqlLib, MySqlClient, JudgeResult, JudgeCaseResult}
use flowstudy_judge.Db.Sql.{
  update_submission_sql, update_code_run_sql, insert_submission_case_sql, insert_code_run_case_sql,
  clear_submission_cases_sql, clear_code_run_cases_sql, update_problem_sql,
}
use flowstudy_judge.Db.Transaction.{submission_statements, code_run_statements}
use flowstudy_judge.Db.Atomic.{Transactions}
use flowstudy_judge.Db.Lexer.{outside, read, EscapesAsDocumented}
use flowstudy_judge.Db.Pieces.{Piece, tokens}
use flowstudy_judge.Db.Meaning.{
  update_submission_pieces, update_code_run_pieces, insert_case_pieces, with_id_pieces,
}
use flowstudy_judge.Db.Injection.{
  update_submission_sql-Read, insert_submission_case_sql-Read, with_id-Read,
  update_code_run_sql-Read, insert_code_run_case_sql-Read,
}
use flowstudy_judge.Db.Tables.{
  Tables, set_submission, clear_submission_cases, add_submission_case, count_accepted,
  submission_recorded, case_rows, case_row, is_counted, update_row, run_recorded, set_run,
  clear_run_cases, add_run_case,
}

-- A statement that a server reads as these pieces makes this of the tables.
abbrev pub Does :
    {Data : Type 0}
    → (Data → Bytes → Data)
    → (Data → Tables)
    → List Piece
    → (Tables → Tables)
    → Type 0
Does {Data} apply tables ps f =
    (s : Bytes) (d : Data) → read outside s ≡ some (tokens ps) → tables (apply d s) ≡ f (tables d)

-- A server whose data are the tables, and that does what the statements for this result say.
pub record Performs (l : MySqlLib) (conn : Option l.Handle) (t : Transactions l conn)
    (r : JudgeResult) : Type 0 where
  pub tables : t.Data → Tables
  pub sets_submission : Does t.apply tables (update_submission_pieces r) (set_submission r)
  pub sets_run : Does t.apply tables (update_code_run_pieces r) (set_run r)
  pub clears_submission :
      Does t.apply tables
        (with_id_pieces
          (bytes "DELETE FROM fs_judge_case_result WHERE submission_id = ")
          r.submission_id)
        (clear_submission_cases r.submission_id)
  pub clears_run :
      Does t.apply tables
        (with_id_pieces (bytes "DELETE FROM fs_code_run_case_result WHERE run_id = ") r.run_id)
        (clear_run_cases r.run_id)
  pub adds_submission_cases :
      All
        (λ item.
          Does t.apply tables
            (insert_case_pieces
              (bytes "INSERT INTO fs_judge_case_result (submission_id")
              r.submission_id
              item)
            (add_submission_case r.submission_id item))
        r.case_results
  pub adds_run_cases :
      All
        (λ item.
          Does t.apply tables
            (insert_case_pieces (bytes "INSERT INTO fs_code_run_case_result (run_id") r.run_id item)
            (add_run_case r.run_id item))
        r.case_results
  pub counts_accepted :
      Does t.apply tables
        (with_id_pieces
          (bytes "UPDATE fs_problem SET accepted_count = accepted_count + 1 WHERE id = ")
          r.problem_id)
        (count_accepted r.problem_id)

-- The case results that are added one after the other.
add_submission_cases :
    (id : ℕ) (items : List JudgeCaseResult) (t : Tables)
    → foldl (λ t item. add_submission_case id item t) t items ≡ record t {
      submission_cases = t.submission_cases ++ map (λ item. (id, case_row item)) items;
    }
add_submission_cases id [] t =
    ap (λ rows. record t { submission_cases = rows }) (sym (append-nil t.submission_cases))
add_submission_cases id (item ∷ items) t =
    add_submission_cases id items (add_submission_case id item t)
    ∙ ap (λ rows. record t { submission_cases = rows })
        (append_assoc t.submission_cases ((id, case_row item) ∷ []) _)

add_run_cases :
    (id : ℕ) (items : List JudgeCaseResult) (t : Tables)
    → foldl (λ t item. add_run_case id item t) t items
      ≡ record t { run_cases = t.run_cases ++ map (λ item. (id, case_row item)) items }
add_run_cases id [] t = ap (λ rows. record t { run_cases = rows }) (sym (append-nil t.run_cases))
add_run_cases id (item ∷ items) t =
    add_run_cases id items (add_run_case id item t)
    ∙ ap (λ rows. record t { run_cases = rows })
        (append_assoc t.run_cases ((id, case_row item) ∷ []) _)

module _ (l : MySqlLib) (c : MySqlClient l) (documented : EscapesAsDocumented l c.conn)
    (t : Transactions l c.conn) (r : JudgeResult) (v : Performs l c.conn t r) where
  open v use {tables}

  inserted :
      (insert_sql : JudgeCaseResult → Bytes) (pieces : JudgeCaseResult → List Piece)
      (add : JudgeCaseResult → Tables → Tables) (items : List JudgeCaseResult) (d : t.Data)
      → ((item : JudgeCaseResult) → read outside (insert_sql item) ≡ some (tokens (pieces item)))
      → All (λ item. Does t.apply tables (pieces item) (add item)) items
      → tables (foldl t.apply d (map insert_sql items))
        ≡ foldl (λ x item. add item x) (tables d) items
  inserted insert_sql pieces add [] d reads h = refl
  inserted insert_sql pieces add (item ∷ items) d reads h =
      inserted insert_sql pieces add items (t.apply d (insert_sql item)) reads h.1
      ∙ ap (λ x. foldl (λ x item. add item x) x items) (h.0 (insert_sql item) d (reads item))

  counted :
      (b : Bool) (d : t.Data)
      → tables (foldl t.apply d (if b then update_problem_sql r ∷ [] else []))
        ≡ (if b then count_accepted r.problem_id (tables d) else tables d)
  unfolding update_problem_sql
  counted true d = v.counts_accepted (update_problem_sql r) d (
      with_id-Read l c documented
        (bytes "UPDATE fs_problem SET accepted_count = accepted_count + 1 WHERE id = ") r.problem_id
        refl)
  counted false d = refl

  -- The count of the problem, as one field.
  count_field :
      (b : Bool) (x : Tables)
      → (if b then count_accepted r.problem_id x else x)
        ≡ record x { accepted = if b then update_row r.problem_id suc x.accepted else x.accepted }
  count_field true x = refl
  count_field false x = refl

  pub submission_statements-recorded :
      (d : t.Data)
      → tables (foldl t.apply d (submission_statements l c r)) ≡ submission_recorded r (tables d)
  unfolding clear_submission_cases_sql
  submission_statements-recorded d =
      let set = update_submission_sql l c.conn r in
      let clear = clear_submission_cases_sql r in
      let insert_sql = insert_submission_case_sql l c.conn r in
      let d₁ = t.apply d set in
      let d₂ = t.apply d₁ clear in
      let d₃ = foldl t.apply d₂ (map insert_sql r.case_results) in
      let is_set = v.sets_submission set d (update_submission_sql-Read l c documented r) in
      let is_clear = v.clears_submission clear d₁ (
        with_id-Read l c documented
          (bytes "DELETE FROM fs_judge_case_result WHERE submission_id = ") r.submission_id refl) in
      let are_added =
        inserted insert_sql _ _ r.case_results d₂ (insert_submission_case_sql-Read l c documented r)
          v.adds_submission_cases
        ∙ add_submission_cases r.submission_id r.case_results (tables d₂) in
      ap tables (foldl-append t.apply d₂ (map insert_sql r.case_results) _)
      ∙ counted (is_counted r) d₃
      ∙ count_field (is_counted r) (tables d₃)
      ∙ ap
          (λ (x : Tables). record x {
            accepted = if is_counted r then update_row r.problem_id suc x.accepted else x.accepted;
          })
          (are_added
            ∙ ap
                (λ (x : Tables). record x {
                  submission_cases = x.submission_cases ++ case_rows r.submission_id r;
                })
                (is_clear ∙ ap (clear_submission_cases r.submission_id) is_set))

  pub code_run_statements-recorded :
      (d : t.Data)
      → tables (foldl t.apply d (code_run_statements l c r)) ≡ run_recorded r (tables d)
  unfolding clear_code_run_cases_sql
  code_run_statements-recorded d =
      let set = update_code_run_sql l c.conn r in
      let clear = clear_code_run_cases_sql r in
      let insert_sql = insert_code_run_case_sql l c.conn r in
      let d₁ = t.apply d set in
      let d₂ = t.apply d₁ clear in
      let is_set = v.sets_run set d (update_code_run_sql-Read l c documented r) in
      let is_clear = v.clears_run clear d₁ (
        with_id-Read l c documented (bytes "DELETE FROM fs_code_run_case_result WHERE run_id = ")
          r.run_id refl) in
      inserted insert_sql _ _ r.case_results d₂ (insert_code_run_case_sql-Read l c documented r)
        v.adds_run_cases
      ∙ add_run_cases r.run_id r.case_results (tables d₂)
      ∙ ap (λ (x : Tables). record x { run_cases = x.run_cases ++ case_rows r.run_id r })
          (is_clear ∙ ap (clear_run_cases r.run_id) is_set)
