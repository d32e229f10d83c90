-- ===== src/Db/Twice.antt =====
-- What the updates of src/db/mysql_client.cpp leave in the tables, once and when a delivery is handled
-- again.
mod Tests
use flowstudy_judge.Common.{
  ℕ, suc, Bool, true, false, not, ◌==◌, ◌≡◌, refl, sym, ap, ap₂, ◌∙◌, arith, List, [], ◌∷◌, ◌++◌,
  keep-append, keep-keep, map, foldl, Bytes, Option, none, some, if◌then◌else◌, append-nil, M,
  Outcome, done, threw, hung, ◌⊎◌, inl, inr, subst,
}
use flowstudy_judge.Db.{MySqlLib, MySqlClient, JudgeResult, JudgeCaseResult}
use flowstudy_judge.Db.Update.{update_submission, update_code_run}
use flowstudy_judge.Db.Transaction.{submission_statements, code_run_statements}
use flowstudy_judge.Db.Atomic.{
  Transactions, Committed, CommitFailed, update_submission-AllOrNothing,
  update_code_run-AllOrNothing,
}
use flowstudy_judge.Db.Builds.{Refuses}
use flowstudy_judge.Db.Lexer.{EscapesAsDocumented}
use flowstudy_judge.Db.Recorded.{
  Performs, submission_statements-recorded, code_run_statements-recorded,
}
use flowstudy_judge.Db.Tables.{
  Tables, CaseRow, case_row, submission_row, run_row, others, case_rows, is_counted, counted,
  update_row, submission_recorded, run_recorded,
}

-- An update of a row to a fixed value, done twice.
update_row-twice :
    {Row : Type 0} (id : ℕ) (row : Row) (rows : ℕ → Option Row)
    → update_row id (λ _. row) (update_row id (λ _. row) rows) ≡ update_row id (λ _. row) rows
update_row-twice {Row} id row rows = λ i n. at n (rows n) i
  where
    at :
        (n : ℕ) (o : Option Row)
        → update_row id (λ _. row) (update_row id (λ _. row) (λ _. o)) n
          ≡ update_row id (λ _. row) (λ _. o) n
    at n none = refl
    at n (some x) = ground arith

-- The rows of an id that are replaced twice.
others-case_rows :
    (id : ℕ) (r : JudgeResult) (rows : List (ℕ × CaseRow))
    → others id (others id rows ++ case_rows id r) ++ case_rows id r
      ≡ others id rows ++ case_rows id r
others-case_rows id r rows =
    ap (λ xs. xs ++ case_rows id r)
      (keep-append (λ row. not (row.0 == id)) (others id rows) (case_rows id r)
        ∙ ap₂ ◌++◌ (keep-keep (λ row. not (row.0 == id)) rows) (none_left r.case_results)
        ∙ append-nil (others id rows))
  where
    none_left :
        (items : List JudgeCaseResult) → others id (map (λ item. (id, case_row item)) items) ≡ []
    none_left [] = refl
    none_left (item ∷ items) = ground (arith, none_left items)

-- The tables where the submission has been recorded once more.
pub submission_recorded-twice :
    (r : JudgeResult) (x : Tables)
    → submission_recorded r (submission_recorded r x) ≡ counted r (submission_recorded r x)
submission_recorded-twice r x =
    let once = submission_recorded r x in
    ap₂
      (λ rows cases. record x {
        submissions = rows;
        submission_cases = cases;
        accepted =
            if is_counted r then update_row r.problem_id suc once.accepted else once.accepted;
      })
      (update_row-twice r.submission_id (submission_row r) x.submissions)
      (others-case_rows r.submission_id r x.submission_cases)

pub run_recorded-twice :
    (r : JudgeResult) (x : Tables) → run_recorded r (run_recorded r x) ≡ run_recorded r x
run_recorded-twice r x =
    ap₂ (λ rows cases. record x { runs = rows; run_cases = cases })
      (update_row-twice r.run_id (run_row r) x.runs) (others-case_rows r.run_id r x.run_cases)

module _ (l : MySqlLib) (c : MySqlClient l) (documented : EscapesAsDocumented l c.conn)
    (t : Transactions l c.conn) (r : JudgeResult) (v : Performs l c.conn t r) where
  open v use {tables}

  -- What has become of the tables where a call that makes this of them ends so.
  abbrev pub Recorded : (Tables → Tables) → l.World → Outcome l.World Bool → Type 0
  Recorded f w (done true w') = tables (t.committed w') ≡ f (tables (t.committed w))
  Recorded f w (done false w') =
      (tables (t.committed w') ≡ tables (t.committed w))
      ⊎ (CommitFailed l c w' × (tables (t.committed w') ≡ f (tables (t.committed w))))
  Recorded f w (threw w') = (tables (t.committed w') ≡ tables (t.committed w)) × Refuses l c.conn w'
  Recorded f w (hung w') = ⊥

  abbrev pub Records : (Tables → Tables) → M l.World Bool → l.World → Type 0
  Records f m w = Recorded f w (m w)

  Committed-Recorded :
      (ss : List Bytes) (f : Tables → Tables) (w : l.World) (o : Outcome l.World Bool)
      → ((d : t.Data) → tables (foldl t.apply d ss) ≡ f (tables d))
      → Committed l c t ss w o
      → Recorded f w o
  Committed-Recorded ss f w (done true w') performed h = ap tables h ∙ performed (t.committed w)
  Committed-Recorded ss f w (done false w') performed (inl h) = inl (ap tables h)
  Committed-Recorded ss f w (done false w') performed (inr (lost, h)) =
      inr (lost, ap tables h ∙ performed (t.committed w))
  Committed-Recorded ss f w (threw w') performed (h, refuses) = (ap tables h, refuses)
  Committed-Recorded ss f w (hung w') performed h = h

  -- If transactions and escaping are as documented, and the server does what the statements say that
  -- it reads, then both updates return, or an exception leaves them. If `update_submission` returns true,
  -- then exactly this has become of the committed tables: the row of the submission, if there is one,
  -- holds the status, the score 100 if that is ACCEPTED and else 0, the figures and the messages; its old
  -- case results are gone, and those of this result stand behind the ones of other submissions, in their
  -- order; and the count of the problem is one more if the submission is accepted and the problem is
  -- known. Likewise `update_code_run` for a run, without score and count. If an update returns false, then
  -- no table has changed, or exactly this has become of them and it ended with a COMMIT that reported a
  -- failure. If an exception leaves it, then no table has changed, and the escaping of a value reports an
  -- error.
  pub updates-Records :
      (w : l.World)
      → t.is_open w ≡ false
      → Records (submission_recorded r) (update_submission l c r) w
        × Records (run_recorded r) (update_code_run l c r) w
  updates-Records w closed = (
    Committed-Recorded (submission_statements l c r) (submission_recorded r) w
        (update_submission l c r w) (submission_statements-recorded l c documented t r v)
        (update_submission-AllOrNothing l c t r w closed),
    Committed-Recorded (code_run_statements l c r) (run_recorded r) w (update_code_run l c r w)
        (code_run_statements-recorded l c documented t r v)
        (update_code_run-AllOrNothing l c t r w closed),
  )

  Records-true :
      (f : Tables → Tables) (m : M l.World Bool) (w w' : l.World)
      → Records f m w
      → m w ≡ done true w'
      → tables (t.committed w') ≡ f (tables (t.committed w))
  Records-true f m w w' h e = subst (Recorded f w) e h

  -- If transactions and escaping are as documented, and the server does what the statements say that
  -- it reads, then a result that `update_submission` writes a second time, with nothing committed in
  -- between and both calls returning true, leaves every table as the first call left it, except that an
  -- accepted submission of a known problem is counted once more.
  pub update_submission-twice :
      (w w₁ u u₁ : l.World)
      → t.is_open w ≡ false
      → update_submission l c r w ≡ done true w₁
      → t.is_open u ≡ false
      → t.committed u ≡ t.committed w₁
      → update_submission l c r u ≡ done true u₁
      → tables (t.committed u₁) ≡ counted r (tables (t.committed w₁))
  update_submission-twice w w₁ u u₁ closed first closed' same second =
      let records = updates-Records w closed in
      let records' = updates-Records u closed' in
      let once =
        Records-true (submission_recorded r) (update_submission l c r) w w₁ records.0 first in
      Records-true (submission_recorded r) (update_submission l c r) u u₁ records'.0 second
      ∙ ap (λ d. submission_recorded r (tables d)) same
      ∙ ap (submission_recorded r) once
      ∙ submission_recorded-twice r (tables (t.committed w))
      ∙ sym (ap (counted r) once)
