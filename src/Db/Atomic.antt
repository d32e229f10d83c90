-- ===== src/Db/Atomic.antt =====
-- What the two updates of src/db/mysql_client.cpp do to the committed data, given the documented
-- behaviour of transactions.
use flowstudy_judge.Common.{
  Bytes, bytes, Bool, true, false, ◌≡◌, ◌⊎◌, Outcome, threw, hung, ◌>>=◌, ap, refl, sym, subst, ◌∙◌,
  inl, inr, List, [], ◌∷◌, ◌++◌, foldl, All, Bool-cases, M, done, append_assoc, append-nil, Option,
}
use flowstudy_judge.Db.{MySqlLib, MySqlClient, JudgeResult}
use flowstudy_judge.Db.Builds.{
  AllBuild, BuiltAs, Refuses, submission_builds-AllBuild, code_run_builds-AllBuild,
}
use flowstudy_judge.Db.Update.{
  or_rollback, build_or_rollback, in_transaction, update_submission, update_code_run,
}
use flowstudy_judge.Db.Transaction.{
  submission_statements, code_run_statements, submission_builds, code_run_builds, run_statements,
  update_submission-run_statements, update_code_run-run_statements,
}
use flowstudy_judge.Db.RowChange.{IsRowChange, submission_statements-All, code_run_statements-All}

-- InnoDB, seen from one connection: the committed data, and the statements of the open transaction.
pub record Transactions (l : MySqlLib) (conn : Option l.Handle) : Type 1 where
  pub Data : Type 0
  pub apply : Data → Bytes → Data
  pub committed : l.World → Data
  pub is_open : l.World → Bool
  pub pending : l.World → List Bytes
  -- START TRANSACTION outside a transaction opens one with no statements.
  pub start_opens :
      (w : l.World)
      → is_open w ≡ false
      → (l.query conn (bytes "START TRANSACTION") w).0 ≡ true
      → (is_open (l.query conn (bytes "START TRANSACTION") w).1 ≡ true)
        × (pending (l.query conn (bytes "START TRANSACTION") w).1 ≡ [])
  pub start_keeps :
      (w : l.World)
      → is_open w ≡ false
      → committed (l.query conn (bytes "START TRANSACTION") w).1 ≡ committed w
  -- A row change inside a transaction is not committed; if it succeeds it is pending.
  pub change_keeps :
      (s : Bytes) (w : l.World)
      → IsRowChange s
      → is_open w ≡ true
      → committed (l.query conn s w).1 ≡ committed w
  pub change_pends :
      (s : Bytes) (w : l.World)
      → IsRowChange s
      → is_open w ≡ true
      → (l.query conn s w).0 ≡ true
      → (is_open (l.query conn s w).1 ≡ true) × (pending (l.query conn s w).1 ≡ pending w ++ s ∷ [])
  -- ROLLBACK commits nothing, and COMMIT commits all that is pending. If it reports a failure, it has
  -- committed all or nothing: the answer can be lost with the connection.
  pub rollback_keeps : (w : l.World) → committed (l.query conn (bytes "ROLLBACK") w).1 ≡ committed w
  pub commit_applies :
      (w : l.World)
      → is_open w ≡ true
      → (l.query conn (bytes "COMMIT") w).0 ≡ true
      → committed (l.query conn (bytes "COMMIT") w).1 ≡ foldl apply (committed w) (pending w)
  pub commit_fails :
      (w : l.World)
      → is_open w ≡ true
      → (l.query conn (bytes "COMMIT") w).0 ≡ false
      → (committed (l.query conn (bytes "COMMIT") w).1 ≡ committed w)
        ⊎ (committed (l.query conn (bytes "COMMIT") w).1 ≡ foldl apply (committed w) (pending w))

module _ (l : MySqlLib) (c : MySqlClient l) where
  -- The world after a statement.
  abbrev pub after : Bytes → l.World → l.World
  after s w = (l.query c.conn s w).1

  -- The call ended with a COMMIT that reported a failure, and a ROLLBACK.
  abbrev pub CommitFailed : l.World → Type 0
  CommitFailed w' =
      (w : l.World) × ((l.query c.conn (bytes "COMMIT") w).0 ≡ false)
      × (w' ≡ after (bytes "ROLLBACK") (after (bytes "COMMIT") w))

module _ (l : MySqlLib) (c : MySqlClient l) (t : Transactions l c.conn) where
  open t use {Data, apply, committed, is_open, pending}

  -- What has been committed where the call ends so, of these statements from the world `w` on.
  abbrev pub Committed : List Bytes → l.World → Outcome l.World Bool → Type 0
  Committed ss w (done true w') = committed w' ≡ foldl apply (committed w) ss
  Committed ss w (done false w') =
      (committed w' ≡ committed w)
      ⊎ (CommitFailed l c w' × (committed w' ≡ foldl apply (committed w) ss))
  Committed ss w (threw w') = (committed w' ≡ committed w) × Refuses l c.conn w'
  Committed ss w (hung w') = ⊥

  abbrev pub AllOrNothing : M l.World Bool → List Bytes → l.World → Type 0
  AllOrNothing m ss w = Committed ss w (m w)

  pub or_rollback-true :
      (s : Bytes) (next : M l.World Bool) (w : l.World)
      → (l.query c.conn s w).0 ≡ true
      → or_rollback l c s next w ≡ next (after l c s w)
  unfolding or_rollback
  or_rollback-true s next w e = rw e

  pub or_rollback-false :
      (s : Bytes) (next : M l.World Bool) (w : l.World)
      → (l.query c.conn s w).0 ≡ false
      → or_rollback l c s next w ≡ done false (after l c (bytes "ROLLBACK") (after l c s w))
  unfolding or_rollback
  or_rollback-false s next w e = rw e

  -- From a world with the same data and other statements to come, to the same end.
  Committed-shift :
      (ss ss' : List Bytes) (w u : l.World) (o : Outcome l.World Bool)
      → committed u ≡ committed w
      → ss ≡ ss'
      → Committed ss u o
      → Committed ss' w o
  Committed-shift ss ss' w u (done true w') e same h = rw (e, same) at h
  Committed-shift ss ss' w u (done false w') e same (inl h) = inl (h ∙ e)
  Committed-shift ss ss' w u (done false w') e same (inr (lost, h)) = inr (lost, rw (e, same) at h)
  Committed-shift ss ss' w u (threw w') e same (h, refuses) = (h ∙ e, refuses)
  Committed-shift ss ss' w u (hung w') e same h = h

  -- A statement that has been built, and the others.
  sent-AllOrNothing :
      (s : Bytes) (next : M l.World Bool) (ss : List Bytes) (w : l.World)
      → IsRowChange s
      → is_open w ≡ true
      → ((u : l.World) → is_open u ≡ true → AllOrNothing next (pending u ++ ss) u)
      → AllOrNothing (or_rollback l c s next) (pending w ++ s ∷ ss) w
  sent-AllOrNothing s next ss w change o ih =
      let kept = t.change_keeps s w change o in
      elim (Bool-cases (l.query c.conn s w).0) [
        | inl e ↦
            let (o', pends) = t.change_pends s w change o e in
            subst (Committed (pending w ++ s ∷ ss) w) (sym (or_rollback-true s next w e)) (
              Committed-shift _ _ w (after l c s w) _ kept
                (ap (λ x. x ++ ss) pends ∙ append_assoc (pending w) (s ∷ []) ss)
                (ih (after l c s w) o'))
        | inr e ↦
            subst (Committed (pending w ++ s ∷ ss) w) (sym (or_rollback-false s next w e))
              (inl (t.rollback_keeps (after l c s w) ∙ kept))
      ]

  run_statements-AllOrNothing :
      (ms : List (M l.World Bytes)) (ss : List Bytes) (w : l.World)
      → AllBuild l c.conn ms ss
      → All IsRowChange ss
      → is_open w ≡ true
      → AllOrNothing (run_statements l c ms) (pending w ++ ss) w
  unfolding run_statements build_or_rollback
  run_statements-AllOrNothing [] [] w built h o =
      let sql = bytes "COMMIT" in
      let same = ap (foldl apply (committed w)) (sym (append-nil (pending w))) in
      let rolled = t.rollback_keeps (after l c sql w) in
      elim (Bool-cases (l.query c.conn sql w).0) [
        | inl e ↦
            subst (Committed (pending w ++ []) w) (sym (or_rollback-true sql _ w e))
              (t.commit_applies w o e ∙ same)
        | inr e ↦
            subst (Committed (pending w ++ []) w) (sym (or_rollback-false sql _ w e))
              (elim (t.commit_fails w o e) [
                | inl none_of_it ↦ inl (rolled ∙ none_of_it)
                | inr all_of_it ↦ inr ((w, e, refl), rolled ∙ all_of_it ∙ same)
              ])
      ]
  run_statements-AllOrNothing [] (s ∷ ss) w built h o = absurd built
  run_statements-AllOrNothing (m ∷ ms) [] w built h o = absurd built
  run_statements-AllOrNothing (m ∷ ms) (s ∷ ss) w (built, rest) h o =
      go (m w) (built w) (λ u o'. run_statements-AllOrNothing ms ss u rest h.1 o')
    where
      go :
          (x : Outcome l.World Bytes)
          → BuiltAs l c.conn s w x
          → ((u : l.World)
              → is_open u ≡ true
              → AllOrNothing (run_statements l c ms) (pending u ++ ss) u)
          → Committed
              (pending w ++ s ∷ ss)
              w
              (◌>>=◌ (λ _. x) (λ sql. or_rollback l c sql (run_statements l c ms)) w)
      go (done a w') (text, same) ih =
          rw (text, same) (sent-AllOrNothing s (run_statements l c ms) ss w h.0 o ih)
      go (threw w') (same, refuses) ih =
          (ap committed same, subst (Refuses l c.conn) (sym same) refuses)
      go (hung w') x ih = absurd x

  pub in_transaction-started :
      (body : M l.World Bool) (w : l.World)
      → c.connected ≡ true
      → (l.query c.conn (bytes "START TRANSACTION") w).0 ≡ true
      → in_transaction l c body w ≡ body (after l c (bytes "START TRANSACTION") w)
  unfolding in_transaction
  in_transaction-started body w e started = simp (e, started)

  pub in_transaction_lost :
      (body : M l.World Bool) (w : l.World)
      → c.connected ≡ false
      → in_transaction l c body w ≡ done false w
  unfolding in_transaction
  in_transaction_lost body w e = rw e

  pub in_transaction_refused :
      (body : M l.World Bool) (w : l.World)
      → c.connected ≡ true
      → (l.query c.conn (bytes "START TRANSACTION") w).0 ≡ false
      → in_transaction l c body w ≡ done false (after l c (bytes "START TRANSACTION") w)
  unfolding in_transaction
  in_transaction_refused body w e f = simp (e, f)

  in_transaction-AllOrNothing :
      (ms : List (M l.World Bytes)) (ss : List Bytes) (w : l.World)
      → AllBuild l c.conn ms ss
      → All IsRowChange ss
      → is_open w ≡ false
      → AllOrNothing (in_transaction l c (run_statements l c ms)) ss w
  in_transaction-AllOrNothing ms ss w built h o =
      let body = run_statements l c ms in
      let sql = bytes "START TRANSACTION" in
      let kept = t.start_keeps w o in
      elim (Bool-cases c.connected) [
        | inr e ↦ subst (Committed ss w) (sym (in_transaction_lost body w e)) (inl refl)
        | inl e ↦ elim (Bool-cases (l.query c.conn sql w).0) [
          | inr refused ↦
              subst (Committed ss w) (sym (in_transaction_refused body w e refused)) (inl kept)
          | inl started ↦
              let (o', pends) = t.start_opens w o started in
              subst (Committed ss w) (sym (in_transaction-started body w e started)) (
                Committed-shift _ _ w (after l c sql w) _ kept (ap (λ x. x ++ ss) pends)
                  (run_statements-AllOrNothing ms ss (after l c sql w) built h o'))
        ]
      ]

  -- Given the documented behaviour of transactions, and no open transaction, `update_submission`
  -- returns, or an exception leaves it. If it returns true, then the verdict, the removal of the old case
  -- results, every new case result and, for an accepted submission of a known problem, its count are all
  -- committed, in this order. If it returns false, nothing of this is committed, or all, and then it
  -- ended with a COMMIT that reported a failure. If an exception leaves it, nothing is committed, and the
  -- escaping of a value reports an error.
  pub update_submission-AllOrNothing :
      (r : JudgeResult) (w : l.World)
      → is_open w ≡ false
      → AllOrNothing (update_submission l c r) (submission_statements l c r) w
  update_submission-AllOrNothing r w o =
      subst (λ m. AllOrNothing m (submission_statements l c r) w)
        (sym (update_submission-run_statements l c r))
        (in_transaction-AllOrNothing (submission_builds l c r) (submission_statements l c r) w
          (submission_builds-AllBuild l c r) (submission_statements-All l c r) o)

  -- Given the documented behaviour of transactions, and no open transaction, `update_code_run`
  -- returns, or an exception leaves it. If it returns true, then the verdict of the run, the removal of
  -- its old case results and every new case result are all committed, in this order. If it returns false,
  -- nothing of this is committed, or all, and then it ended with a COMMIT that reported a failure. If an
  -- exception leaves it, nothing is committed, and the escaping of a value reports an error.
  pub update_code_run-AllOrNothing :
      (r : JudgeResult) (w : l.World)
      → is_open w ≡ false
      → AllOrNothing (update_code_run l c r) (code_run_statements l c r) w
  update_code_run-AllOrNothing r w o =
      subst (λ m. AllOrNothing m (code_run_statements l c r) w)
        (sym (update_code_run-run_statements l c r))
        (in_transaction-AllOrNothing (code_run_builds l c r) (code_run_statements l c r) w
          (code_run_builds-AllBuild l c r) (code_run_statements-All l c r) o)
