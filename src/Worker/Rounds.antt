-- ===== src/Worker/Rounds.antt =====
-- `Worker::on_message` of src/worker/worker.cpp after a delivery, against the rounds of Worker/Spec.
use flowstudy_judge.Common.{
  ℕ, Bytes, bytes, bytes_eq, Bool, true, false, ◌≡◌, refl, sym, ap, ◌∙◌, subst, arith, some, M,
  Outcome, done, hung, threw, Bool-cases, Option-cases, inl, inr,
}
use flowstudy_judge.Judge.Data.{SubmissionMessage, JudgeResultInternal}
use flowstudy_judge.Judge.Message.{parse_message}
use flowstudy_judge.Judge.Engine.{JudgeState, judge}
use flowstudy_judge.Db.{MySqlClient, JudgeResult}
use flowstudy_judge.Db.Update.{update_submission, update_code_run}
use flowstudy_judge.Db.Builds.{Refuses}
use flowstudy_judge.Db.Atomic.{Committed}
use flowstudy_judge.Db.Server.{Server, session, IsIdle}
use flowstudy_judge.Db.Idle.{update_submission-closes, update_code_run-closes, ping-Rests}
use flowstudy_judge.Mq.{RabbitMqClient, delivery}
use flowstudy_judge.Worker.{Libs, WorkerState, db_result, on_db, write_result, on_message}
use flowstudy_judge.Worker.Settle.{
  acked, requeued, judged, result_statements, on_message_discards, on_message-threw,
  on_message-hung, write_result-AllOrNothing, answered, handle-answered,
}
use flowstudy_judge.Worker.Spec.{
  view, Replies, Round, discards, records, requeues, requeues_written,
}

module _ (l : Libs) where
  on_db-eq-done :
      {A : Type 0} (m : MySqlClient l.mysql → M l.mysql.World A) (s t : WorkerState l) (a : A)
      → on_db l m s ≡ done a t
      → (w : l.mysql.World) × (m s.db s.db.world ≡ done a w) × (t.db ≡ record (s.db) { world = w })
  on_db-eq-done {A} m s t a = go (m s.db s.db.world)
    where
      go :
          (o : Outcome l.mysql.World A)
          → on_db l (λ _ _. o) s ≡ done a t
          → (w : l.mysql.World) × (o ≡ done a w) × (t.db ≡ record (s.db) { world = w })
      go (done b w) e = (w, ground arith, ground arith)
      go (threw w) e = absurd cc
      go (hung w) e = absurd cc

module _ (l : Libs) (v : Server l.mysql) where
  write_result-closes :
      (sub : SubmissionMessage) (r : JudgeResult) (s t : WorkerState l) (b : Bool)
      → IsIdle l.mysql v s.db
      → write_result l sub r s ≡ done b t
      → IsIdle l.mysql v t.db
  unfolding write_result
  write_result-closes sub r s t b o h = elim (Bool-cases (bytes_eq sub.task_type (bytes "RUN"))) [
    | inl e ↦
        let (w, ends, same) =
          on_db-eq-done l (λ c. update_code_run l.mysql c r) s t b (rw e at h) in
        subst (IsIdle l.mysql v) (sym same)
          (update_code_run-closes l.mysql v s.db r s.db.world w b o ends)
    | inr e ↦
        let (w, ends, same) =
          on_db-eq-done l (λ c. update_submission l.mysql c r) s t b (rw e at h) in
        subst (IsIdle l.mysql v) (sym same)
          (update_submission-closes l.mysql v s.db r s.db.world w b o ends)
  ]

  -- A round that starts from `s` and ends, idle, in `t`.
  abbrev pub Rounded : WorkerState l → WorkerState l → Type 0
  Rounded s t = Round l v (view l v s) (view l v t) × IsIdle l.mysql v t.db

  module _ (s : WorkerState l) (c : RabbitMqClient l.amqp) (tag : ℕ) (body : Bytes)
      (reply : Replies l v s.mq c (delivery tag body)) (idle : IsIdle l.mysql v s.db) where
    abbrev pub received : WorkerState l
    received = record s { mq = c }

    -- How the handling of the delivery ends.
    pub data Handled (o : Outcome (WorkerState l) (Unit {0})) : Type 0 where
      returned : (t : WorkerState l) → o ≡ done tt t → Rounded s t → Handled o
      thrown :
          (sub : SubmissionMessage) (j : JudgeState l.platform.World)
          → parse_message l.json body ≡ some sub
          → judge l.platform s.cfg.isolate sub s.judging ≡ threw j
          → o ≡ threw (record received { judging = j })
          → Handled o
      unescaped :
          (sub : SubmissionMessage) (out : JudgeResultInternal) (j : JudgeState l.platform.World)
          (db : MySqlClient l.mysql) (w : l.mysql.World) (t : WorkerState l)
          → parse_message l.json body ≡ some sub
          → judge l.platform s.cfg.isolate sub s.judging ≡ done out j
          → Refuses l.mysql db.conn w
          → o ≡ threw t
          → view l v t ≡ record (view l v s) { mq = c; judging = j }
          → Handled o
      blocked :
          (sub : SubmissionMessage) (j : JudgeState l.platform.World)
          → parse_message l.json body ≡ some sub
          → judge l.platform s.cfg.isolate sub s.judging ≡ hung j
          → o ≡ hung (record received { judging = j })
          → Handled o

    module _ (sub : SubmissionMessage) (out : JudgeResultInternal) (j : JudgeState l.platform.World)
        (parses : parse_message l.json body ≡ some sub)
        (judges : judge l.platform s.cfg.isolate sub s.judging ≡ done out j) where
      -- The state before the result is written.
      abbrev writing : WorkerState l
      writing = judged l received j

      -- Each end of the update is one of these.
      answered-Handled :
          (x : Outcome l.mysql.World Bool)
          → on_message l tag body received ≡ answered l tag writing x
          → ((w : l.mysql.World) (b : Bool) → x ≡ done b w → v.is_open writing.db.conn w ≡ false)
          → v.committed writing.db.world ≡ v.committed s.db.world
          → Committed l.mysql writing.db
              (session l.mysql v writing.db.conn)
              (result_statements l writing.db sub (db_result sub out))
              writing.db.world
              x
          → Handled (on_message l tag body received)
      unfolding session
      answered-Handled (done true w) ends closes kept commits = returned _ ends (
        records c tag body sub out j writing.db reply parses judges (
            ap (λ rows. record (view l v s) { mq = acked l tag c; judging = j; rows = rows })
              (rw kept at commits)),
        closes w true refl,
      )
      answered-Handled (done false w) ends closes kept (inl same) = returned _ ends (
        requeues c tag body sub out j reply parses judges (
            ap (λ rows. record (view l v s) { mq = requeued l tag c; judging = j; rows = rows })
              (same ∙ kept)),
        closes w false refl,
      )
      answered-Handled (done false w) ends closes kept (inr (failed, commits)) = returned _ ends (
        requeues_written c tag body sub out j writing.db w reply parses judges failed (
            ap (λ rows. record (view l v s) { mq = requeued l tag c; judging = j; rows = rows })
              (rw kept at commits)),
        closes w false refl,
      )
      answered-Handled (threw w) ends closes kept (same, refuses) =
          unescaped sub out j writing.db w _ parses judges refuses ends
            (ap (λ rows. record (view l v s) { mq = c; judging = j; rows = rows }) (same ∙ kept))
      answered-Handled (hung w) ends closes kept x = absurd x

      judged-Handled : Handled (on_message l tag body received)
      unfolding on_message session
      judged-Handled =
          let r = db_result sub out in
          let (kept, closed) = ping-Rests l.mysql v s.db idle in
          let (x, writes, commits) =
            write_result-AllOrNothing l sub r writing (session l.mysql v writing.db.conn) closed in
          let ends = handle-answered l tag sub out received j x judges writes in
          answered-Handled x (rw (parses, on_message) ends)
            (λ w b e.
              write_result-closes sub r writing
                (record writing { db = record (writing.db) { world = w } }) b closed
                (writes ∙ ap (λ x. on_db l (λ _ _. x) writing) e))
            kept commits

    pub message-Handled : Handled (on_message l tag body received)
    message-Handled = elim (Option-cases (parse_message l.json body)) [
      | inl e ↦
          returned _ (on_message_discards l tag body received e)
            (discards c tag body reply e refl, idle)
      | inr (sub, e) ↦ judging (judge l.platform s.cfg.isolate sub s.judging) sub refl e
    ]
      where
        judging :
            (o : Outcome (JudgeState l.platform.World) JudgeResultInternal)
            → (sub : SubmissionMessage) → judge l.platform s.cfg.isolate sub s.judging ≡ o
            → parse_message l.json body ≡ some sub
            → Handled (on_message l tag body received)
        judging (done out j) sub judges e = judged-Handled sub out j e judges
        judging (threw j) sub throws e =
            thrown sub j e throws (on_message-threw l tag body received sub j e throws)
        judging (hung j) sub hangs e =
            blocked sub j e hangs (on_message-hung l tag body received sub j e hangs)
