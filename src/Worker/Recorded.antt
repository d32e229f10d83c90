-- ===== src/Worker/Recorded.antt =====
-- `Worker::on_message` of src/worker/worker.cpp, down to the rows of the tables.
mod Tests
use flowstudy_judge.Common.{ℕ, bytes, bytes_eq, ◌≡◌, if◌then◌else◌, done, threw, Outcome, if-elim}
use flowstudy_judge.Judge.Data.{SubmissionMessage, JudgeResultInternal}
use flowstudy_judge.Judge.Engine.{JudgeState}
use flowstudy_judge.Db.{JudgeResult}
use flowstudy_judge.Db.Atomic.{Transactions, CommitFailed}
use flowstudy_judge.Db.Builds.{Refuses}
use flowstudy_judge.Db.Recorded.{Performs}
use flowstudy_judge.Db.Tables.{Tables, submission_recorded, run_recorded}
use flowstudy_judge.Worker.{Libs, WorkerState, db_result}
use flowstudy_judge.Worker.Settle.{acked, requeued, judged}

-- What the result of a message makes of the tables.
abbrev pub result_recorded : SubmissionMessage → JudgeResult → Tables → Tables
result_recorded sub r t =
    if bytes_eq sub.task_type (bytes "RUN") then run_recorded r t else submission_recorded r t

module _ (l : Libs) where
  module _ (tag : ℕ) (s : WorkerState l) (sub : SubmissionMessage) (out : JudgeResultInternal)
      (t : JudgeState l.platform.World) (tx : Transactions l.mysql (judged l s t).db.conn)
      (v : Performs l.mysql (judged l s t).db.conn tx (db_result sub out)) where
    -- The tables when the connection has been checked.
    abbrev before : Tables
    before = v.tables (tx.committed (judged l s t).db.world)

    -- The tables with the result, of the run for a task of type RUN and else of the submission.
    abbrev with_result : Tables
    with_result = result_recorded sub (db_result sub out) before

    abbrev tables_of : WorkerState l → Tables
    tables_of s' = v.tables (tx.committed s'.db.world)

    -- How the handling of the delivery ends.
    pub data Recorded (o : Outcome (WorkerState l) (Unit {0})) : Type 0 where
      recorded :
          (s' : WorkerState l)
          → o ≡ done tt s'
          → s'.mq ≡ acked l tag s.mq
          → tables_of s' ≡ with_result
          → s'.judging ≡ t
          → Recorded o
      unrecorded :
          (s' : WorkerState l)
          → o ≡ done tt s'
          → s'.mq ≡ requeued l tag s.mq
          → tables_of s' ≡ before
          → s'.judging ≡ t
          → Recorded o
      recorded_unknown :
          (s' : WorkerState l)
          → o ≡ done tt s'
          → s'.mq ≡ requeued l tag s.mq
          → CommitFailed l.mysql (judged l s t).db s'.db.world
          → tables_of s' ≡ with_result
          → s'.judging ≡ t
          → Recorded o
      not_escaped :
          (s' : WorkerState l)
          → o ≡ threw s'
          → s'.mq ≡ s.mq
          → Refuses l.mysql (judged l s t).db.conn s'.db.world
          → tables_of s' ≡ before
          → s'.judging ≡ t
          → Recorded o
