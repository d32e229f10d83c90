-- ===== src/Worker/Spec.antt =====
-- What a worker of src/worker/worker.cpp is to promise, seen from outside: the broker, the sandboxes and
-- the committed rows. Connections to the database, transactions and statements in progress are forgotten.
use flowstudy_judge.Common.{
  ℕ, zero, suc, Bytes, Bool, true, false, ◌≡◌, foldl, Option, some, none, Outcome, done, threw,
  hung,
}
use flowstudy_judge.Config.{AppConfig}
use flowstudy_judge.Judge.Data.{SubmissionMessage, JudgeResultInternal}
use flowstudy_judge.Judge.Message.{parse_message}
use flowstudy_judge.Judge.Engine.{JudgeState, judge}
use flowstudy_judge.Db.{MySqlClient}
use flowstudy_judge.Db.Builds.{Refuses}
use flowstudy_judge.Db.Atomic.{CommitFailed}
use flowstudy_judge.Db.Server.{Server}
use flowstudy_judge.Mq.{RabbitMqClient, Reply, delivery, timeout, failure}
use flowstudy_judge.Worker.{Libs, WorkerState, db_result}
use flowstudy_judge.Worker.Settle.{acked, requeued, result_statements}

module _ (l : Libs) (v : Server l.mysql) where
  pub record View : Type 0 where
    pub cfg : AppConfig
    pub mq : RabbitMqClient l.amqp
    pub judging : JudgeState l.platform.World
    pub rows : v.Data

  abbrev pub view : WorkerState l → View
  view s = record { cfg = s.cfg; mq = s.mq; judging = s.judging; rows = v.committed s.db.world }

  abbrev pub view_outcome : {A : Type 0} → Outcome (WorkerState l) A → Outcome View A
  view_outcome (done a s) = done a (view s)
  view_outcome (threw s) = threw (view s)
  view_outcome (hung s) = hung (view s)

  -- The client waits for the broker, and gets this reply.
  pub record Replies (c c' : RabbitMqClient l.amqp) (r : Reply) : Type 0 where
    pub reply_is : (l.amqp.consume_message c.conn c.world).0 ≡ r
    pub client_is : c' ≡ record c { world = (l.amqp.consume_message c.conn c.world).1 }

  -- One round of the loop.
  pub data Round (s t : View) : Type 0 where
    -- Nothing came.
    waits :
        (c : RabbitMqClient l.amqp) → Replies s.mq c timeout → t ≡ record s { mq = c } → Round s t
    -- A delivery that is no message is acknowledged.
    discards :
        (c : RabbitMqClient l.amqp) (tag : ℕ) (body : Bytes)
        → Replies s.mq c (delivery tag body)
        → parse_message l.json body ≡ none
        → t ≡ record s { mq = acked l tag c }
        → Round s t
    -- A message is judged, all rows of the result are written, and the delivery is acknowledged.
    records :
        (c : RabbitMqClient l.amqp) (tag : ℕ) (body : Bytes) (sub : SubmissionMessage)
        (out : JudgeResultInternal) (j : JudgeState l.platform.World) (db : MySqlClient l.mysql)
        → Replies s.mq c (delivery tag body)
        → parse_message l.json body ≡ some sub
        → judge l.platform s.cfg.isolate sub s.judging ≡ done out j
        → t ≡ record s {
          mq = acked l tag c;
          judging = j;
          rows = foldl v.apply s.rows (result_statements l db sub (db_result sub out));
        }
        → Round s t
    -- A message is judged, no row is written, and the delivery goes back to the queue.
    requeues :
        (c : RabbitMqClient l.amqp) (tag : ℕ) (body : Bytes) (sub : SubmissionMessage)
        (out : JudgeResultInternal) (j : JudgeState l.platform.World)
        → Replies s.mq c (delivery tag body)
        → parse_message l.json body ≡ some sub
        → judge l.platform s.cfg.isolate sub s.judging ≡ done out j
        → t ≡ record s { mq = requeued l tag c; judging = j }
        → Round s t
    -- All rows are written by a COMMIT that reports a failure, and the delivery goes back too.
    requeues_written :
        (c : RabbitMqClient l.amqp) (tag : ℕ) (body : Bytes) (sub : SubmissionMessage)
        (out : JudgeResultInternal) (j : JudgeState l.platform.World) (db : MySqlClient l.mysql)
        (w : l.mysql.World)
        → Replies s.mq c (delivery tag body)
        → parse_message l.json body ≡ some sub
        → judge l.platform s.cfg.isolate sub s.judging ≡ done out j
        → CommitFailed l.mysql db w
        → t ≡ record s {
          mq = requeued l tag c;
          judging = j;
          rows = foldl v.apply s.rows (result_statements l db sub (db_result sub out));
        }
        → Round s t

  -- Within this number of rounds, the loop ends so. An outcome `done none` says that it still runs.
  pub data Runs : ℕ → View → Outcome View (Option Bool) → Type 0 where
    watched : {s : View} {o : Outcome View (Option Bool)} → o ≡ done none s → Runs zero s o
    and_then :
        {n : ℕ} {s t : View} {o : Outcome View (Option Bool)}
        → Round s t
        → Runs n t o
        → Runs (suc n) s o
    -- The broker fails.
    breaks_off :
        {n : ℕ} {s : View} {o : Outcome View (Option Bool)} (c : RabbitMqClient l.amqp)
        → Replies s.mq c failure
        → o ≡ done (some false) (record s { mq = c })
        → Runs (suc n) s o
    -- An exception leaves the judgement of a message.
    throws :
        {n : ℕ} {s : View} {o : Outcome View (Option Bool)} (c : RabbitMqClient l.amqp) (tag : ℕ)
        (body : Bytes) (sub : SubmissionMessage) (j : JudgeState l.platform.World)
        → Replies s.mq c (delivery tag body)
        → parse_message l.json body ≡ some sub
        → judge l.platform s.cfg.isolate sub s.judging ≡ threw j
        → o ≡ threw (record s { mq = c; judging = j })
        → Runs (suc n) s o
    -- A message is judged, and an exception leaves the escaping of one of its texts.
    cannot_escape :
        {n : ℕ} {s : View} {o : Outcome View (Option Bool)} (c : RabbitMqClient l.amqp) (tag : ℕ)
        (body : Bytes) (sub : SubmissionMessage) (out : JudgeResultInternal)
        (j : JudgeState l.platform.World) (db : MySqlClient l.mysql) (w : l.mysql.World)
        → Replies s.mq c (delivery tag body)
        → parse_message l.json body ≡ some sub
        → judge l.platform s.cfg.isolate sub s.judging ≡ done out j
        → Refuses l.mysql db.conn w
        → o ≡ threw (record s { mq = c; judging = j })
        → Runs (suc n) s o
    -- The judgement of a message waits for a box for ever.
    hangs :
        {n : ℕ} {s : View} {o : Outcome View (Option Bool)} (c : RabbitMqClient l.amqp) (tag : ℕ)
        (body : Bytes) (sub : SubmissionMessage) (j : JudgeState l.platform.World)
        → Replies s.mq c (delivery tag body)
        → parse_message l.json body ≡ some sub
        → judge l.platform s.cfg.isolate sub s.judging ≡ hung j
        → o ≡ hung (record s { mq = c; judging = j })
        → Runs (suc n) s o

  -- The whole call: without a connection it returns at once.
  pub data Consumes (n : ℕ) (s : View) (o : Outcome View (Option Bool)) : Type 0 where
    has_no_connection : s.mq.connected ≡ false → o ≡ done (some false) s → Consumes n s o
    loops : s.mq.connected ≡ true → Runs n s o → Consumes n s o
