-- ===== src/Worker/Settle.antt =====
-- How `Worker::on_message` of src/worker/worker.cpp settles a delivery.
use flowstudy_judge.Common.{
  ℕ, Bytes, bytes, bytes_eq, Bool, true, false, ◌≡◌, refl, ◌∙◌, List, none, some, if◌then◌else◌, M,
  done, threw, hung, >>=-done, >>=-threw, >>=-hung, ◌>>◌, return, Bool-cases, inl, inr, Outcome,
  ◌>>=◌,
}
use flowstudy_judge.Judge.Data.{SubmissionMessage, JudgeResultInternal}
use flowstudy_judge.Judge.Message.{parse_message}
use flowstudy_judge.Judge.Engine.{JudgeState, judge}
use flowstudy_judge.Db
use flowstudy_judge.Db.{MySqlClient, JudgeResult}
use flowstudy_judge.Db.Update.{update_submission, update_code_run}
use flowstudy_judge.Db.Transaction.{submission_statements, code_run_statements}
use flowstudy_judge.Db.Atomic.{
  Transactions, Committed, update_submission-AllOrNothing, update_code_run-AllOrNothing,
}
use flowstudy_judge.Mq
use flowstudy_judge.Mq.{RabbitMqClient}
use flowstudy_judge.Worker.{
  Libs, WorkerState, db_result, on_judging, on_mq, on_db, write_result, settle, record_result,
  handle, on_message,
}

module _ (l : Libs) where
  -- The client after the delivery has been acknowledged, or handed back to the queue; a client that
  -- is not connected sends nothing.
  abbrev pub acked : ℕ → RabbitMqClient l.amqp → RabbitMqClient l.amqp
  acked tag c =
      if c.connected
      then record c { world = (l.amqp.basic_ack c.conn c.channel tag c.world).1 }
      else c

  abbrev pub requeued : ℕ → RabbitMqClient l.amqp → RabbitMqClient l.amqp
  requeued tag c =
      if c.connected
      then record c { world = (l.amqp.basic_nack c.conn c.channel tag c.world).1 }
      else c

  ack-acked :
      (tag : ℕ) (c : RabbitMqClient l.amqp)
      → Mq.ack l.amqp tag c
        ≡ done
            (if c.connected then (l.amqp.basic_ack c.conn c.channel tag c.world).0 else false)
            (acked tag c)
  unfolding Mq.ack
  ack-acked tag c = elim (Bool-cases c.connected) [ inl e ↦ simp e | inr e ↦ simp e ]

  nack_requeue-requeued :
      (tag : ℕ) (c : RabbitMqClient l.amqp)
      → Mq.nack_requeue l.amqp tag c
        ≡ done
            (if c.connected then (l.amqp.basic_nack c.conn c.channel tag c.world).0 else false)
            (requeued tag c)
  unfolding Mq.nack_requeue
  nack_requeue-requeued tag c = elim (Bool-cases c.connected) [ inl e ↦ simp e | inr e ↦ simp e ]

  on_mq-done :
      {A : Type 0} (m : M (RabbitMqClient l.amqp) A) (s : WorkerState l) {a : A}
      {c : RabbitMqClient l.amqp}
      → m s.mq ≡ done a c
      → (on_mq l m >> return tt) s ≡ done tt (record s { mq = c })
  on_mq-done m s {a} {c} e =
      let step : on_mq l m s ≡ done a (record s { mq = c }) = rw (e, on_mq) in
      >>=-done (on_mq l m) (λ _. return tt) s step

  -- A message that cannot be parsed is acknowledged, and nothing else happens: neither the judge
  -- nor the database is touched.
  pub on_message_discards :
      (tag : ℕ) (body : Bytes) (s : WorkerState l)
      → parse_message l.json body ≡ none
      → on_message l tag body s ≡ done tt (record s { mq = acked tag s.mq })
  unfolding on_message
  on_message_discards tag body s e =
      rw (e, on_message) (on_mq-done (Mq.ack l.amqp tag) s (ack-acked tag s.mq))

  -- The statements that a message's result is written by.
  abbrev pub result_statements : MySqlClient l.mysql → SubmissionMessage → JudgeResult → List Bytes
  result_statements c sub r =
      if bytes_eq sub.task_type (bytes "RUN")
      then code_run_statements l.mysql c r
      else submission_statements l.mysql c r

  -- What the call has committed of the result's statements, with the answer of the database.
  pub write_result-AllOrNothing :
      (sub : SubmissionMessage) (r : JudgeResult) (s : WorkerState l)
      (tx : Transactions l.mysql s.db.conn)
      → tx.is_open s.db.world ≡ false
      → (x : Outcome l.mysql.World Bool) × (write_result l sub r s ≡ on_db l (λ _ _. x) s)
        × Committed l.mysql s.db tx (result_statements s.db sub r) s.db.world x
  unfolding write_result
  write_result-AllOrNothing sub r s tx closed =
      elim (Bool-cases (bytes_eq sub.task_type (bytes "RUN"))) [
        | inl e ↦ (
          update_code_run l.mysql s.db r s.db.world,
          rw e refl,
          rw e (update_code_run-AllOrNothing l.mysql s.db tx r s.db.world closed),
        )
        | inr e ↦ (
          update_submission l.mysql s.db r s.db.world,
          rw e refl,
          rw e (update_submission-AllOrNothing l.mysql s.db tx r s.db.world closed),
        )
      ]

  on_judging-done :
      {A : Type 0} (m : M (JudgeState l.platform.World) A) (s : WorkerState l) {a : A}
      {t : JudgeState l.platform.World}
      → m s.judging ≡ done a t
      → on_judging l m s ≡ done a (record s { judging = t })
  on_judging-done m s e = rw (e, on_judging)

  -- The state once the message has been judged and the connection checked.
  abbrev pub judged : WorkerState l → JudgeState l.platform.World → WorkerState l
  judged s t = record s { judging = t; db = (Db.ping l.mysql s.db).0 }

  pub settle-done :
      (tag : ℕ) (b : Bool) (s : WorkerState l)
      → settle l tag b s
        ≡ done tt (record s { mq = if b then acked tag s.mq else requeued tag s.mq })
  unfolding settle
  settle-done tag true s = on_mq-done (Mq.ack l.amqp tag) s (ack-acked tag s.mq)
  settle-done tag false s =
      on_mq-done (Mq.nack_requeue l.amqp tag) s (nack_requeue-requeued tag s.mq)

  -- How the handling ends behind this end of the update.
  abbrev pub answered :
      ℕ → WorkerState l → Outcome l.mysql.World Bool → Outcome (WorkerState l) (Unit {0})
  answered tag u (done b w) = done tt (record u {
    mq = if b then acked tag u.mq else requeued tag u.mq;
    db = record (u.db) { world = w };
  })
  answered tag u (threw w) = threw (record u { db = record (u.db) { world = w } })
  answered tag u (hung w) = hung (record u { db = record (u.db) { world = w } })

  pub handle-answered :
      (tag : ℕ) (sub : SubmissionMessage) (out : JudgeResultInternal) (s : WorkerState l)
      (t : JudgeState l.platform.World) (x : Outcome l.mysql.World Bool)
      → judge l.platform s.cfg.isolate sub s.judging ≡ done out t
      → write_result l sub (db_result sub out) (judged s t) ≡ on_db l (λ _ _. x) (judged s t)
      → handle l tag sub s ≡ answered tag (judged s t) x
  unfolding handle record_result
  handle-answered tag sub out s t x judges writes =
      let engine = λ (s : WorkerState l). on_judging l (judge l.platform s.cfg.isolate sub) s in
      >>=-done engine (record_result l tag sub) s
        (on_judging-done (judge l.platform s.cfg.isolate sub) s judges)
      ∙ go x writes
    where
      writing : M (WorkerState l) Bool
      writing = write_result l sub (db_result sub out)

      go :
          (x : Outcome l.mysql.World Bool)
          → writing (judged s t) ≡ on_db l (λ _ _. x) (judged s t)
          → ◌>>=◌ writing (settle l tag) (judged s t) ≡ answered tag (judged s t) x
      go (done b w) e = >>=-done writing (settle l tag) (judged s t) e ∙ settle-done tag b _
      go (threw w) e = >>=-threw writing (settle l tag) (judged s t) e
      go (hung w) e = >>=-hung writing (settle l tag) (judged s t) e

  -- If an exception leaves `judge`, then it leaves `on_message` too: nothing is sent to the queue and
  -- nothing is written to the database.
  pub on_message-threw :
      (tag : ℕ) (body : Bytes) (s : WorkerState l) (sub : SubmissionMessage)
      (t : JudgeState l.platform.World)
      → parse_message l.json body ≡ some sub
      → judge l.platform s.cfg.isolate sub s.judging ≡ threw t
      → on_message l tag body s ≡ threw (record s { judging = t })
  unfolding on_message handle
  on_message-threw tag body s sub t parses throws =
      let m = judge l.platform s.cfg.isolate sub in
      let engine = λ (s : WorkerState l). on_judging l (judge l.platform s.cfg.isolate sub) s in
      let threw_it : on_judging l m s ≡ threw (record s { judging = t }) =
        rw (throws, on_judging) in
      rw (parses, on_message) (>>=-threw engine (record_result l tag sub) s threw_it)

  pub on_message-hung :
      (tag : ℕ) (body : Bytes) (s : WorkerState l) (sub : SubmissionMessage)
      (t : JudgeState l.platform.World)
      → parse_message l.json body ≡ some sub
      → judge l.platform s.cfg.isolate sub s.judging ≡ hung t
      → on_message l tag body s ≡ hung (record s { judging = t })
  unfolding on_message handle
  on_message-hung tag body s sub t parses hangs =
      let m = judge l.platform s.cfg.isolate sub in
      let engine = λ (s : WorkerState l). on_judging l (judge l.platform s.cfg.isolate sub) s in
      let hung_it : on_judging l m s ≡ hung (record s { judging = t }) = rw (hangs, on_judging) in
      rw (parses, on_message) (>>=-hung engine (record_result l tag sub) s hung_it)

  -- A message that can be parsed and that the engine judges is answered by what the update has
  -- committed of the statements of its result, if transactions are as documented and none is open when
  -- the connection has been checked.
  pub on_message_answers :
      (tag : ℕ) (body : Bytes) (s : WorkerState l) (sub : SubmissionMessage)
      (out : JudgeResultInternal) (t : JudgeState l.platform.World)
      (tx : Transactions l.mysql (judged s t).db.conn)
      → parse_message l.json body ≡ some sub
      → judge l.platform s.cfg.isolate sub s.judging ≡ done out t
      → tx.is_open (judged s t).db.world ≡ false
      → (x : Outcome l.mysql.World Bool) × (on_message l tag body s ≡ answered tag (judged s t) x)
        × Committed l.mysql
            (judged s t).db
            tx
            (result_statements (judged s t).db sub (db_result sub out))
            (judged s t).db.world
            x
  unfolding on_message
  on_message_answers tag body s sub out t tx parses judges closed =
      let (x, writes, commits) =
        write_result-AllOrNothing sub (db_result sub out) (judged s t) tx closed in
      (x, rw (parses, on_message) (handle-answered tag sub out s t x judges writes), commits)
