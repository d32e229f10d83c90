-- ===== src/Worker.antt =====
-- The worker, src/worker/worker.h and src/worker/worker.cpp: its state and `on_message`.
pub mod Run
pub mod Loops
pub mod Settle
pub mod Spec
pub mod Refine
pub mod Rounds
pub mod Attempts
pub mod Walk
pub mod Made
pub mod Serve
pub mod Pools
pub mod Recorded
pub mod Ledger
pub mod Answers
pub mod Tests
use flowstudy_judge.Common.{
  ℕ, Bytes, bytes, bytes_eq, Bool, true, false, not, map, Option, none, some, if◌then◌else◌, M,
  Outcome, done, threw, hung, return, ◌>>=◌, ◌>>◌,
}
use flowstudy_judge.Config.{AppConfig}
use flowstudy_judge.Platform.{Platform}
use flowstudy_judge.Json.{JsonLib}
use flowstudy_judge.Status.{to_string}
use flowstudy_judge.Judge.Data.{SubmissionMessage, JudgeResultInternal, JudgeCaseResultInternal}
use flowstudy_judge.Judge.Message.{parse_message}
use flowstudy_judge.Judge.Engine.{JudgeState, judge}
use flowstudy_judge.Db
use flowstudy_judge.Db.{MySqlLib, MySqlClient, JudgeResult, JudgeCaseResult}
use flowstudy_judge.Db.Update.{update_submission, update_code_run}
use flowstudy_judge.Mq
use flowstudy_judge.Mq.{AmqpLib, RabbitMqClient}

-- What the program uses and does not implement.
pub record Libs : Type 1 where
  pub platform : Platform
  pub json : JsonLib
  pub mysql : MySqlLib
  pub amqp : AmqpLib

-- The members of `Worker`. `judging` is the engine with its pool, and the world of the sandboxes;
-- the clients hold the worlds of their servers.
pub record WorkerState (l : Libs) : Type 0 where
  pub cfg : AppConfig
  pub running : Bool
  pub mq : RabbitMqClient l.amqp
  pub db : MySqlClient l.mysql
  pub judging : JudgeState l.platform.World

unfoldable pub db_case_result : JudgeCaseResultInternal → JudgeCaseResult
db_case_result item = record {
  testcase_id = item.testcase_id;
  case_index = item.case_index;
  status = to_string item.status;
  time_used_ms = item.time_used_ms;
  memory_used_kb = item.memory_used_kb;
  input_text = item.input_text;
  actual_output = item.actual_output;
  expected_output = item.expected_output;
  error_message = item.error_message;
}

-- The row data that `on_message` builds from a message and its result.
unfoldable pub db_result : SubmissionMessage → JudgeResultInternal → JudgeResult
unfolding db_case_result
db_result sub r = record {
  run_id = sub.run_id;
  submission_id = sub.submission_id;
  problem_id = sub.problem_id;
  status = to_string r.status;
  time_used_ms = r.time_used_ms;
  memory_used_kb = r.memory_used_kb;
  error_message = r.error_message;
  compiler_output = r.compiler_output;
  failed_testcase = r.failed_testcase_index;
  case_results = map db_case_result r.case_results;
}

module _ (l : Libs) where
  abbrev pub on_judging : {A : Type 0} → M (JudgeState l.platform.World) A → M (WorkerState l) A
  on_judging m s = elim (m s.judging) [
    | done a t ↦ done a (record s { judging = t })
    | threw t ↦ threw (record s { judging = t })
    | hung t ↦ hung (record s { judging = t })
  ]

  abbrev pub on_mq : {A : Type 0} → M (RabbitMqClient l.amqp) A → M (WorkerState l) A
  on_mq m s = elim (m s.mq) [
    | done a c ↦ done a (record s { mq = c })
    | threw c ↦ threw (record s { mq = c })
    | hung c ↦ hung (record s { mq = c })
  ]

  -- A method of the client that may change its members.
  abbrev pub on_db_client :
      {A : Type 0} → (MySqlClient l.mysql → MySqlClient l.mysql × A) → M (WorkerState l) A
  on_db_client f s = done (f s.db).1 (record s { db = (f s.db).0 })

  -- A method that only changes the world behind the client.
  abbrev pub on_db : {A : Type 0} → (MySqlClient l.mysql → M l.mysql.World A) → M (WorkerState l) A
  on_db m s = elim (m s.db s.db.world) [
    | done a w ↦ done a (record s { db = record (s.db) { world = w } })
    | threw w ↦ threw (record s { db = record (s.db) { world = w } })
    | hung w ↦ hung (record s { db = record (s.db) { world = w } })
  ]

  unfoldable pub write_result : SubmissionMessage → JudgeResult → M (WorkerState l) Bool
  unfolding bytes_eq
  write_result sub r =
      if bytes_eq sub.task_type (bytes "RUN")
      then on_db (λ c. update_code_run l.mysql c r)
      else on_db (λ c. update_submission l.mysql c r)

  -- The answer to the queue, by the answer of the database.
  unfoldable pub settle : ℕ → Bool → M (WorkerState l) (Unit {0})
  settle delivery_tag db_updated =
      if not db_updated
      then (on_mq (Mq.nack_requeue l.amqp delivery_tag) >> return tt)
      else (on_mq (Mq.ack l.amqp delivery_tag) >> return tt)

  -- What follows the judgement.
  unfoldable pub record_result :
      ℕ → SubmissionMessage → JudgeResultInternal → M (WorkerState l) (Unit {0})
  record_result delivery_tag sub result = do
    _ ← on_db_client (Db.ping l.mysql)
    db_updated ← write_result sub (db_result sub result)
    settle delivery_tag db_updated

  -- A message that has been parsed.
  unfoldable pub handle : ℕ → SubmissionMessage → M (WorkerState l) (Unit {0})
  handle delivery_tag sub =
      ◌>>=◌ (λ s. on_judging (judge l.platform s.cfg.isolate sub) s)
        (record_result delivery_tag sub)

  unfoldable pub on_message : ℕ → Bytes → M (WorkerState l) (Unit {0})
  unfolding handle record_result write_result settle
  on_message delivery_tag body = elim (parse_message l.json body) [
    | none ↦ on_mq (Mq.ack l.amqp delivery_tag) >> return tt
    | some sub ↦ handle delivery_tag sub
  ]
