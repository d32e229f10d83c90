-- ===== src/Worker/Tests.antt =====
-- Instances for src/worker/worker.cpp: the worker of one box, with the message of
-- test/integration_test.cpp in its queue.
use flowstudy_judge.Common.{
  List, Bytes, ℤ, ℕ, suc, ltb, bytes, bytes_eq, Bool, true, false, pos, ◌≡◌, ◌≢◌, refl, [], ◌∷◌,
  some, Outcome, done, stoi, to_string_ℤ, M,
}
use flowstudy_judge.Config.{default_config}
use flowstudy_judge.Platform.Scripted.{Machine, scripted, machine}
use flowstudy_judge.Sandbox.{new_sandbox}
use flowstudy_judge.Sandbox.Compile.{compile}
use flowstudy_judge.Sandbox.Command.{execute}
use flowstudy_judge.Judge.Message.{parse_message}
use flowstudy_judge.Judge.Message.Tests.{json}
use flowstudy_judge.Judge.Engine.{judge, finish}
use flowstudy_judge.Judge.Engine.Tests.{in_box, value_of, state_of}
use flowstudy_judge.Db
use flowstudy_judge.Db.Sql.{
  build_update_submission, update_submission_sql, clear_submission_cases_sql,
}
use flowstudy_judge.Db.Update.{
  update_submission, in_transaction, or_rollback, build_or_rollback, insert_cases,
}
use flowstudy_judge.Status.{to_string}
use flowstudy_judge.Db.Scripted.{Store, mysql, mysql_server, server, transactions}
use flowstudy_judge.Mq
use flowstudy_judge.Mq.{delivery, timeout, failure}
use flowstudy_judge.Mq.Scripted.{Broker, amqp, broker, ledger}
use flowstudy_judge.Mq.Consume.{consume, consume_loop}
use flowstudy_judge.Worker.{Libs, WorkerState, db_result, on_message}
use flowstudy_judge.Worker.Run.{retry, new_worker, run, Readings, worker_client}
use flowstudy_judge.Worker.Loops.{consume-ne-true}
use flowstudy_judge.Worker.Spec.{view_outcome}
use flowstudy_judge.Worker.Ledger.{Ends}
use flowstudy_judge.Worker.Answers.{new_worker-Ends}
use flowstudy_judge.Worker.Attempts.{
  ConnectsAfter, at_once, fails_first, running_for, retry-connects,
}
use flowstudy_judge.Worker.Pools.{KeptFrom, run-Kept}

abbrev pub libs : Libs
libs = record { platform = scripted; json = json; mysql = mysql; amqp = amqp }

-- The compiler reports an error.
abbrev compiler_error : ℤ × List (Bytes × Bytes)
compiler_error = (
  pos 256,
  (in_box (bytes "compile_meta.txt"), bytes "exitcode:1\nstatus:RE\n")
      ∷ (in_box (bytes "error.txt"), bytes "error")
      ∷ [],
)

abbrev one_message : Broker
one_message = broker (delivery 1 (bytes "message") ∷ [])

abbrev pub worker : WorkerState libs
worker = record {
  cfg = default_config;
  running = true;
  mq = Mq.Scripted.client (broker (delivery 1 (bytes "message") ∷ timeout ∷ []));
  db = Db.Scripted.client server;
  judging = record {
    world = machine (compiler_error ∷ []);
    pool = record { available = pos 1 ∷ []; boxes = [] };
  };
}

consumed_settled :
    (state_of worker
      (consume amqp (worker_client libs) (on_message libs) 2 worker)).mq.world.settled
    ≡ (1, true) ∷ []
unfolding consume consume_loop on_message parse_message bytes_eq judge compile execute new_sandbox
    to_string_ℤ stoi Db.ping finish update_submission in_transaction or_rollback build_or_rollback
    build_update_submission update_submission_sql clear_submission_cases_sql insert_cases db_result
    to_string Mq.ack
consumed_settled = refl

-- The third attempt succeeds.
abbrev attempt : M ℕ Bool
attempt n = done (ltb 1 n) (suc n)

third_connects : ConnectsAfter attempt 2 0 3
third_connects = fails_first refl (fails_first refl (at_once refl))

retry-connects_example : retry attempt (running_for 3 []) 0 0 ≡ done (some true, 2 ∷ 4 ∷ []) 3
retry-connects_example = retry-connects attempt 2 0 3 [] third_connects

consume-ne-true_example :
    consume amqp (worker_client libs) (on_message libs) 2 worker ≢ done (some true) worker
consume-ne-true_example =
    consume-ne-true amqp (worker_client libs) (on_message libs) 2 worker worker

-- The signal comes before the first attempt.
abbrev pub stopped_early : Readings
stopped_early = record {
  db_loop = false ∷ [];
  after_db = false;
  mq_loop = [];
  after_mq = false;
  rounds = 0;
}

-- A worker that is made, connects, and consumes two rounds.
abbrev started : Machine
started = machine ((pos 0, []) ∷ compiler_error ∷ [])

abbrev making : Outcome Machine (WorkerState libs)
making = new_worker libs default_config server one_message started

abbrev made : WorkerState libs
made = value_of worker making

abbrev pub both_rounds : Readings
both_rounds = record {
  db_loop = true ∷ [];
  after_db = true;
  mq_loop = true ∷ [];
  after_mq = true;
  rounds = 2;
}

new_worker-Ends_example :
    Ends libs mysql_server ledger (view_outcome libs mysql_server (run libs both_rounds made))
unfolding new_worker bytes_eq ledger
new_worker-Ends_example =
    new_worker-Ends libs mysql_server ledger default_config server one_message started
      (state_of (machine []) making) made both_rounds refl refl

-- The delivery is acknowledged, and the broker fails in the second round.
both_rounds_end :
    (run libs both_rounds made ≡ done (some (pos 1)) (state_of made (run libs both_rounds made)))
    × ((state_of made (run libs both_rounds made)).mq.world.settled ≡ (1, true) ∷ [])
unfolding run consume consume_loop retry Db.connect Mq.connect new_worker on_message parse_message
    bytes_eq judge compile execute new_sandbox to_string_ℤ stoi Db.ping finish update_submission
    in_transaction or_rollback build_or_rollback build_update_submission update_submission_sql
    clear_submission_cases_sql insert_cases db_result to_string Mq.ack
both_rounds_end = (refl, refl)

run-Kept_example : KeptFrom libs made (run libs both_rounds made)
run-Kept_example = run-Kept libs both_rounds made
