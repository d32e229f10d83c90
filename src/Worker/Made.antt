-- ===== src/Worker/Made.antt =====
-- The clients of a new worker: `Worker::Worker` of src/worker/worker.cpp.
use flowstudy_judge.Common.{◌≡◌, true, arith, Outcome, done, threw, hung}
use flowstudy_judge.Config.{AppConfig}
use flowstudy_judge.Db
use flowstudy_judge.Mq
use flowstudy_judge.Judge.Engine.{JudgeState, new_engine}
use flowstudy_judge.Worker.{Libs, WorkerState}
use flowstudy_judge.Worker.Run.{new_worker}

-- The worker has a new client of the database, and one of the broker.
abbrev pub HasNewClients :
    (l : Libs) → AppConfig → l.mysql.World → l.amqp.World → WorkerState l → Type 0
HasNewClients l cfg db_world mq_world s =
    (s.db ≡ Db.new_client l.mysql cfg.mysql db_world)
    × (s.mq ≡ Mq.new_client l.amqp cfg.rabbitmq mq_world)

pub new_worker-HasNewClients :
    (l : Libs) (cfg : AppConfig) (db_world : l.mysql.World) (mq_world : l.amqp.World)
    (w w' : l.platform.World) (s : WorkerState l)
    → new_worker l cfg db_world mq_world w ≡ done s w'
    → HasNewClients l cfg db_world mq_world s
unfolding new_worker Db.new_client Mq.new_client
new_worker-HasNewClients l cfg db_world mq_world w w' s made =
    go (new_engine l.platform cfg.isolate cfg.judge.concurrency w) made
  where
    go :
        (o : Outcome l.platform.World (JudgeState l.platform.World))
        → (elim o as (λ _. Outcome l.platform.World (WorkerState l)) [
          | done engine w' ↦
              done
                (record {
                  cfg = cfg;
                  running = true;
                  mq = Mq.new_client l.amqp cfg.rabbitmq mq_world;
                  db = Db.new_client l.mysql cfg.mysql db_world;
                  judging = engine;
                })
                w'
          | threw w' ↦ threw w'
          | hung w' ↦ hung w'
        ])
          ≡ done s w'
        → HasNewClients l cfg db_world mq_world s
    go (done engine u) e = (ground arith, ground arith)
    go (threw u) e = absurd cc
    go (hung u) e = absurd cc
