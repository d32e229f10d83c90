-- ===== src/Worker/Run.antt =====
-- The constructor, `Worker::run` and `Worker::shutdown` of src/worker/worker.cpp. Other threads and
-- the signal handler change `running_` only; `readings` is what the loop's tests read of it, one for
-- each round, and a loop that outlives its readings is still running.
use flowstudy_judge.Common.{
  ℕ, suc, ◌*◌, Bool, true, false, not, ltb, ℤ, pos, List, [], ◌∷◌, Option, none, some,
  if◌then◌else◌, M, Outcome, done, threw, hung, return, ◌>>=◌,
}
use flowstudy_judge.Config.{AppConfig}
use flowstudy_judge.Db
use flowstudy_judge.Mq
use flowstudy_judge.Mq.Consume.{HasClient, consume}
use flowstudy_judge.Judge.Engine.{new_engine}
use flowstudy_judge.Worker.{Libs, WorkerState, on_message, on_mq, on_db_client}

-- `std::min(retries * 2, 30)`, in seconds
unfoldable pub retry_delay : ℕ → ℕ
retry_delay retries = if ltb (retries * 2) 30 then retries * 2 else 30

-- What follows a connection attempt: the loop ends, or sleeps and goes on with `more`.
abbrev pub after_attempt :
    {S : Type 0}
    → M S (Option Bool × List ℕ)
    → ℕ
    → Outcome S Bool
    → Outcome S (Option Bool × List ℕ)
after_attempt more delay (threw t) = threw t
after_attempt more delay (hung t) = hung t
after_attempt more delay (done true t) = done (some true, []) t
after_attempt more delay (done false t) = ◌>>=◌ more (λ r. return (r.0, delay ∷ r.1)) t

module _ {S : Type 0} (connect : M S Bool) where
  -- The loop, with the result how it ended, `some true` if connected, `some false` if told to stop
  -- and `none` if it still tries, and the delays slept, in order.
  unfoldable pub retry : List Bool → ℕ → M S (Option Bool × List ℕ)
  retry [] retries s = done (none, []) s
  retry (false ∷ readings) retries s = done (some false, []) s
  retry (true ∷ readings) retries s =
      after_attempt (retry readings (suc retries)) (retry_delay (suc retries)) (connect s)

-- What `run` reads of `running_`, and the rounds that the consume loop is watched for.
pub record Readings : Type 0 where
  pub db_loop : List Bool
  pub after_db : Bool
  pub mq_loop : List Bool
  pub after_mq : Bool
  pub rounds : ℕ

module _ (l : Libs) where
  unfoldable pub new_worker :
      AppConfig → l.mysql.World → l.amqp.World → M l.platform.World (WorkerState l)
  unfolding Db.new_client Mq.new_client new_engine
  new_worker cfg db_world mq_world w =
      elim (new_engine l.platform cfg.isolate cfg.judge.concurrency w) [
        | done engine w' ↦
            done
              (record {
                cfg = cfg;
                running = true;
                mq = Mq.new_client l.amqp cfg.rabbitmq mq_world;
                db = Db.new_client l.mysql cfg.mysql db_world;
                judging = engine;
              })
              w'
        | threw w' ↦ threw w'
        | hung w' ↦ hung w'
      ]

  unfoldable pub shutdown : WorkerState l → WorkerState l
  shutdown s = record s { running = false }

  abbrev pub worker_client : HasClient l.amqp (WorkerState l)
  worker_client = record { client = λ s. s.mq; set_client = λ s c. record s { mq = c } }

  -- The main loop, and the exit code for what `consume` returns.
  abbrev pub exit_code : Option Bool → Option ℤ
  exit_code none = none
  exit_code (some true) = some (pos 0)
  exit_code (some false) = some (pos 1)

  abbrev pub run_consume : ℕ → M (WorkerState l) (Option ℤ)
  run_consume rounds =
      ◌>>=◌ (consume l.amqp worker_client (on_message l) rounds) λ r. return (exit_code r)

  abbrev pub run_mq : Readings → M (WorkerState l) (Option ℤ)
  run_mq g = ◌>>=◌ (retry (on_mq l (Mq.connect l.amqp)) g.mq_loop 0) λ r. elim r.0 [
    | none ↦ return none
    | some _ ↦ if not g.after_mq then return (some (pos 0)) else run_consume g.rounds
  ]

  -- The exit code; `none` while `run` has not returned.
  unfoldable pub run : Readings → M (WorkerState l) (Option ℤ)
  unfolding retry
  run g = ◌>>=◌ (retry (on_db_client l (Db.connect l.mysql)) g.db_loop 0) λ r. elim r.0 [
    | none ↦ return none
    | some _ ↦ if not g.after_db then return (some (pos 0)) else run_mq g
  ]
