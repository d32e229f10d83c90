-- ===== src/Worker/Answers.antt =====
-- `Worker::run` of src/worker/worker.cpp from a new worker on, as the broker counts deliveries and
-- answers.
use flowstudy_judge.Common.{◌≡◌, refl, sym, subst, Bool, Option, ℕ, ℤ, Outcome, done, threw, hung}
use flowstudy_judge.Config.{AppConfig}
use flowstudy_judge.Db
use flowstudy_judge.Db.{MySqlClient}
use flowstudy_judge.Db.Server.{Server, IsIdle}
use flowstudy_judge.Db.Idle.{connect-Rests}
use flowstudy_judge.Mq
use flowstudy_judge.Mq.{RabbitMqClient}
use flowstudy_judge.Mq.Consume.{consume}
use flowstudy_judge.Mq.Ledger.{Ledger}
use flowstudy_judge.Mq.Kept.{IsSettled, Settles, connect-Settles}
use flowstudy_judge.Worker.{Libs, WorkerState, on_message, on_mq, on_db_client}
use flowstudy_judge.Worker.Run.{Readings, new_worker, run, run_consume, worker_client, exit_code}
use flowstudy_judge.Worker.Spec.{view_outcome}
use flowstudy_judge.Worker.Made.{new_worker-HasNewClients}
use flowstudy_judge.Worker.Ledger.{Ends, consume-Ends}
use flowstudy_judge.Worker.Walk.{run-walk}

module _ (l : Libs) (v : Server l.mysql) (g : Ledger l.amqp) where
  abbrev Clear : WorkerState l → Type 0
  Clear u = IsSettled l.amqp g u.mq.world × IsIdle l.mysql v u.db

  connect_db-Clear :
      (u : WorkerState l)
      → Clear u
      → (b : Bool) × (t : WorkerState l) × (on_db_client l (Db.connect l.mysql) u ≡ done b t)
        × Clear t
  connect_db-Clear u (settled, idle) = (_, _, refl, (settled, (connect-Rests l.mysql v u.db).1))

  connect_mq-Clear :
      (u : WorkerState l)
      → Clear u
      → (b : Bool) × (t : WorkerState l) × (on_mq l (Mq.connect l.amqp) u ≡ done b t) × Clear t
  connect_mq-Clear u (settled, idle) =
      go (Mq.connect l.amqp u.mq) (connect-Settles l.amqp g u.mq settled)
    where
      go :
          (o : Outcome (RabbitMqClient l.amqp) Bool)
          → Settles l.amqp g o
          → (b : Bool) × (t : WorkerState l) × (on_mq l (λ _. o) u ≡ done b t) × Clear t
      go (done b c) settles = (b, record u { mq = c }, refl, (settles, idle))
      go (threw c) settles = absurd settles
      go (hung c) settles = absurd settles

  run_consume-Ends :
      (rounds : ℕ) (u : WorkerState l)
      → Clear u
      → Ends l v g (view_outcome l v (run_consume l rounds u))
  run_consume-Ends rounds u (settled, idle) =
      coded (consume l.amqp (worker_client l) (on_message l) rounds u)
        (consume-Ends l v g rounds u idle settled)
    where
      coded :
          (o : Outcome (WorkerState l) (Option Bool))
          → Ends l v g (view_outcome l v o)
          → Ends l v g (
              view_outcome l v (elim o as (λ _. Outcome (WorkerState l) (Option ℤ)) [
                | done r t ↦ done (exit_code l r) t
                | threw t ↦ threw t
                | hung t ↦ hung t
              ]))
      coded (done r t) h = h
      coded (threw t) h = h
      coded (hung t) h = h

  run-Ends :
      (r : Readings) (s : WorkerState l) → Clear s → Ends l v g (view_outcome l v (run l r s))
  run-Ends r =
      run-walk l Clear (λ o. Ends l v g (view_outcome l v o)) r connect_db-Clear connect_mq-Clear
        (λ _ p _. p.0) (λ _ p _. p.0) (λ u p _ _. run_consume-Ends r.rounds u p)

  -- If the calls of the broker's library are recorded, the database's server behaves as documented, and
  -- when a worker is made an answer has been called for for everything delivered, then `run` of that
  -- worker, for any number of rounds and attempts to connect, calls `amqp_basic_ack` or
  -- `amqp_basic_nack` exactly once for every delivery and in the order of delivery: so it stands when the
  -- call returns, while it still tries to connect, and after each round. Whether such a call reports
  -- success is not looked at. Only where an exception leaves `run`, or it blocks, the last delivery has no
  -- answer.
  pub new_worker-Ends :
      (cfg : AppConfig) (db_world : l.mysql.World) (mq_world : l.amqp.World)
      (w w' : l.platform.World) (s : WorkerState l) (r : Readings)
      → new_worker l cfg db_world mq_world w ≡ done s w'
      → IsSettled l.amqp g mq_world
      → Ends l v g (view_outcome l v (run l r s))
  unfolding Db.new_client Mq.new_client
  new_worker-Ends cfg db_world mq_world w w' s r made settled =
      let (db_is, mq_is) = new_worker-HasNewClients l cfg db_world mq_world w w' s made in
      run-Ends r s (
        subst (λ (c : RabbitMqClient l.amqp). IsSettled l.amqp g c.world) (sym mq_is) settled,
        subst (IsIdle l.mysql v) (sym db_is) (v.null_closes db_world),
      )
