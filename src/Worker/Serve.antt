-- ===== src/Worker/Serve.antt =====
-- `Worker::run` of src/worker/worker.cpp from a new worker on, as the broker and the committed rows
-- see it.
use flowstudy_judge.Common.{true, Bool, ◌≡◌, ℤ, pos, Option, none, some, Outcome, done, threw, hung}
use flowstudy_judge.Db
use flowstudy_judge.Db.Server.{Server, IsIdle}
use flowstudy_judge.Mq
use flowstudy_judge.Mq.{RabbitMqClient}
use flowstudy_judge.Worker.{Libs, WorkerState}
use flowstudy_judge.Worker.Run.{Readings, exit_code}
use flowstudy_judge.Worker.Spec.{View, view, Consumes}
use flowstudy_judge.Worker.Walk.{StillTries, IsToldToStop}

module _ (l : Libs) (v : Server l.mysql) where
  -- The exit code for what `consume` returns.
  abbrev pub exits : Outcome (View l v) (Option Bool) → Outcome (View l v) (Option ℤ)
  exits (done r s) = done (exit_code l r) s
  exits (threw s) = threw s
  exits (hung s) = hung s

  -- While the connections are made only the client of the broker changes. Then `run` has been told to
  -- stop, or still tries, or consumes.
  pub data Serves (g : Readings) (s : View l v) (o : Outcome (View l v) (Option ℤ)) : Type 0 where
    still_connects :
        (c : RabbitMqClient l.amqp)
        → StillTries g
        → o ≡ done none (record s { mq = c })
        → Serves g s o
    told_to_stop :
        (c : RabbitMqClient l.amqp)
        → IsToldToStop g
        → o ≡ done (some (pos 0)) (record s { mq = c })
        → Serves g s o
    consumes :
        (c : RabbitMqClient l.amqp) (o' : Outcome (View l v) (Option Bool))
        → g.after_db ≡ true
        → g.after_mq ≡ true
        → Consumes l v g.rounds (record s { mq = c }) o'
        → o ≡ exits o'
        → Serves g s o

  module _ (s : View l v) where
    -- Only the client of the broker differs from `s`, and no transaction is open.
    abbrev Prepared : WorkerState l → Type 0
    Prepared u = (view l v u ≡ record s { mq = u.mq }) × IsIdle l.mysql v u.db
