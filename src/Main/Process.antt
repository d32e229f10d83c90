-- ===== src/Main/Process.antt =====
-- A whole run of src/main.cpp, as the broker and the committed rows see it.
use flowstudy_judge.Common.{
  Bytes, ◌≡◌, ℤ, pos, List, Option, none, some, Outcome, done, threw, hung,
}
use flowstudy_judge.Config.{AppConfig}
use flowstudy_judge.Config.Load.{load_config}
use flowstudy_judge.Judge.BoxPool.{new_box_pool}
use flowstudy_judge.Db
use flowstudy_judge.Db.Server.{Server}
use flowstudy_judge.Mq
use flowstudy_judge.Worker.{Libs}
use flowstudy_judge.Worker.Run.{Readings}
use flowstudy_judge.Worker.Spec.{View}
use flowstudy_judge.Worker.Serve.{Serves}
use flowstudy_judge.Main.{Worlds, config_path}

module _ (l : Libs) (v : Server l.mysql) where
  -- The worlds show what the worker has come to.
  abbrev pub Shows : Worlds l → View l v → Type 0
  Shows ws s = (v.committed ws.database ≡ s.rows) × (ws.queue ≡ s.mq.world)

  -- What the process makes of the end of `Worker::run`. It is left with the exit code of `run`, the
  -- rows as they are committed then, and the client of the broker closed.
  abbrev pub Leaves : Outcome (View l v) (Option ℤ) → Outcome (Worlds l) (Option ℤ) → Type 0
  Leaves (done none s) o = (ws : Worlds l) × (o ≡ done none ws) × Shows ws s
  Leaves (done (some code) s) o =
      (ws : Worlds l) × (o ≡ done (some code) ws)
      × (v.committed ws.database ≡ s.rows)
      × (ws.queue ≡ Mq.close_client l.amqp s.mq)
  Leaves (threw s) o = (ws : Worlds l) × (o ≡ threw ws) × Shows ws s
  Leaves (hung s) o = (ws : Worlds l) × (o ≡ hung ws) × Shows ws s

  pub data Process (args : List Bytes) (g : Readings) (ws : Worlds l)
      (o : Outcome (Worlds l) (Option ℤ)) : Type 0 where
    not_configured :
        load_config l.json l.platform (config_path l args) ws.sandboxes ≡ none
        → o ≡ done (some (pos 1)) ws
        → Process args g ws o
    configured :
        (cfg : AppConfig) (s : View l v) (o' : Outcome (View l v) (Option ℤ))
        → load_config l.json l.platform (config_path l args) ws.sandboxes ≡ some cfg
        → s.cfg ≡ cfg
        → s.mq ≡ Mq.new_client l.amqp cfg.rabbitmq ws.queue
        → new_box_pool l.platform cfg.isolate cfg.judge.concurrency ws.sandboxes
          ≡ done s.judging.pool s.judging.world
        → s.rows ≡ v.committed ws.database
        → Serves l v g s o'
        → Leaves o' o
        → Process args g ws o
