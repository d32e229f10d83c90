-- ===== src/Main/Boxes.antt =====
-- The sandboxes over a whole run of src/main.cpp.
use flowstudy_judge.Common.{
  Bytes, ◌≡◌, refl, ap, ℤ, pos, pos_part, List, [], Option, none, some, Outcome, true, done, threw,
  hung, IsDone-done,
}
use flowstudy_judge.Config.{AppConfig}
use flowstudy_judge.Config.Load.{load_config}
use flowstudy_judge.Sandbox.{Sandbox}
use flowstudy_judge.Judge.BoxPool.{BoxPool, new_box_pool, close_boxes}
use flowstudy_judge.Judge.BoxPool.Kept.{Kept}
use flowstudy_judge.Judge.BoxPool.Opened.{Initialises, close_boxes-IsDone}
use flowstudy_judge.Judge.Engine.{new_engine}
use flowstudy_judge.Db
use flowstudy_judge.Mq
use flowstudy_judge.Worker.{Libs, WorkerState}
use flowstudy_judge.Worker.Run.{Readings, new_worker, run}
use flowstudy_judge.Worker.Pools.{pool_of}
use flowstudy_judge.Main.{Worlds, config_path, main, leave, start, destroy_worker}

module _ (l : Libs) where
  -- What is left of this pool when the process has ended, or goes on.
  abbrev pub Tidy : BoxPool → Outcome (Worlds l) (Option ℤ) → Type 0
  Tidy pool (done none ws) = Unit
  -- It has ended: all of these sandboxes have been closed last, in their order.
  Tidy pool (done (some code) ws) =
      (w : l.platform.World) × (close_boxes l.platform pool.boxes w ≡ done tt ws.sandboxes)
  Tidy pool (threw ws) = Unit
  -- It waits for ever: there are no sandboxes.
  Tidy pool (hung ws) = pool.boxes ≡ []

  pub data Boxed (args : List Bytes) (ws : Worlds l) (o : Outcome (Worlds l) (Option ℤ))
      : Type 0 where
    not_configured :
        load_config l.json l.platform (config_path l args) ws.sandboxes ≡ none
        → o ≡ done (some (pos 1)) ws
        → Boxed args ws o
    boxed :
        (cfg : AppConfig) (pool : BoxPool) (w : l.platform.World)
        → load_config l.json l.platform (config_path l args) ws.sandboxes ≡ some cfg
        → Initialises l.platform cfg.isolate
            (pos_part cfg.judge.concurrency)
            0
            ws.sandboxes
            w
            pool.boxes
        → Tidy pool o
        → Boxed args ws o

  -- The worlds that the destructor leaves.
  abbrev pub closed : WorkerState l → l.platform.World → Worlds l
  closed s w = record {
    sandboxes = w;
    database = Db.close_client l.mysql s.db;
    queue = Mq.close_client l.amqp s.mq;
  }

  abbrev closing : WorkerState l → Outcome l.platform.World (Unit {0})
  closing s = close_boxes l.platform (pool_of l s).boxes s.judging.world

  destroy_worker-closed :
      (s : WorkerState l) (w : l.platform.World)
      → closing s ≡ done tt w
      → destroy_worker l s ≡ done tt (closed s w)
  unfolding destroy_worker
  destroy_worker-closed s w e = rw (e, destroy_worker) refl

  pub destroy_worker-closes :
      (s : WorkerState l)
      → (w : l.platform.World) × (destroy_worker l s ≡ done tt (closed s w))
        × (closing s ≡ done tt w)
  destroy_worker-closes s =
      let (_, w, e) =
        IsDone-done (closing s) (close_boxes-IsDone l.platform (pool_of l s).boxes _) in
      (w, destroy_worker-closed s w e, e)

  -- A new worker with this pool.
  abbrev pub worker_with : AppConfig → BoxPool → l.platform.World → Worlds l → WorkerState l
  worker_with cfg pool w ws = record {
    cfg = cfg;
    running = true;
    mq = Mq.new_client l.amqp cfg.rabbitmq ws.queue;
    db = Db.new_client l.mysql cfg.mysql ws.database;
    judging = record { world = w; pool = pool };
  }

  pub new_worker-worker_with :
      (ws : Worlds l) (cfg : AppConfig) (pool : BoxPool) (w : l.platform.World)
      → new_box_pool l.platform cfg.isolate cfg.judge.concurrency ws.sandboxes ≡ done pool w
      → new_worker l cfg ws.database ws.queue ws.sandboxes ≡ done (worker_with cfg pool w ws) w
  unfolding new_worker new_engine
  new_worker-worker_with ws cfg pool w made =
      let engine_made : new_engine l.platform cfg.isolate cfg.judge.concurrency ws.sandboxes
          ≡ done (record { world = w; pool = pool }) w =
        rw (made, new_engine) refl in
      rw (engine_made, new_worker) refl

  pub main-started :
      (args : List Bytes) (g : Readings) (ws : Worlds l) (cfg : AppConfig) (pool : BoxPool)
      (w : l.platform.World)
      → load_config l.json l.platform (config_path l args) ws.sandboxes ≡ some cfg
      → new_box_pool l.platform cfg.isolate cfg.judge.concurrency ws.sandboxes ≡ done pool w
      → main l args g ws ≡ leave l (run l g (worker_with cfg pool w ws))
  unfolding main
  main-started args g ws cfg pool w e made =
      rw (e, main) (ap (start l g ws) (new_worker-worker_with ws cfg pool w made))
