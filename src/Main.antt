-- ===== src/Main.antt =====
-- The program, src/main.cpp. Logging is left out; the signal handlers only call `shutdown`, which the
-- readings of `running_` stand for.
pub mod Boxes
pub mod Process
mod Tests
use flowstudy_judge.Common.{
  Bytes, bytes, Bool, true, false, ℤ, pos, List, [], ◌∷◌, Option, none, some, ◌≡◌, ◌≢◌, ◌⊎◌, inl,
  inr, refl, arith, M, Outcome, done, threw, hung, return, ◌>>=◌, ◌>>◌, Option-cases,
}
use flowstudy_judge.Config.{AppConfig}
use flowstudy_judge.Config.Load.{load_config}
use flowstudy_judge.Judge.BoxPool.{close_boxes}
use flowstudy_judge.Db
use flowstudy_judge.Mq
use flowstudy_judge.Worker.{Libs, WorkerState}
use flowstudy_judge.Worker.Run.{Readings, new_worker, run, shutdown}
use flowstudy_judge.Worker.Loops.{run-eq-zero}

-- The world outside the process, by the library that reaches it.
pub record Worlds (l : Libs) : Type 0 where
  pub sandboxes : l.platform.World
  pub database : l.mysql.World
  pub queue : l.amqp.World

-- `signal_handler`: `g_worker` is null until `main` has made the worker.
unfoldable pub signal_handler : {l : Libs} → Option (WorkerState l) → Option (WorkerState l)
unfolding shutdown
signal_handler none = none
signal_handler {l} (some g_worker) = some (shutdown l g_worker)

module _ (l : Libs) where
  abbrev worlds_of : WorkerState l → Worlds l
  worlds_of s = record { sandboxes = s.judging.world; database = s.db.world; queue = s.mq.world }

  abbrev pub config_path : List Bytes → Bytes
  config_path [] = bytes "config.json"
  config_path (arg ∷ _) = arg

  -- The worker's destructor: its members go in the reverse of their order, the engine with its boxes
  -- first.
  unfoldable pub destroy_worker : WorkerState l → Outcome (Worlds l) (Unit {0})
  unfolding close_boxes Db.close_client Mq.close_client
  destroy_worker s = elim (close_boxes l.platform s.judging.pool.boxes s.judging.world) [
    | done _ w ↦ done tt (record {
      sandboxes = w;
      database = Db.close_client l.mysql s.db;
      queue = Mq.close_client l.amqp s.mq;
    })
    | threw w ↦ threw (record (worlds_of s) { sandboxes = w })
    | hung w ↦ hung (record (worlds_of s) { sandboxes = w })
  ]

  -- What follows `run`: the code is returned behind the destructor. An exception ends the process.
  abbrev pub with_code : ℤ → Outcome (Worlds l) (Unit {0}) → Outcome (Worlds l) (Option ℤ)
  with_code code (done _ ws) = done (some code) ws
  with_code code (threw ws) = threw ws
  with_code code (hung ws) = hung ws

  abbrev pub leave : Outcome (WorkerState l) (Option ℤ) → Outcome (Worlds l) (Option ℤ)
  leave (done none s) = done none (worlds_of s)
  leave (done (some code) s) = with_code code (destroy_worker s)
  leave (threw s) = threw (worlds_of s)
  leave (hung s) = hung (worlds_of s)

  -- The worker is made, and runs.
  abbrev pub start :
      Readings → Worlds l → Outcome l.platform.World (WorkerState l) → Outcome (Worlds l) (Option ℤ)
  start g ws (done worker _) = leave (run l g worker)
  start g ws (threw w) = threw (record ws { sandboxes = w })
  start g ws (hung w) = hung (record ws { sandboxes = w })

  -- The exit code of the process, for the arguments behind its name; `none` while it runs.
  unfoldable pub main : List Bytes → Readings → M (Worlds l) (Option ℤ)
  unfolding destroy_worker new_worker load_config
  main args g ws = elim (load_config l.json l.platform (config_path args) ws.sandboxes) [
    | none ↦ done (some (pos 1)) ws
    | some cfg ↦ start g ws (new_worker l cfg ws.database ws.queue ws.sandboxes)
  ]

  with_code-eq-zero :
      (code : ℤ) (o : Outcome (Worlds l) (Unit {0})) (ws : Worlds l)
      → with_code code o ≡ done (some (pos 0)) ws
      → code ≡ pos 0
  with_code-eq-zero code (done _ ws') ws h = ground arith
  with_code-eq-zero code (threw ws') ws h = cc
  with_code-eq-zero code (hung ws') ws h = cc

  leave-eq-zero :
      (o : Outcome (WorkerState l) (Option ℤ)) (ws : Worlds l)
      → leave o ≡ done (some (pos 0)) ws
      → (s : WorkerState l) × (o ≡ done (some (pos 0)) s)
  leave-eq-zero (done none s) ws h = cc
  leave-eq-zero (done (some code) s) ws h =
      let zero_code = with_code-eq-zero code (destroy_worker s) ws h in (s, rw zero_code refl)
  leave-eq-zero (threw s) ws h = cc
  leave-eq-zero (hung s) ws h = cc

  start-eq-zero :
      (g : Readings) (ws ws' : Worlds l) (o : Outcome l.platform.World (WorkerState l))
      → start g ws o ≡ done (some (pos 0)) ws'
      → (g.after_db ≡ false) ⊎ (g.after_mq ≡ false)
  start-eq-zero g ws ws' (done worker w) h =
      let (s, ends) = leave-eq-zero (run l g worker) ws' h in run-eq-zero l g worker s ends
  start-eq-zero g ws ws' (threw w) h = cc
  start-eq-zero g ws ws' (hung w) h = cc

  -- If the process exits with 0, then its configuration was loaded, and it was told to stop before
  -- it began to consume messages.
  main-eq-zero :
      (args : List Bytes) (g : Readings) (ws ws' : Worlds l)
      → main args g ws ≡ done (some (pos 0)) ws'
      → ((cfg : AppConfig) × (load_config l.json l.platform (config_path args) ws.sandboxes
            ≡ some cfg))
        × ((g.after_db ≡ false) ⊎ (g.after_mq ≡ false))
  unfolding main
  main-eq-zero args g ws ws' h =
      elim (Option-cases (load_config l.json l.platform (config_path args) ws.sandboxes)) [
        | inl e ↦ absurd (cc (rw (e, main) at h))
        | inr (cfg, e) ↦ (
          (cfg, e),
          start-eq-zero g ws ws' (new_worker l cfg ws.database ws.queue ws.sandboxes)
              (rw (e, main) at h),
        )
      ]
