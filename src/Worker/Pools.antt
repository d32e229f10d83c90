-- ===== src/Worker/Pools.antt =====
-- What the worker of src/worker/worker.cpp leaves of its pool of sandboxes, and when it blocks.
use flowstudy_judge.Common.{
  ℕ, zero, suc, Bytes, bytes, bytes_eq, Bool, false, ◌≡◌, refl, sym, subst, none, some, Option, M,
  Outcome, done, threw, hung, return, NotHung, Bool-cases, Option-cases, inl, inr, ℤ, pos, ◌∙◌,
}
use flowstudy_judge.Judge.Data.{SubmissionMessage}
use flowstudy_judge.Judge.Message.{parse_message}
use flowstudy_judge.Judge.BoxPool.{BoxPool}
use flowstudy_judge.Judge.BoxPool.Kept.{Kept, >>=-Kept, same-Kept, thrown-Kept}
use flowstudy_judge.Judge.Engine.{JudgeState, judge}
use flowstudy_judge.Judge.Engine.Pools.{judge-Kept}
use flowstudy_judge.Db
use flowstudy_judge.Db.{MySqlClient, JudgeResult}
use flowstudy_judge.Db.Returns.{update_submission-Ends, update_code_run-Ends}
use flowstudy_judge.Db.Update.{update_submission, update_code_run}
use flowstudy_judge.Mq
use flowstudy_judge.Mq.{RabbitMqClient, Reply, delivery, timeout, failure}
use flowstudy_judge.Mq.Connection.{Reports, connect-Reports}
use flowstudy_judge.Mq.Consume.{consume, consume_loop, on_reply}
use flowstudy_judge.Worker.{
  Libs, WorkerState, db_result, on_judging, on_mq, on_db, write_result, settle, record_result,
  handle, on_message,
}
use flowstudy_judge.Worker.Run.{Readings, run, run_consume, exit_code, worker_client}
use flowstudy_judge.Worker.Walk.{run-walk}
use flowstudy_judge.Worker.Settle.{settle-done, on_message_discards}

module _ (l : Libs) where
  abbrev pub pool_of : WorkerState l → BoxPool
  pool_of s = s.judging.pool

  -- From this state, a call that ends so keeps the pool.
  abbrev pub KeptFrom : {A : Type 0} → WorkerState l → Outcome (WorkerState l) A → Type 0
  KeptFrom s o = Kept pool_of (pool_of s) o

  on_judging-Kept :
      {A : Type 0} (m : M (JudgeState l.platform.World) A) (s : WorkerState l)
      → Kept (λ t. t.pool) (pool_of s) (m s.judging)
      → KeptFrom s (on_judging l m s)
  on_judging-Kept {A} m s h = go (m s.judging) h
    where
      go :
          (o : Outcome (JudgeState l.platform.World) A)
          → Kept (λ t. t.pool) (pool_of s) o
          → KeptFrom s (on_judging l (λ _. o) s)
      go (done a t) h = h
      go (threw t) h = h
      go (hung t) h = h

  on_db-Kept :
      {A : Type 0} (m : MySqlClient l.mysql → M l.mysql.World A) (s : WorkerState l)
      → NotHung (m s.db s.db.world)
      → KeptFrom s (on_db l m s)
  on_db-Kept {A} m s h = go (m s.db s.db.world) h
    where
      go : (o : Outcome l.mysql.World A) → NotHung o → KeptFrom s (on_db l (λ _ _. o) s)
      go (done a w) h =
          let t : WorkerState l = record s { db = record (s.db) { world = w } } in
          same-Kept pool_of (pool_of s) (done a t) a t refl refl
      go (threw w) h =
          thrown-Kept pool_of A (pool_of s) (record s { db = record (s.db) { world = w } }) refl
      go (hung w) h = absurd h

  write_result-Kept :
      (sub : SubmissionMessage) (r : JudgeResult) (s : WorkerState l)
      → KeptFrom s (write_result l sub r s)
  unfolding write_result
  write_result-Kept sub r s = elim (Bool-cases (bytes_eq sub.task_type (bytes "RUN"))) [
    | inl e ↦ rw e (
        on_db-Kept (λ c. update_code_run l.mysql c r) s
          (update_code_run-Ends l.mysql s.db r s.db.world))
    | inr e ↦ rw e (
        on_db-Kept (λ c. update_submission l.mysql c r) s
          (update_submission-Ends l.mysql s.db r s.db.world))
  ]

  settle-Kept : (tag : ℕ) (b : Bool) (s : WorkerState l) → KeptFrom s (settle l tag b s)
  settle-Kept tag b s = same-Kept pool_of (pool_of s) _ tt _ (settle-done l tag b s) refl

  handle-Kept :
      (tag : ℕ) (sub : SubmissionMessage) (s : WorkerState l) → KeptFrom s (handle l tag sub s)
  unfolding handle record_result
  handle-Kept tag sub s =
      >>=-Kept pool_of (pool_of s)
        (λ (s : WorkerState l). on_judging l (judge l.platform s.cfg.isolate sub) s)
        (record_result l tag sub) s
        (on_judging-Kept (judge l.platform s.cfg.isolate sub) s
          (judge-Kept l.platform s.cfg.isolate sub s.judging))
        (λ out t.
          let u : WorkerState l = record t { db = (Db.ping l.mysql t.db).0 } in
          >>=-Kept pool_of (pool_of t) (write_result l sub (db_result sub out)) (settle l tag) u
            (write_result-Kept sub (db_result sub out) u) (settle-Kept tag))

  on_message-Kept :
      (tag : ℕ) (body : Bytes) (s : WorkerState l) → KeptFrom s (on_message l tag body s)
  unfolding on_message
  on_message-Kept tag body s = elim (Option-cases (parse_message l.json body)) [
    | inl e ↦ same-Kept pool_of (pool_of s) _ tt _ (on_message_discards l tag body s e) refl
    | inr (sub, e) ↦ rw (e, on_message) (handle-Kept tag sub s)
  ]

  abbrev loop : ℕ → M (WorkerState l) (Option Bool)
  loop = consume_loop l.amqp (worker_client l) (on_message l)

  on_reply-Kept :
      (rounds : ℕ) (s : WorkerState l) (reply : Reply)
      → ((t : WorkerState l) → KeptFrom t (loop rounds t))
      → KeptFrom s (on_reply l.amqp (worker_client l) (on_message l) (loop rounds) reply s)
  on_reply-Kept rounds s (delivery tag body) ih =
      >>=-Kept pool_of (pool_of s) (on_message l tag body) (λ _. loop rounds) s
        (on_message-Kept tag body s) (λ _. ih)
  on_reply-Kept rounds s timeout ih = ih s
  on_reply-Kept rounds s failure ih = same-Kept pool_of (pool_of s) _ (some false) s refl refl

  consume_loop-Kept : (rounds : ℕ) (s : WorkerState l) → KeptFrom s (loop rounds s)
  unfolding consume_loop
  consume_loop-Kept zero s = same-Kept pool_of {A = Option Bool} (pool_of s) _ none s refl refl
  consume_loop-Kept (suc rounds) s =
      let (reply, w) = l.amqp.consume_message s.mq.conn s.mq.world in
      on_reply-Kept rounds (record s { mq = record (s.mq) { world = w } }) reply
        (consume_loop-Kept rounds)

  consume-Kept :
      (rounds : ℕ) (s : WorkerState l)
      → KeptFrom s (consume l.amqp (worker_client l) (on_message l) rounds s)
  unfolding consume
  consume-Kept rounds s = elim (Bool-cases s.mq.connected) [
    | inl e ↦
        let looping : consume l.amqp (worker_client l) (on_message l) rounds s ≡ loop rounds s =
          simp e in
        subst (KeptFrom s) (sym looping) (consume_loop-Kept rounds s)
    | inr e ↦
        let ends : consume l.amqp (worker_client l) (on_message l) rounds s ≡ done (some false) s =
          simp e in
        same-Kept pool_of (pool_of s) _ (some false) s ends refl
  ]

  connect_mq-same :
      (s : WorkerState l)
      → (b : Bool) × (t : WorkerState l) × (on_mq l (Mq.connect l.amqp) s ≡ done b t)
        × (pool_of t ≡ pool_of s)
  connect_mq-same s = go (Mq.connect l.amqp s.mq) (connect-Reports l.amqp s.mq)
    where
      go :
          (o : Outcome (RabbitMqClient l.amqp) Bool)
          → Reports l.amqp s.mq o
          → (b : Bool) × (t : WorkerState l) × (on_mq l (λ _. o) s ≡ done b t)
            × (pool_of t ≡ pool_of s)
      go (done b c) reports = (b, record s { mq = c }, refl, refl)
      go (threw c) reports = absurd reports
      go (hung c) reports = absurd reports

  run_consume-Kept : (rounds : ℕ) (s : WorkerState l) → KeptFrom s (run_consume l rounds s)
  run_consume-Kept rounds s =
      >>=-Kept pool_of (pool_of s) (consume l.amqp (worker_client l) (on_message l) rounds)
        (λ r. return (exit_code l r)) s (consume-Kept rounds s)
        (λ r t. same-Kept pool_of (pool_of t) _ (exit_code l r) t refl refl)

  -- If the commands of the system and the calls of the libraries return, then: when `run` returns, or
  -- is still running, the pool has the free boxes that it had at the start, in some order; if an
  -- exception leaves it, at most one box is missing; and it blocks only if no box was free at the start.
  -- The sandboxes of the pool stay the same.
  pub run-Kept : (g : Readings) (s : WorkerState l) → KeptFrom s (run l g s)
  run-Kept g s =
      run-walk l (λ u. pool_of u ≡ pool_of s) (Kept pool_of (pool_of s)) g
        (λ u same. (_, _, refl, same))
        (λ u same. let (b, t, ends, kept) = connect_mq-same u in (b, t, ends, kept ∙ same))
        (λ u same _. same-Kept pool_of {A = Option ℤ} (pool_of s) _ none u refl same)
        (λ u same _. same-Kept pool_of (pool_of s) _ (some (pos 0)) u refl same)
        (λ u same _ _.
          subst (λ q. Kept pool_of q (run_consume l g.rounds u)) same (run_consume-Kept g.rounds u))
        s refl
