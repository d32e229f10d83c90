-- ===== src/Worker/Walk.antt =====
-- The way of `Worker::run` of src/worker/worker.cpp through its connection loops.
use flowstudy_judge.Common.{
  List, All, true, false, ◌⊎◌, Bool, not, ◌≡◌, sym, subst, ℤ, pos, Option, none, some,
  if◌then◌else◌, M, Outcome, done, return, >>=-done, Bool-cases, inl, inr,
}
use flowstudy_judge.Db
use flowstudy_judge.Mq
use flowstudy_judge.Worker.{Libs, WorkerState, on_mq, on_db_client}
use flowstudy_judge.Worker.Run.{Readings, retry, run, run_mq, run_consume}
use flowstudy_judge.Worker.Attempts.{Read, retry_keeps}

-- No reading of `running_` was false, up to the loop that is still tried.
abbrev pub StillTries : Readings → Type 0
StillTries g = All (λ b. b ≡ true) g.db_loop ⊎ ((g.after_db ≡ true) × All (λ b. b ≡ true) g.mq_loop)

-- `running_` was read as false behind a loop.
abbrev pub IsToldToStop : Readings → Type 0
IsToldToStop g = (g.after_db ≡ false) ⊎ ((g.after_db ≡ true) × (g.after_mq ≡ false))

-- `P` holds whatever attempts to connect are made, and is enough for `Q` where the run ends, or
-- consumes.
module _ (l : Libs) (P : WorkerState l → Type 0) (Q : Outcome (WorkerState l) (Option ℤ) → Type 0)
    (g : Readings)
    (db_keeps : (u : WorkerState l)
      → P u
      → (b : Bool) × (t : WorkerState l) × (on_db_client l (Db.connect l.mysql) u ≡ done b t) × P t)
    (mq_keeps : (u : WorkerState l)
      → P u
      → (b : Bool) × (t : WorkerState l) × (on_mq l (Mq.connect l.amqp) u ≡ done b t) × P t)
    (still : (u : WorkerState l) → P u → StillTries g → Q (done none u))
    (stopped : (u : WorkerState l) → P u → IsToldToStop g → Q (done (some (pos 0)) u))
    (consumes : (u : WorkerState l)
      → P u
      → g.after_db ≡ true
      → g.after_mq ≡ true
      → Q (run_consume l g.rounds u)) where
  -- What follows a connection loop: it still tries, or the run is told to stop, or it goes on.
  abbrev follow : Bool → M (WorkerState l) (Option ℤ) → Option Bool → M (WorkerState l) (Option ℤ)
  follow running next none = return none
  follow running next (some _) = if not running then return (some (pos 0)) else next

  followed :
      (readings : List Bool) (running : Bool) (next : M (WorkerState l) (Option ℤ))
      → ((u : WorkerState l) → P u → All (λ b. b ≡ true) readings → Q (done none u))
      → ((u : WorkerState l) → P u → running ≡ false → Q (done (some (pos 0)) u))
      → ((u : WorkerState l) → P u → running ≡ true → Q (next u))
      → (r : Option Bool) (u : WorkerState l) → P u
      → Read readings r
      → Q (follow running next r u)
  followed readings running next tries stops goes none u p read = tries u p read
  followed readings running next tries stops goes (some x) u p read = elim (Bool-cases running) [
    | inl e ↦ rw e (goes u p e)
    | inr e ↦ rw e (stops u p e)
  ]

  run_mq-walk : g.after_db ≡ true → (u : WorkerState l) → P u → Q (run_mq l g u)
  run_mq-walk on u p =
      let connecting = retry (on_mq l (Mq.connect l.amqp)) g.mq_loop 0 in
      let (r, t, ends, p', read) =
        retry_keeps P (on_mq l (Mq.connect l.amqp)) mq_keeps g.mq_loop 0 u p in
      subst Q
        (sym (>>=-done connecting (λ r. follow g.after_mq (run_consume l g.rounds) r.0) u ends))
        (followed g.mq_loop g.after_mq (run_consume l g.rounds) (λ u p h. still u p (inr (on, h)))
          (λ u p e. stopped u p (inr (on, e))) (λ u p e. consumes u p on e) r.0 t p' read)

  pub run-walk : (u : WorkerState l) → P u → Q (run l g u)
  unfolding run
  run-walk u p =
      let connecting = retry (on_db_client l (Db.connect l.mysql)) g.db_loop 0 in
      let (r, t, ends, p', read) =
        retry_keeps P (on_db_client l (Db.connect l.mysql)) db_keeps g.db_loop 0 u p in
      subst Q (sym (>>=-done connecting (λ r. follow g.after_db (run_mq l g) r.0) u ends)) (
        followed g.db_loop g.after_db (run_mq l g) (λ u p h. still u p (inl h))
          (λ u p e. stopped u p (inl e)) (λ u p e. run_mq-walk e u p) r.0 t p' read)
