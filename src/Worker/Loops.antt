-- ===== src/Worker/Loops.antt =====
-- The loops of `Worker::run` of src/worker/worker.cpp and of `RabbitMQClient::consume` of
-- src/mq/rabbitmq_client.cpp: delays, ends and exit codes.
use flowstudy_judge.Common.{
  ℕ, suc, zero, ◌≤◌, Bytes, Bool, true, false, not, ◌≡◌, ◌≢◌, subst, ap, sym, arith, ◌⊎◌, inl, inr,
  ℤ, pos, List, [], ◌∷◌, Option, none, some, if◌then◌else◌, M, Outcome, done, threw, hung, return,
  All, length, >>=-eq-done, Bool-cases,
}
use flowstudy_judge.Mq.{AmqpLib, Reply, delivery, timeout, failure}
use flowstudy_judge.Mq.Consume.{HasClient, consume, consume_loop, on_reply, next_reply}
use flowstudy_judge.Db
use flowstudy_judge.Mq
use flowstudy_judge.Worker.{Libs, WorkerState, on_message, on_mq, on_db_client}
use flowstudy_judge.Worker.Run.{
  retry_delay, after_attempt, retry, Readings, run, run_mq, run_consume, exit_code, worker_client,
}

-- The delays of `n` attempts, after `retries` failed ones.
abbrev pub schedule : ℕ → ℕ → List ℕ
schedule retries zero = []
schedule retries (suc n) = retry_delay (suc retries) ∷ schedule (suc retries) n

pub schedule-All : (retries n : ℕ) → All (λ d. (2 ≤ d) × (d ≤ 30)) (schedule retries n)
unfolding retry_delay
schedule-All retries zero = tt
schedule-All retries (suc n) = (ground arith, schedule-All (suc retries) n)

after_attempt-eq-done :
    {S : Type 0} (more : M S (Option Bool × List ℕ)) (delay : ℕ) (o : Outcome S Bool) (t : S)
    (r : Option Bool × List ℕ)
    → after_attempt more delay o ≡ done r t
    → (r.1 ≡ [])
      ⊎ ((u : S) × (r' : Option Bool × List ℕ) × (more u ≡ done r' t) × (r.1 ≡ delay ∷ r'.1))
after_attempt-eq-done more delay (threw u) t r h = cc
after_attempt-eq-done more delay (hung u) t r h = cc
after_attempt-eq-done more delay (done true u) t r h = inl (ground arith)
after_attempt-eq-done more delay (done false u) t r h =
    let (r', v, e, k) = >>=-eq-done more (λ r. return (r.0, delay ∷ r.1)) u h in
    inr (u, r', ground arith, ground arith)

module _ {S : Type 0} (connect : M S Bool) where
  delays-schedule :
      (readings : List Bool) (retries : ℕ) (s t : S) (r : Option Bool × List ℕ)
      → retry connect readings retries s ≡ done r t
      → r.1 ≡ schedule retries (length r.1)
  unfolding retry
  delays-schedule [] retries s t r h = ground arith
  delays-schedule (false ∷ readings) retries s t r h = ground arith
  delays-schedule (true ∷ readings) retries s t r h =
      elim (after_attempt-eq-done (retry connect readings (suc retries)) (retry_delay (suc retries))
        (connect s) t r h) [
          | inl e ↦ rw e
          | inr (u, r', more, e) ↦ rw e (
              ap (◌∷◌ (retry_delay (suc retries)))
                (delays-schedule readings (suc retries) u t r' more))
        ]

  -- The delays that a connection loop sleeps, until it ends or as long as it has been watched, are in
  -- order 2, 4, 6, ... seconds, and never more than 30.
  pub retry-schedule :
      (readings : List Bool) (s t : S) (e : Option Bool) (ds : List ℕ)
      → retry connect readings 0 s ≡ done (e, ds) t
      → (ds ≡ schedule 0 (length ds)) × All (λ d. (2 ≤ d) × (d ≤ 30)) ds
  retry-schedule readings s t e ds h =
      let same = delays-schedule readings 0 s t (e, ds) h in
      (same, subst (All (λ d. (2 ≤ d) × (d ≤ 30))) (sym same) (schedule-All 0 (length ds)))

module _ (l : AmqpLib) {S : Type 0} (h : HasClient l S)
    (callback : ℕ → Bytes → M S (Unit {0})) where
  on_reply-ne-true :
      (more : M S (Option Bool)) (reply : Reply) (s t : S)
      → ((u : S) → more u ≢ done (some true) t)
      → on_reply l h callback more reply s ≢ done (some true) t
  on_reply-ne-true more (delivery tag body) s t ih e =
      let (x, u, called, rest) = >>=-eq-done (callback tag body) (λ _. more) s e in ih u rest
  on_reply-ne-true more timeout s t ih e = ih s e
  on_reply-ne-true more failure s t ih e = cc

  consume_loop-ne-true :
      (rounds : ℕ) (s t : S) → consume_loop l h callback rounds s ≢ done (some true) t
  unfolding consume_loop
  consume_loop-ne-true zero s t e = cc
  consume_loop-ne-true (suc rounds) s t e =
      let more = consume_loop l h callback rounds in
      let (reply, u, got, rest) =
        >>=-eq-done (next_reply l h callback) (on_reply l h callback more) s e in
      on_reply-ne-true more reply u t (λ v. consume_loop-ne-true rounds v t) rest

  -- However long it is watched, and whatever is delivered, `consume` never returns true: it goes on,
  -- or returns false.
  pub consume-ne-true : (rounds : ℕ) (s t : S) → consume l h callback rounds s ≢ done (some true) t
  unfolding consume
  consume-ne-true rounds s t e = elim (Bool-cases (h.client s).connected) [
    | inl c ↦ consume_loop-ne-true rounds s t (rw c at e)
    | inr c ↦ cc (rw c at e)
  ]

module _ (l : Libs) where
  run_consume-ne-zero :
      (rounds : ℕ) (s t : WorkerState l) → run_consume l rounds s ≢ done (some (pos 0)) t
  run_consume-ne-zero rounds s t e =
      let (r, u, consumed, ends) =
        >>=-eq-done (consume l.amqp (worker_client l) (on_message l) rounds)
          (λ r. return (exit_code l r)) s e in
      not_zero r u consumed ends
    where
      not_zero :
          (r : Option Bool) (u : WorkerState l)
          → consume l.amqp (worker_client l) (on_message l) rounds s ≡ done r u
          → done (exit_code l r) u ≢ done (some (pos 0)) t
      not_zero none u consumed ends = cc
      not_zero (some true) u consumed ends =
          consume-ne-true l.amqp (worker_client l) (on_message l) rounds s u consumed
      not_zero (some false) u consumed ends = ground arith

  run_mq-eq-zero :
      (g : Readings) (s t : WorkerState l)
      → run_mq l g s ≡ done (some (pos 0)) t
      → g.after_mq ≡ false
  run_mq-eq-zero g s t h =
      let (r, u, connected, ends) =
        >>=-eq-done (retry (on_mq l (Mq.connect l.amqp)) g.mq_loop 0) _ s h in
      elim (Bool-cases g.after_mq) [ inr e ↦ e | inl e ↦ absurd (still_on e r.0 u ends) ]
    where
      still_on :
          g.after_mq ≡ true
          → (o : Option Bool) (u : WorkerState l)
          → (elim o as (λ _. M (WorkerState l) (Option ℤ)) [
            | none ↦ return none
            | some _ ↦ if not g.after_mq then return (some (pos 0)) else run_consume l g.rounds
          ])
              u
            ≢ done (some (pos 0)) t
      still_on k none u e = cc
      still_on k (some b) u e = run_consume-ne-zero g.rounds u t (rw k at e)

  -- If `run` returns the exit code 0, then it was told to stop before it began to consume: `running_`
  -- was read as false behind one of the two connection loops.
  pub run-eq-zero :
      (g : Readings) (s t : WorkerState l)
      → run l g s ≡ done (some (pos 0)) t
      → (g.after_db ≡ false) ⊎ (g.after_mq ≡ false)
  unfolding run
  run-eq-zero g s t h =
      let (r, u, connected, ends) =
        >>=-eq-done (retry (on_db_client l (Db.connect l.mysql)) g.db_loop 0) _ s h in
      elim (Bool-cases g.after_db) [ inr e ↦ inl e | inl e ↦ inr (goes_on e r.0 u ends) ]
    where
      goes_on :
          g.after_db ≡ true
          → (o : Option Bool) (u : WorkerState l)
          → (elim o as (λ _. M (WorkerState l) (Option ℤ)) [
            | none ↦ return none
            | some _ ↦ if not g.after_db then return (some (pos 0)) else run_mq l g
          ])
              u
            ≡ done (some (pos 0)) t
          → g.after_mq ≡ false
      goes_on k none u e = absurd cc
      goes_on k (some b) u e = run_mq-eq-zero g u t (rw k at e)
