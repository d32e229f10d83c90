-- ===== src/Worker/Refine.antt =====
-- The consume loop of src/mq/rabbitmq_client.cpp with `Worker::on_message` of src/worker/worker.cpp,
-- against Worker/Spec.
use flowstudy_judge.Common.{
  ℕ, zero, suc, Bool, false, ◌≡◌, refl, sym, ap, subst, Option, some, M, Outcome, done, threw, ◌∙◌,
  >>=-done, >>=-threw, >>=-hung, Bool-cases, inl, inr,
}
use flowstudy_judge.Db.Server.{Server, IsIdle}
use flowstudy_judge.Mq.{Reply, delivery, timeout, failure}
use flowstudy_judge.Mq.Consume.{consume, consume_loop, on_reply}
use flowstudy_judge.Worker.{Libs, WorkerState, on_message}
use flowstudy_judge.Worker.Run.{worker_client}
use flowstudy_judge.Worker.Spec.{
  view, view_outcome, Replies, waits, Runs, watched, and_then, breaks_off, throws, cannot_escape,
  hangs, Consumes, has_no_connection, loops,
}
use flowstudy_judge.Worker.Rounds.{message-Handled, returned, thrown, blocked, unescaped}

module _ (l : Libs) (v : Server l.mysql) where
  -- From `s` the loop ends so.
  abbrev Run : ℕ → WorkerState l → Outcome (WorkerState l) (Option Bool) → Type 0
  Run rounds s o = Runs l v rounds (view l v s) (view_outcome l v o)

  abbrev loop : ℕ → M (WorkerState l) (Option Bool)
  loop = consume_loop l.amqp (worker_client l) (on_message l)

  abbrev heard : WorkerState l → WorkerState l
  heard s = record s {
    mq = record (s.mq) { world = (l.amqp.consume_message s.mq.conn s.mq.world).1 };
  }

  on_reply-Run :
      (rounds : ℕ) (s : WorkerState l) (reply : Reply)
      → IsIdle l.mysql v s.db
      → ((t : WorkerState l) → IsIdle l.mysql v t.db → Run rounds t (loop rounds t))
      → (l.amqp.consume_message s.mq.conn s.mq.world).0 ≡ reply
      → Run
          (suc rounds)
          s
          (on_reply l.amqp (worker_client l) (on_message l) (loop rounds) reply (heard s))
  on_reply-Run rounds s (delivery tag body) idle ih r =
      let c = (heard s).mq in
      let heard_it : Replies l v s.mq c (delivery tag body) = record {
        reply_is = r;
        client_is = refl;
      } in
      let m = on_message l tag body in
      elim (message-Handled l v s c tag body heard_it idle) [
        | returned t e (round, idle') ↦
            and_then round
              (subst (Run rounds t) (sym (>>=-done m (λ _. loop rounds) (heard s) e)) (ih t idle'))
        | thrown sub j parses judges e ↦
            throws c tag body sub j heard_it parses judges
              (ap (view_outcome l v) (>>=-threw m (λ _. loop rounds) (heard s) e))
        | unescaped sub out j db w t parses judges refuses e same ↦
            cannot_escape c tag body sub out j db w heard_it parses judges refuses
              (ap (view_outcome l v) (>>=-threw m (λ _. loop rounds) (heard s) e) ∙ ap threw same)
        | blocked sub j parses judges e ↦
            hangs c tag body sub j heard_it parses judges
              (ap (view_outcome l v) (>>=-hung m (λ _. loop rounds) (heard s) e))
      ]
  on_reply-Run rounds s timeout idle ih r =
      and_then (waits (heard s).mq (record { reply_is = r; client_is = refl }) refl)
        (ih (heard s) idle)
  on_reply-Run rounds s failure idle ih r =
      breaks_off (heard s).mq (record { reply_is = r; client_is = refl }) refl

  consume_loop-Run :
      (rounds : ℕ) (s : WorkerState l) → IsIdle l.mysql v s.db → Run rounds s (loop rounds s)
  unfolding consume_loop
  consume_loop-Run zero s idle = watched refl
  consume_loop-Run (suc rounds) s idle =
      on_reply-Run rounds s _ idle (λ t idle'. consume_loop-Run rounds t idle') refl

  pub consume-Consumes :
      (rounds : ℕ) (s : WorkerState l)
      → IsIdle l.mysql v s.db
      → Consumes l v rounds
          (view l v s)
          (view_outcome l v (consume l.amqp (worker_client l) (on_message l) rounds s))
  unfolding consume
  consume-Consumes rounds s idle = elim (Bool-cases s.mq.connected) [
    | inl e ↦
        let same : consume l.amqp (worker_client l) (on_message l) rounds s ≡ loop rounds s =
          simp e in
        loops e (subst (Run rounds s) (sym same) (consume_loop-Run rounds s idle))
    | inr e ↦
        let same : consume l.amqp (worker_client l) (on_message l) rounds s ≡ done (some false) s =
          simp e in
        has_no_connection e (ap (view_outcome l v) same)
  ]
