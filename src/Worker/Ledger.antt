-- ===== src/Worker/Ledger.antt =====
-- What the broker has delivered to the worker of src/worker/worker.cpp, and what the worker has answered.
use flowstudy_judge.Common.{
  ℕ, Bool, true, ◌≡◌, refl, sym, ap, ◌∙◌, subst, [], ◌∷◌, ◌++◌, append-nil, Option, Outcome, done,
  threw, hung,
}
use flowstudy_judge.Db.Server.{Server, IsIdle}
use flowstudy_judge.Mq.{RabbitMqClient, Reply, delivery, timeout, failure}
use flowstudy_judge.Mq.Ledger.{Ledger, tags}
use flowstudy_judge.Mq.Kept.{IsSettled}
use flowstudy_judge.Mq.Consume.{consume}
use flowstudy_judge.Worker.{Libs, WorkerState, on_message}
use flowstudy_judge.Worker.Run.{worker_client}
use flowstudy_judge.Worker.Settle.{acked, requeued}
use flowstudy_judge.Worker.Spec.{
  View, view, view_outcome, Replies, Round, waits, discards, records, requeues, requeues_written,
  cannot_escape, Runs, watched, and_then, breaks_off, throws, hangs, Consumes, has_no_connection,
  loops,
}
use flowstudy_judge.Worker.Refine.{consume-Consumes}

module _ (l : Libs) (v : Server l.mysql) (g : Ledger l.amqp) where
  -- For every delivery but the last.
  abbrev pub LacksLast : RabbitMqClient l.amqp → Type 0
  LacksLast c = (tag : ℕ) × (g.delivered c.world ≡ g.answer_calls c.world ++ tag ∷ [])

  abbrev pub Ends : {A : Type 0} → Outcome (View l v) A → Type 0
  Ends (done a s) = IsSettled l.amqp g s.mq.world
  Ends (threw s) = LacksLast s.mq
  Ends (hung s) = LacksLast s.mq

  abbrev Good : RabbitMqClient l.amqp → Type 0
  Good c = (c.connected ≡ true) × IsSettled l.amqp g c.world

  -- A delivery waits for its answer.
  abbrev Open : ℕ → RabbitMqClient l.amqp → Type 0
  Open tag c = (c.connected ≡ true) × (g.delivered c.world ≡ g.answer_calls c.world ++ tag ∷ [])

  module _ (s : View l v) (good : Good s.mq) where
    -- A reply without a delivery.
    after_none :
        (c : RabbitMqClient l.amqp) (r : Reply) → tags r ≡ [] → Replies l v s.mq c r → Good c
    after_none c r none_there heard =
        let w = s.mq.world in
        let delivers =
          g.consume_delivers s.mq.conn w
          ∙ ap (λ r. g.delivered w ++ tags r) heard.reply_is
          ∙ ap (λ ts. g.delivered w ++ ts) none_there
          ∙ append-nil (g.delivered w) in
        subst Good (sym heard.client_is)
          (good.0, g.consume_answers s.mq.conn w ∙ good.1 ∙ sym delivers)

    -- A delivery.
    after_delivery :
        (c : RabbitMqClient l.amqp) (r : Reply) (tag : ℕ)
        → tags r ≡ tag ∷ []
        → Replies l v s.mq c r
        → Open tag c
    after_delivery c r tag one_there heard =
        let w = s.mq.world in
        let delivers =
          g.consume_delivers s.mq.conn w
          ∙ ap (λ r. g.delivered w ++ tags r) heard.reply_is
          ∙ ap (λ ts. g.delivered w ++ ts) one_there
          ∙ ap (λ ts. ts ++ tag ∷ []) (sym good.1 ∙ sym (g.consume_answers s.mq.conn w)) in
        subst (Open tag) (sym heard.client_is) (good.0, delivers)

  acked-Good : (tag : ℕ) (c : RabbitMqClient l.amqp) → Open tag c → Good (acked l tag c)
  acked-Good tag c (on, e) =
      let sent : acked l tag c
          ≡ record c { world = (l.amqp.basic_ack c.conn c.channel tag c.world).1 } =
        rw on refl in
      subst Good (sym sent) (
        on,
        g.ack_answers c.conn c.channel tag c.world
            ∙ sym e
            ∙ sym (g.ack_delivers c.conn c.channel tag c.world),
      )

  requeued-Good : (tag : ℕ) (c : RabbitMqClient l.amqp) → Open tag c → Good (requeued l tag c)
  requeued-Good tag c (on, e) =
      let sent : requeued l tag c
          ≡ record c { world = (l.amqp.basic_nack c.conn c.channel tag c.world).1 } =
        rw on refl in
      subst Good (sym sent) (
        on,
        g.nack_answers c.conn c.channel tag c.world
            ∙ sym e
            ∙ sym (g.nack_delivers c.conn c.channel tag c.world),
      )

  Round-Good : {s t : View l v} → Round l v s t → Good s.mq → Good t.mq
  Round-Good {s} {t} (waits c heard same) good =
      subst Good (sym (ap (λ (x : View l v). x.mq) same)) (after_none s good c timeout refl heard)
  Round-Good {s} {t} (discards c tag body heard refused same) good =
      subst Good (sym (ap (λ (x : View l v). x.mq) same))
        (acked-Good tag c (after_delivery s good c (delivery tag body) tag refl heard))
  Round-Good {s} {t} (records c tag body sub out j db heard parses judges same) good =
      subst Good (sym (ap (λ (x : View l v). x.mq) same))
        (acked-Good tag c (after_delivery s good c (delivery tag body) tag refl heard))
  Round-Good {s} {t} (requeues_written c tag body sub out j db w heard parses judges failed same)
        good =
      subst Good (sym (ap (λ (x : View l v). x.mq) same))
        (requeued-Good tag c (after_delivery s good c (delivery tag body) tag refl heard))
  Round-Good {s} {t} (requeues c tag body sub out j heard parses judges same) good =
      subst Good (sym (ap (λ (x : View l v). x.mq) same))
        (requeued-Good tag c (after_delivery s good c (delivery tag body) tag refl heard))

  Runs-Ends :
      {n : ℕ} {s : View l v} {o : Outcome (View l v) (Option Bool)}
      → Runs l v n s o
      → Good s.mq
      → Ends o
  Runs-Ends (watched e) good = subst Ends (sym e) good.1
  Runs-Ends (and_then round rest) good = Runs-Ends rest (Round-Good round good)
  Runs-Ends {s = s} (breaks_off c heard e) good =
      subst Ends (sym e) (after_none s good c failure refl heard).1
  Runs-Ends {s = s} (throws c tag body sub j heard parses judges e) good =
      subst Ends (sym e) (tag, (after_delivery s good c (delivery tag body) tag refl heard).1)
  Runs-Ends {s = s} (cannot_escape c tag body sub out j db w heard parses judges refuses e) good =
      subst Ends (sym e) (tag, (after_delivery s good c (delivery tag body) tag refl heard).1)
  Runs-Ends {s = s} (hangs c tag body sub j heard parses judges e) good =
      subst Ends (sym e) (tag, (after_delivery s good c (delivery tag body) tag refl heard).1)

  -- If the calls of the broker's library are recorded, the database's server behaves as documented, no
  -- transaction is open, and an answer has been called for for every delivery so far, then `consume`,
  -- watched for any number of rounds, calls for an answer exactly once for every delivery and in the
  -- order of delivery: so it stands when the call returns and after each round. Only where an exception
  -- leaves the call, or it blocks, the last delivery has no answer.
  pub consume-Ends :
      (rounds : ℕ) (s : WorkerState l)
      → IsIdle l.mysql v s.db
      → IsSettled l.amqp g s.mq.world
      → Ends (view_outcome l v (consume l.amqp (worker_client l) (on_message l) rounds s))
  consume-Ends rounds s idle settled = go (consume-Consumes l v rounds s idle)
    where
      go : {o : Outcome (View l v) (Option Bool)} → Consumes l v rounds (view l v s) o → Ends o
      go (has_no_connection off e) = subst Ends (sym e) settled
      go (loops on runs) = Runs-Ends runs (on, settled)
