-- ===== src/Mq/Consume.antt =====
-- `RabbitMQClient::consume` of src/mq/rabbitmq_client.cpp.
use flowstudy_judge.Common.{
  ℕ, zero, suc, Bytes, Bool, false, not, Option, none, some, if◌then◌else◌, M, done, return, ◌>>=◌,
  ◌>>◌,
}
use flowstudy_judge.Mq.{AmqpLib, RabbitMqClient, Reply, delivery, timeout, failure}

-- A state that holds the client, such as the worker's.
pub record HasClient (l : AmqpLib) (S : Type 0) : Type 0 where
  pub client : S → RabbitMqClient l
  pub set_client : S → RabbitMqClient l → S

module _ (l : AmqpLib) {S : Type 0} (h : HasClient l S)
    (callback : ℕ → Bytes → M S (Unit {0})) where
  -- `amqp_consume_message`
  abbrev pub next_reply : M S Reply
  next_reply s =
      let c = h.client s in
      let (reply, w) = l.consume_message c.conn c.world in
      done reply (h.set_client s (record c { world = w }))

  -- What a reply leads to; `more` is the rest of the loop.
  abbrev pub on_reply : M S (Option Bool) → Reply → M S (Option Bool)
  on_reply more (delivery tag body) = callback tag body >> more
  on_reply more timeout = more
  on_reply more failure = return (some false)

  -- The loop, watched for this number of rounds; `none` says that it still runs then.
  unfoldable pub consume_loop : ℕ → M S (Option Bool)
  consume_loop zero = return none
  consume_loop (suc rounds) = ◌>>=◌ next_reply (on_reply (consume_loop rounds))

  unfoldable pub consume : ℕ → M S (Option Bool)
  unfolding consume_loop
  consume rounds s =
      if not (h.client s).connected then done (some false) s else consume_loop rounds s
