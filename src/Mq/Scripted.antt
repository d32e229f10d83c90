-- ===== src/Mq/Scripted.antt =====
-- A broker to try the models of src/mq/rabbitmq_client.cpp and src/worker/worker.cpp on.
use flowstudy_judge.Common.{
  ℕ, Bool, true, false, pos, List, [], ◌∷◌, ◌++◌, some, map, map-append, append-nil, ◌≡◌, refl, sym,
}
use flowstudy_judge.Config.{default_config}
use flowstudy_judge.Mq.{AmqpLib, RabbitMqClient, Reply, failure}
use flowstudy_judge.Mq.Ledger.{Ledger, tags}

-- What has been settled, as a tag with true for an acknowledgement, and what is still to come and what has been
-- delivered.
pub record Broker : Type 0 where
  pub inbox : List Reply
  pub settled : List (ℕ × Bool)
  pub delivered : List ℕ

abbrev next : Broker → List Reply → Reply × Broker
next b [] = (failure, b)
next b (r ∷ rs) = (r, record b { inbox = rs; delivered = b.delivered ++ tags r })

abbrev pub amqp : AmqpLib
amqp = record {
  World = Broker;
  Connection = Unit {0};
  Socket = Unit {0};
  new_connection = λ w. (tt, w);
  tcp_socket_new = λ c w. (some tt, w);
  socket_open = λ s host port w. (true, w);
  login = λ c vhost user password w. (true, w);
  channel_open = λ c channel w. (true, w);
  queue_declare = λ c channel name w. (true, w);
  basic_qos = λ c channel w. (true, w);
  basic_consume = λ c channel name w. (true, w);
  consume_message = λ c w. next w w.inbox;
  basic_ack = λ c channel tag w. (true, record w { settled = w.settled ++ (tag, true) ∷ [] });
  basic_nack = λ c channel tag w. (true, record w { settled = w.settled ++ (tag, false) ∷ [] });
  channel_close = λ c channel w. w;
  connection_close = λ c w. w;
  destroy_connection = λ c w. w;
}

abbrev pub broker : List Reply → Broker
broker inbox = record { inbox = inbox; settled = []; delivered = [] }

abbrev pub client : Broker → RabbitMqClient amqp
client w = record {
  config = default_config.rabbitmq;
  conn = some tt;
  socket = some tt;
  channel = pos 1;
  connected = true;
  consuming = true;
  world = w;
}

abbrev answered : Broker → List ℕ
answered w = map (λ x. x.0) w.settled

pub next-delivered :
    (w : Broker) (inbox : List Reply)
    → (next w inbox).1.delivered ≡ w.delivered ++ tags (next w inbox).0
next-delivered w [] = sym (append-nil w.delivered)
next-delivered w (r ∷ rs) = refl

pub next-answered : (w : Broker) (inbox : List Reply) → answered (next w inbox).1 ≡ answered w
next-answered w [] = refl
next-answered w (r ∷ rs) = refl

unfoldable pub ledger : Ledger amqp
ledger = record {
  delivered = λ w. w.delivered;
  answer_calls = answered;
  consume_delivers = λ conn w. next-delivered w w.inbox;
  consume_answers = λ conn w. next-answered w w.inbox;
  ack_delivers = λ conn channel tag w. refl;
  ack_answers = λ conn channel tag w. map-append (λ x. x.0) w.settled ((tag, true) ∷ []);
  nack_delivers = λ conn channel tag w. refl;
  nack_answers = λ conn channel tag w. map-append (λ x. x.0) w.settled ((tag, false) ∷ []);
  keeps_new_connection = λ w. (refl, refl);
  keeps_tcp_socket_new = λ conn w. (refl, refl);
  keeps_socket_open = λ socket host port w. (refl, refl);
  keeps_login = λ conn vhost user password w. (refl, refl);
  keeps_channel_open = λ conn channel w. (refl, refl);
  keeps_queue_declare = λ conn channel name w. (refl, refl);
  keeps_basic_qos = λ conn channel w. (refl, refl);
  keeps_basic_consume = λ conn channel name w. (refl, refl);
}
