-- ===== src/Mq/Ledger.antt =====
-- A record of the calls of rabbitmq-c that src/mq/rabbitmq_client.cpp makes: the deliveries that they
-- return, and the answers that they are asked to send.
use flowstudy_judge.Common.{Bytes, ℕ, ℤ, ◌≡◌, List, [], ◌∷◌, ◌++◌, Option}
use flowstudy_judge.Mq.{AmqpLib, Reply, delivery, timeout, failure}

abbrev pub tags : Reply → List ℕ
tags (delivery tag body) = tag ∷ []
tags timeout = []
tags failure = []

-- Both lists are the same in two worlds.
abbrev pub Kept : {W : Type 0} → (W → List ℕ) × (W → List ℕ) → W → W → Type 0
Kept (delivered, answer_calls) w w' =
    (delivered w' ≡ delivered w) × (answer_calls w' ≡ answer_calls w)

-- The tags of the deliveries that `amqp_consume_message` has returned, and those that `amqp_basic_ack`
-- or `amqp_basic_nack` has been called for, each in their order. It is the calls that are recorded,
-- whether an answer reaches the broker or not.
pub record Ledger (a : AmqpLib) : Type 0 where
  pub delivered : a.World → List ℕ
  pub answer_calls : a.World → List ℕ
  pub consume_delivers :
      (conn : Option a.Connection) (w : a.World)
      → delivered (a.consume_message conn w).1 ≡ delivered w ++ tags (a.consume_message conn w).0
  pub consume_answers :
      (conn : Option a.Connection) (w : a.World)
      → answer_calls (a.consume_message conn w).1 ≡ answer_calls w
  pub ack_delivers :
      (conn : Option a.Connection) (channel : ℤ) (tag : ℕ) (w : a.World)
      → delivered (a.basic_ack conn channel tag w).1 ≡ delivered w
  pub ack_answers :
      (conn : Option a.Connection) (channel : ℤ) (tag : ℕ) (w : a.World)
      → answer_calls (a.basic_ack conn channel tag w).1 ≡ answer_calls w ++ tag ∷ []
  pub nack_delivers :
      (conn : Option a.Connection) (channel : ℤ) (tag : ℕ) (w : a.World)
      → delivered (a.basic_nack conn channel tag w).1 ≡ delivered w
  pub nack_answers :
      (conn : Option a.Connection) (channel : ℤ) (tag : ℕ) (w : a.World)
      → answer_calls (a.basic_nack conn channel tag w).1 ≡ answer_calls w ++ tag ∷ []
  -- While a connection is made, nothing is delivered or answered.
  pub keeps_new_connection : (w : a.World) → Kept (delivered, answer_calls) w (a.new_connection w).1
  pub keeps_tcp_socket_new :
      (conn : a.Connection) (w : a.World)
      → Kept (delivered, answer_calls) w (a.tcp_socket_new conn w).1
  pub keeps_socket_open :
      (socket : a.Socket) (host : Bytes) (port : ℤ) (w : a.World)
      → Kept (delivered, answer_calls) w (a.socket_open socket host port w).1
  pub keeps_login :
      (conn : a.Connection) (vhost user password : Bytes) (w : a.World)
      → Kept (delivered, answer_calls) w (a.login conn vhost user password w).1
  pub keeps_channel_open :
      (conn : a.Connection) (channel : ℤ) (w : a.World)
      → Kept (delivered, answer_calls) w (a.channel_open conn channel w).1
  pub keeps_queue_declare :
      (conn : a.Connection) (channel : ℤ) (name : Bytes) (w : a.World)
      → Kept (delivered, answer_calls) w (a.queue_declare conn channel name w).1
  pub keeps_basic_qos :
      (conn : a.Connection) (channel : ℤ) (w : a.World)
      → Kept (delivered, answer_calls) w (a.basic_qos conn channel w).1
  pub keeps_basic_consume :
      (conn : a.Connection) (channel : ℤ) (name : Bytes) (w : a.World)
      → Kept (delivered, answer_calls) w (a.basic_consume conn channel name w).1
