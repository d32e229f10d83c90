-- ===== src/Mq.antt =====
-- The RabbitMQ client, src/mq/rabbitmq_client.h and src/mq/rabbitmq_client.cpp. rabbitmq-c is a
-- parameter.
pub mod Consume
pub mod Connection
pub mod Ledger
pub mod Kept
pub mod Scripted
mod Tests
use flowstudy_judge.Common.{
  ℕ, Bytes, Bool, true, false, not, ℤ, pos, Option, none, some, if◌then◌else◌, M, done, return,
  ◌>>=◌,
}
use flowstudy_judge.Config.{RabbitMqConfig}

-- What `amqp_consume_message` reports: a delivery with its tag and body, a timeout, or another
-- failure.
pub data Reply : Type 0 where
  delivery : ℕ → Bytes → Reply
  timeout failure : Reply

-- rabbitmq-c, and the world behind it; a Boolean says that the reply is a normal one, or that the
-- status is `AMQP_STATUS_OK`.
pub record AmqpLib : Type 1 where
  pub World : Type 0
  pub Connection : Type 0
  pub Socket : Type 0
  pub new_connection : World → Connection × World
  pub tcp_socket_new : Connection → World → Option Socket × World
  pub socket_open : Socket → Bytes → ℤ → World → Bool × World
  -- vhost, user name and password
  pub login : Connection → Bytes → Bytes → Bytes → World → Bool × World
  pub channel_open : Connection → ℤ → World → Bool × World
  -- a durable queue
  pub queue_declare : Connection → ℤ → Bytes → World → Bool × World
  -- `prefetch_count` 1
  pub basic_qos : Connection → ℤ → World → Bool × World
  pub basic_consume : Connection → ℤ → Bytes → World → Bool × World
  pub consume_message : Option Connection → World → Reply × World
  pub basic_ack : Option Connection → ℤ → ℕ → World → Bool × World
  -- with `multiple` off and `requeue` on
  pub basic_nack : Option Connection → ℤ → ℕ → World → Bool × World
  pub channel_close : Connection → ℤ → World → World
  pub connection_close : Connection → World → World
  pub destroy_connection : Connection → World → World

-- The members of `RabbitMQClient::Impl`, and the world.
pub record RabbitMqClient (l : AmqpLib) : Type 0 where
  pub config : RabbitMqConfig
  pub conn : Option l.Connection
  pub socket : Option l.Socket
  pub channel : ℤ
  pub connected : Bool
  pub consuming : Bool
  pub world : l.World

module _ (l : AmqpLib) where
  unfoldable pub new_client : RabbitMqConfig → l.World → RabbitMqClient l
  new_client cfg w = record {
    config = cfg;
    conn = none;
    socket = none;
    channel = pos 1;
    connected = false;
    consuming = false;
    world = w;
  }

  -- A call of the library with the client's world.
  abbrev on_client : {A : Type 0} → (l.World → A × l.World) → M (RabbitMqClient l) A
  on_client f c = done (f c.world).0 (record c { world = (f c.world).1 })

  -- What `connect` does once it has a connection and a socket. The channel and the queue name are
  -- those of the client at the start; no step changes them.
  abbrev open_channel : l.Connection → l.Socket → RabbitMqConfig → ℤ → M (RabbitMqClient l) Bool
  open_channel conn socket cfg channel = do
    opened ← on_client (l.socket_open socket cfg.hostname cfg.port)
    if not opened then return false else do
      logged_in ← on_client (l.login conn cfg.vhost cfg.username cfg.password)
      if not logged_in then return false else do
        channel_opened ← on_client (l.channel_open conn channel)
        if not channel_opened then return false else do
          declared ← on_client (l.queue_declare conn channel cfg.queue_name)
          if not declared then return false else do
            _ ← on_client (l.basic_qos conn channel)
            started ← on_client (l.basic_consume conn channel cfg.queue_name)
            if not started
                then return false
                else (λ c. done true (record c { connected = true; consuming = true }))

  unfoldable pub connect : M (RabbitMqClient l) Bool
  connect c =
      let (conn, w) = l.new_connection c.world in
      let (socket, w') = l.tcp_socket_new conn w in
      let c' = record c { conn = some conn; socket = socket; world = w' } in
      elim socket [ none ↦ done false c' | some s ↦ open_channel conn s c.config c.channel c' ]

  unfoldable pub ack : ℕ → M (RabbitMqClient l) Bool
  ack delivery_tag c =
      if not c.connected
      then done false c
      else on_client (l.basic_ack c.conn c.channel delivery_tag) c

  unfoldable pub nack_requeue : ℕ → M (RabbitMqClient l) Bool
  nack_requeue delivery_tag c =
      if not c.connected
      then done false c
      else on_client (l.basic_nack c.conn c.channel delivery_tag) c

  -- The destructor.
  abbrev close_handle : RabbitMqClient l → l.Connection → l.World
  close_handle c conn =
      let w = if c.consuming then l.channel_close conn c.channel c.world else c.world in
      l.destroy_connection conn (l.connection_close conn w)

  unfoldable pub close_client : RabbitMqClient l → l.World
  close_client c = elim c.conn [ none ↦ c.world | some conn ↦ close_handle c conn ]

  unfoldable pub is_connected : RabbitMqClient l → Bool
  is_connected c = c.connected
