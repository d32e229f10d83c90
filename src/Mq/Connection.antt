-- ===== src/Mq/Connection.antt =====
-- What `RabbitMQClient::connect` of src/mq/rabbitmq_client.cpp leaves in the client.
use flowstudy_judge.Common.{
  Bool, true, false, not, ◌≡◌, refl, ℤ, Option, none, some, Bool-cases, inl, inr, if◌then◌else◌, M,
  Outcome, done, threw, hung, return, ◌>>=◌,
}
use flowstudy_judge.Config.{RabbitMqConfig}
use flowstudy_judge.Mq.{AmqpLib, RabbitMqClient, on_client, open_channel, connect}

module _ (l : AmqpLib) where
  -- The call returns; if it returns true then the client is connected and consumes, and has a
  -- connection, else it says of both what it said before. The rest of its settings stay.
  abbrev pub Reports : RabbitMqClient l → Outcome (RabbitMqClient l) Bool → Type 0
  Reports c (done success c') =
      (c'.connected ≡ (if success then true else c.connected))
      × (c'.consuming ≡ (if success then true else c.consuming))
      × (c'.config ≡ c.config)
      × (c'.channel ≡ c.channel)
      × ((conn : l.Connection) × (c'.conn ≡ some conn))
  Reports c (threw c') = ⊥
  Reports c (hung c') = ⊥

  -- If a step of `open_channel` only changes the world, the rest decides.
  step-Reports :
      (c d : RabbitMqClient l) (f : l.World → Bool × l.World) (next : M (RabbitMqClient l) Bool)
      → ((w : l.World) → Reports c (next (record d { world = w })))
      → ((w : l.World) → Reports c (done false (record d { world = w })))
      → Reports c (◌>>=◌ (on_client l f) (λ b. if not b then return false else next) d)
  step-Reports c d f next h k = elim (Bool-cases (f d.world).0) [
    | inl e ↦ rw e (h (f d.world).1)
    | inr e ↦ rw e (k (f d.world).1)
  ]

  open_channel-Reports :
      (conn : l.Connection) (socket : l.Socket) (cfg : RabbitMqConfig) (channel : ℤ)
      (c d : RabbitMqClient l)
      → ((w : l.World) → Reports c (done false (record d { world = w })))
      → ((w : l.World)
          → Reports c (done true (record d { world = w; connected = true; consuming = true })))
      → Reports c (open_channel l conn socket cfg channel d)
  open_channel-Reports conn socket cfg channel c d fails works =
      step-Reports c d (l.socket_open socket cfg.hostname cfg.port) _
        (λ w.
          step-Reports c (at w) (l.login conn cfg.vhost cfg.username cfg.password) _
            (λ w.
              step-Reports c (at w) (l.channel_open conn channel) _
                (λ w.
                  step-Reports c (at w) (l.queue_declare conn channel cfg.queue_name) _
                    (λ w.
                      step-Reports c (at (l.basic_qos conn channel w).1)
                        (l.basic_consume conn channel cfg.queue_name) _ works fails)
                    fails)
                fails)
            fails)
        fails
    where
      at : l.World → RabbitMqClient l
      at w = record d { world = w }

  -- `connect` always returns. If it returns true, then the client is connected, consumes, and has a
  -- connection; if it returns false, then it says of both what it said before. The configuration
  -- and the channel stay.
  pub connect-Reports : (c : RabbitMqClient l) → Reports c (connect l c)
  unfolding connect
  connect-Reports c =
      let (conn, w) = l.new_connection c.world in
      let (socket, w') = l.tcp_socket_new conn w in go conn socket w'
    where
      go :
          (conn : l.Connection) (socket : Option l.Socket) (w : l.World)
          → Reports c (elim socket as (λ _. Outcome (RabbitMqClient l) Bool) [
            | none ↦ done false (record c { conn = some conn; socket = socket; world = w })
            | some s ↦
                open_channel l conn s c.config c.channel
                  (record c { conn = some conn; socket = socket; world = w })
          ])
      go conn none w = (refl, refl, refl, refl, (conn, refl))
      go conn (some s) w =
          open_channel-Reports conn s c.config c.channel c _
            (λ w. (refl, refl, refl, refl, (conn, refl)))
            (λ w. (refl, refl, refl, refl, (conn, refl)))
