-- ===== src/Mq/Kept.antt =====
-- What `RabbitMQClient::connect` of src/mq/rabbitmq_client.cpp keeps of a broker's ledger.
use flowstudy_judge.Common.{
  Bool, false, not, ◌≡◌, sym, ◌∙◌, ℤ, Option, none, some, Bool-cases, inl, inr, if◌then◌else◌, M,
  Outcome, done, threw, hung, return, ◌>>=◌,
}
use flowstudy_judge.Config.{RabbitMqConfig}
use flowstudy_judge.Mq.{AmqpLib, RabbitMqClient, on_client, open_channel, connect}
use flowstudy_judge.Mq.Ledger.{Ledger, Kept}

module _ (a : AmqpLib) (g : Ledger a) where
  -- For every delivery so far an answer has been called for, once and in the order of delivery.
  abbrev pub IsSettled : a.World → Type 0
  IsSettled w = g.answer_calls w ≡ g.delivered w

  IsSettled-Kept :
      (w w' : a.World) → Kept (g.delivered, g.answer_calls) w w' → IsSettled w → IsSettled w'
  IsSettled-Kept w w' (d, n) h = n ∙ h ∙ sym d

  -- The call returns, and leaves a settled world.
  abbrev pub Settles : Outcome (RabbitMqClient a) Bool → Type 0
  Settles (done b c) = IsSettled c.world
  Settles (threw c) = ⊥
  Settles (hung c) = ⊥

  step-Settles :
      (d : RabbitMqClient a) (f : a.World → Bool × a.World) (next : M (RabbitMqClient a) Bool)
      → Kept (g.delivered, g.answer_calls) d.world (f d.world).1
      → ((w : a.World) → IsSettled w → Settles (next (record d { world = w })))
      → IsSettled d.world
      → Settles (◌>>=◌ (on_client a f) (λ b. if not b then return false else next) d)
  step-Settles d f next kept h settled =
      let settled' = IsSettled-Kept d.world (f d.world).1 kept settled in
      elim (Bool-cases (f d.world).0) [
        | inl e ↦ rw e (h (f d.world).1 settled')
        | inr e ↦ rw e settled'
      ]

  open_channel-Settles :
      (conn : a.Connection) (socket : a.Socket) (cfg : RabbitMqConfig) (channel : ℤ)
      (d : RabbitMqClient a)
      → IsSettled d.world
      → Settles (open_channel a conn socket cfg channel d)
  open_channel-Settles conn socket cfg channel d =
      step-Settles d (a.socket_open socket cfg.hostname cfg.port) _
        (g.keeps_socket_open socket cfg.hostname cfg.port d.world)
        (λ w.
          step-Settles (at w) (a.login conn cfg.vhost cfg.username cfg.password) _
            (g.keeps_login conn cfg.vhost cfg.username cfg.password w)
            (λ w.
              step-Settles (at w) (a.channel_open conn channel) _
                (g.keeps_channel_open conn channel w)
                (λ w.
                  step-Settles (at w) (a.queue_declare conn channel cfg.queue_name) _
                    (g.keeps_queue_declare conn channel cfg.queue_name w)
                    (λ w h.
                      let w' = (a.basic_qos conn channel w).1 in
                      step-Settles (at w') (a.basic_consume conn channel cfg.queue_name) _
                        (g.keeps_basic_consume conn channel cfg.queue_name w') (λ w h. h)
                        (IsSettled-Kept w w' (g.keeps_basic_qos conn channel w) h)))))
    where
      at : a.World → RabbitMqClient a
      at w = record d { world = w }

  pub connect-Settles : (c : RabbitMqClient a) → IsSettled c.world → Settles (connect a c)
  unfolding connect
  connect-Settles c h =
      let (conn, w) = a.new_connection c.world in
      let (socket, w') = a.tcp_socket_new conn w in
      go conn socket w' (
        IsSettled-Kept w w' (g.keeps_tcp_socket_new conn w)
          (IsSettled-Kept c.world w (g.keeps_new_connection c.world) h))
    where
      go :
          (conn : a.Connection) (socket : Option a.Socket) (w : a.World)
          → IsSettled w
          → Settles (elim socket as (λ _. Outcome (RabbitMqClient a) Bool) [
            | none ↦ done false (record c { conn = some conn; socket = socket; world = w })
            | some s ↦
                open_channel a conn s c.config c.channel
                  (record c { conn = some conn; socket = socket; world = w })
          ])
      go conn none w h = h
      go conn (some s) w h = open_channel-Settles conn s c.config c.channel _ h
