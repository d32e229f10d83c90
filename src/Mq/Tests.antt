-- ===== src/Mq/Tests.antt =====
-- An instance for the connection of src/mq/rabbitmq_client.cpp.
use flowstudy_judge.Common.{[], done, ◌≡◌, refl, true}
use flowstudy_judge.Config.{default_config}
use flowstudy_judge.Mq.{connect, new_client}
use flowstudy_judge.Mq.Scripted.{amqp, broker, client}
use flowstudy_judge.Mq.Connection.{Reports, connect-Reports}

new_client_connects :
    connect amqp (new_client amqp default_config.rabbitmq (broker []))
    ≡ done true (client (broker []))
unfolding connect new_client
new_client_connects = refl

connect-Reports_example :
    Reports amqp
      (new_client amqp default_config.rabbitmq (broker []))
      (connect amqp (new_client amqp default_config.rabbitmq (broker [])))
connect-Reports_example = connect-Reports amqp (new_client amqp default_config.rabbitmq (broker []))
