-- ===== src/Config/Settings.antt =====
-- The settings of a configuration file for src/config/config.cpp, field by field.
use flowstudy_judge.Common.{Bytes, bytes, true, false, ℤ, ◌≡◌, ◌⊎◌, some}
use flowstudy_judge.Config.{RabbitMqConfig, MySqlConfig, IsolateConfig, AppConfig, default_config}
use flowstudy_judge.Json.{JsonLib}

module _ (l : JsonLib) where
  -- The new value is the one that `Reads` finds under the key, or the old one where the key is missing.
  abbrev pub Under : {A : Type 0} → (l.Json → A → Type 0) → l.Json → Bytes → A → A → Type 0
  Under Reads j key old new =
      ((l.contains j key ≡ false) × (new ≡ old))
      ⊎ ((v : l.Json) × (l.contains j key ≡ true) × (l.at j key ≡ some v) × Reads v new)

  abbrev pub StringUnder : l.Json → Bytes → Bytes → Bytes → Type 0
  StringUnder = Under (λ v s. l.get_string v ≡ some s)

  abbrev pub IntUnder : l.Json → Bytes → ℤ → ℤ → Type 0
  IntUnder = Under (λ v n. l.get_int v ≡ some n)

  pub record RabbitMqSettings (r : l.Json) (c c' : RabbitMqConfig) : Type 0 where
    pub hostname_is : StringUnder r (bytes "hostname") c.hostname c'.hostname
    pub port_is : IntUnder r (bytes "port") c.port c'.port
    pub vhost_is : StringUnder r (bytes "vhost") c.vhost c'.vhost
    pub username_is : StringUnder r (bytes "username") c.username c'.username
    pub password_is : StringUnder r (bytes "password") c.password c'.password
    pub queue_name_is : StringUnder r (bytes "queue_name") c.queue_name c'.queue_name

  pub record MySqlSettings (m : l.Json) (c c' : MySqlConfig) : Type 0 where
    pub hostname_is : StringUnder m (bytes "hostname") c.hostname c'.hostname
    pub port_is : IntUnder m (bytes "port") c.port c'.port
    pub username_is : StringUnder m (bytes "username") c.username c'.username
    pub password_is : StringUnder m (bytes "password") c.password c'.password
    pub database_is : StringUnder m (bytes "database") c.database c'.database

  pub record IsolateSettings (i : l.Json) (c c' : IsolateConfig) : Type 0 where
    pub binary_path_is : StringUnder i (bytes "binary_path") c.binary_path c'.binary_path
    pub box_id_start_is : IntUnder i (bytes "box_id_start") c.box_id_start c'.box_id_start
    pub num_boxes_is : IntUnder i (bytes "num_boxes") c.num_boxes c'.num_boxes

  -- The settings of the file, each in its section.
  pub record Settings (j : l.Json) (c : AppConfig) : Type 0 where
    pub rabbitmq_is :
        Under
          (λ r. RabbitMqSettings r default_config.rabbitmq)
          j
          (bytes "rabbitmq")
          default_config.rabbitmq
          c.rabbitmq
    pub mysql_is :
        Under
          (λ m. MySqlSettings m default_config.mysql)
          j
          (bytes "mysql")
          default_config.mysql
          c.mysql
    pub isolate_is :
        Under
          (λ i. IsolateSettings i default_config.isolate)
          j
          (bytes "isolate")
          default_config.isolate
          c.isolate
    pub concurrency_is :
        Under
          (λ jd jc.
            IntUnder jd (bytes "concurrency") default_config.judge.concurrency jc.concurrency)
          j
          (bytes "judge")
          default_config.judge
          c.judge
