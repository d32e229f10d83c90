-- ===== src/Config/Load.antt =====
-- `load_config` of src/config/config.cpp.
use flowstudy_judge.Common.{Bytes, bytes, false, ℤ, ◌≡◌, Option, some, and_then, if◌then◌else◌}
use flowstudy_judge.Config.{
  RabbitMqConfig, MySqlConfig, IsolateConfig, JudgeConfig, AppConfig, default_config,
}
use flowstudy_judge.Platform.{Platform}
use flowstudy_judge.Json.{JsonLib}

infixl 5 ◌>>=◌
abbrev ◌>>=◌ {ℓ κ} : {A : Type ℓ} {B : Type κ} → Option A → (A → Option B) → Option B
◌>>=◌ = and_then

module _ (l : JsonLib) where
  -- `if (j.contains(key)) field = j[key];`, with the field's old value.
  unfoldable pub string_field : l.Json → Bytes → Bytes → Option Bytes
  string_field j key old = if l.contains j key then (l.at j key >>= l.get_string) else some old

  unfoldable pub int_field : l.Json → Bytes → ℤ → Option ℤ
  int_field j key old = if l.contains j key then (l.at j key >>= l.get_int) else some old

  -- `if (j.contains(key)) { auto& r = j[key]; … }`
  unfoldable pub section_of : {A : Type 0} → l.Json → Bytes → (l.Json → A → Option A) → A → Option A
  section_of j key load old =
      if l.contains j key then (l.at j key >>= λ r. load r old) else some old

  unfoldable pub load_rabbitmq : l.Json → RabbitMqConfig → Option RabbitMqConfig
  load_rabbitmq r c = do
    hostname ← string_field r (bytes "hostname") c.hostname
    port ← int_field r (bytes "port") c.port
    vhost ← string_field r (bytes "vhost") c.vhost
    username ← string_field r (bytes "username") c.username
    password ← string_field r (bytes "password") c.password
    queue_name ← string_field r (bytes "queue_name") c.queue_name
    some (record {
      hostname = hostname;
      port = port;
      vhost = vhost;
      username = username;
      password = password;
      queue_name = queue_name;
    })

  unfoldable pub load_mysql : l.Json → MySqlConfig → Option MySqlConfig
  load_mysql m c = do
    hostname ← string_field m (bytes "hostname") c.hostname
    port ← int_field m (bytes "port") c.port
    username ← string_field m (bytes "username") c.username
    password ← string_field m (bytes "password") c.password
    database ← string_field m (bytes "database") c.database
    some (record {
      hostname = hostname;
      port = port;
      username = username;
      password = password;
      database = database;
    })

  unfoldable pub load_isolate : l.Json → IsolateConfig → Option IsolateConfig
  load_isolate i c = do
    binary_path ← string_field i (bytes "binary_path") c.binary_path
    box_id_start ← int_field i (bytes "box_id_start") c.box_id_start
    num_boxes ← int_field i (bytes "num_boxes") c.num_boxes
    some (record { binary_path = binary_path; box_id_start = box_id_start; num_boxes = num_boxes })

  unfoldable pub load_judge : l.Json → JudgeConfig → Option JudgeConfig
  load_judge jd c = do
    concurrency ← int_field jd (bytes "concurrency") c.concurrency
    some (record { concurrency = concurrency })

  unfoldable pub load_json : l.Json → Option AppConfig
  load_json j = do
    rabbitmq ← section_of j (bytes "rabbitmq") load_rabbitmq default_config.rabbitmq
    mysql ← section_of j (bytes "mysql") load_mysql default_config.mysql
    isolate ← section_of j (bytes "isolate") load_isolate default_config.isolate
    judge ← section_of j (bytes "judge") load_judge default_config.judge
    some (record { rabbitmq = rabbitmq; mysql = mysql; isolate = isolate; judge = judge })

  -- `none` where the file does not open, is no JSON, or has a field of another type.
  unfoldable pub load_config : (p : Platform) → Bytes → p.World → Option AppConfig
  load_config p filepath w = do content ← p.read filepath w; j ← l.parse content; load_json j

  -- A configuration file that can be read and parsed, and whose top level has none of the sections,
  -- gives the default configuration.
  pub load_config_defaults :
      (p : Platform) (filepath : Bytes) (w : p.World) (content : Bytes) (j : l.Json)
      → p.read filepath w ≡ some content
      → l.parse content ≡ some j
      → ((key : Bytes) → l.contains j key ≡ false)
      → load_config p filepath w ≡ some default_config
  unfolding load_config load_json section_of
  load_config_defaults p filepath w content j e e' h = simp (e, e', h)
