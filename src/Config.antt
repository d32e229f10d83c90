-- ===== src/Config.antt =====
-- The configuration structs of src/config/config.h, with their default values.
pub mod Load
pub mod Settings
pub mod Fields
pub mod Exact
mod Tests
use flowstudy_judge.Common.{Bytes, bytes, ℤ, pos, []}

pub record RabbitMqConfig : Type 0 where
  pub hostname : Bytes
  pub port : ℤ
  pub vhost : Bytes
  pub username : Bytes
  pub password : Bytes
  pub queue_name : Bytes

pub record MySqlConfig : Type 0 where
  pub hostname : Bytes
  pub port : ℤ
  pub username : Bytes
  pub password : Bytes
  pub database : Bytes

pub record IsolateConfig : Type 0 where
  pub binary_path : Bytes
  pub box_id_start : ℤ
  pub num_boxes : ℤ

pub record JudgeConfig : Type 0 where
  pub concurrency : ℤ

pub record AppConfig : Type 0 where
  pub rabbitmq : RabbitMqConfig
  pub mysql : MySqlConfig
  pub isolate : IsolateConfig
  pub judge : JudgeConfig

abbrev pub default_config : AppConfig
default_config = record {
  rabbitmq = record {
    hostname = bytes "127.0.0.1";
    port = pos 5672;
    vhost = bytes "/";
    username = bytes "judge";
    password = bytes "judge_pass";
    queue_name = bytes "submission_queue";
  };
  mysql = record {
    hostname = bytes "127.0.0.1";
    port = pos 3306;
    username = bytes "root";
    password = [];
    database = bytes "flowstudy";
  };
  isolate = record {
    binary_path = bytes "/usr/local/bin/isolate";
    box_id_start = pos 1;
    num_boxes = pos 5;
  };
  judge = record { concurrency = pos 1 };
}
