-- ===== src/Config/Exact.antt =====
-- `load_config` of src/config/config.cpp against the settings of the file.
use flowstudy_judge.Common.{some-injective, Bytes, bytes, ◌≡◌, subst, ◌↔◌, Option, some}
use flowstudy_judge.Config.{
  RabbitMqConfig, MySqlConfig, IsolateConfig, JudgeConfig, AppConfig, default_config,
}
use flowstudy_judge.Config.Load.{
  section_of, load_rabbitmq, load_mysql, load_isolate, load_judge, load_json, load_config,
}
use flowstudy_judge.Platform.{Platform}
use flowstudy_judge.Json.{JsonLib}
use flowstudy_judge.Config.Fields.{and_then_iff, field-Under, string_field-Under, int_field-Under}
use flowstudy_judge.Config.Settings.{
  Under, IntUnder, RabbitMqSettings, MySqlSettings, IsolateSettings, Settings,
}

module _ (l : JsonLib) where
  load_rabbitmq_iff :
      (r : l.Json) (c c' : RabbitMqConfig)
      → (load_rabbitmq l r c ≡ some c') ↔ RabbitMqSettings l r c c'
  unfolding load_rabbitmq
  load_rabbitmq_iff r c c' = (
    λ e.
        let (a₁, e₁, h₁) = (and_then_iff _ _ c').0 e in
        let (a₂, e₂, h₂) = (and_then_iff _ _ c').0 h₁ in
        let (a₃, e₃, h₃) = (and_then_iff _ _ c').0 h₂ in
        let (a₄, e₄, h₄) = (and_then_iff _ _ c').0 h₃ in
        let (a₅, e₅, h₅) = (and_then_iff _ _ c').0 h₄ in
        let (a₆, e₆, h₆) = (and_then_iff _ _ c').0 h₅ in
        subst (RabbitMqSettings l r c) (some-injective h₆) (record {
          hostname_is = (string_field-Under l r _ _ _).0 e₁;
          port_is = (int_field-Under l r _ _ _).0 e₂;
          vhost_is = (string_field-Under l r _ _ _).0 e₃;
          username_is = (string_field-Under l r _ _ _).0 e₄;
          password_is = (string_field-Under l r _ _ _).0 e₅;
          queue_name_is = (string_field-Under l r _ _ _).0 e₆;
        }),
    λ s. simp (
      (string_field-Under l r _ _ _).1 s.hostname_is,
      (int_field-Under l r _ _ _).1 s.port_is,
      (string_field-Under l r _ _ _).1 s.vhost_is,
      (string_field-Under l r _ _ _).1 s.username_is,
      (string_field-Under l r _ _ _).1 s.password_is,
      (string_field-Under l r _ _ _).1 s.queue_name_is,
    ),
  )

  load_mysql_iff :
      (m : l.Json) (c c' : MySqlConfig) → (load_mysql l m c ≡ some c') ↔ MySqlSettings l m c c'
  unfolding load_mysql
  load_mysql_iff m c c' = (
    λ e.
        let (a₁, e₁, h₁) = (and_then_iff _ _ c').0 e in
        let (a₂, e₂, h₂) = (and_then_iff _ _ c').0 h₁ in
        let (a₃, e₃, h₃) = (and_then_iff _ _ c').0 h₂ in
        let (a₄, e₄, h₄) = (and_then_iff _ _ c').0 h₃ in
        let (a₅, e₅, h₅) = (and_then_iff _ _ c').0 h₄ in
        subst (MySqlSettings l m c) (some-injective h₅) (record {
          hostname_is = (string_field-Under l m _ _ _).0 e₁;
          port_is = (int_field-Under l m _ _ _).0 e₂;
          username_is = (string_field-Under l m _ _ _).0 e₃;
          password_is = (string_field-Under l m _ _ _).0 e₄;
          database_is = (string_field-Under l m _ _ _).0 e₅;
        }),
    λ s. simp (
      (string_field-Under l m _ _ _).1 s.hostname_is,
      (int_field-Under l m _ _ _).1 s.port_is,
      (string_field-Under l m _ _ _).1 s.username_is,
      (string_field-Under l m _ _ _).1 s.password_is,
      (string_field-Under l m _ _ _).1 s.database_is,
    ),
  )

  load_isolate_iff :
      (i : l.Json) (c c' : IsolateConfig)
      → (load_isolate l i c ≡ some c') ↔ IsolateSettings l i c c'
  unfolding load_isolate
  load_isolate_iff i c c' = (
    λ e.
        let (a₁, e₁, h₁) = (and_then_iff _ _ c').0 e in
        let (a₂, e₂, h₂) = (and_then_iff _ _ c').0 h₁ in
        let (a₃, e₃, h₃) = (and_then_iff _ _ c').0 h₂ in
        subst (IsolateSettings l i c) (some-injective h₃) (record {
          binary_path_is = (string_field-Under l i _ _ _).0 e₁;
          box_id_start_is = (int_field-Under l i _ _ _).0 e₂;
          num_boxes_is = (int_field-Under l i _ _ _).0 e₃;
        }),
    λ s. simp (
      (string_field-Under l i _ _ _).1 s.binary_path_is,
      (int_field-Under l i _ _ _).1 s.box_id_start_is,
      (int_field-Under l i _ _ _).1 s.num_boxes_is,
    ),
  )

  load_judge_iff :
      (jd : l.Json) (c c' : JudgeConfig)
      → (load_judge l jd c ≡ some c')
        ↔ IntUnder l jd (bytes "concurrency") c.concurrency c'.concurrency
  unfolding load_judge
  load_judge_iff jd c c' = (
    λ e.
        let (a, e₁, h) = (and_then_iff _ _ c').0 e in
        subst (λ (x : JudgeConfig). IntUnder l jd (bytes "concurrency") c.concurrency x.concurrency)
          (some-injective h) ((int_field-Under l jd _ _ _).0 e₁),
    λ s. simp ((int_field-Under l jd _ _ _).1 s),
  )

  section_of-Under :
      {A : Type 0} (load : l.Json → A → Option A) (Reads : l.Json → A → Type 0) (old : A)
      → ((v : l.Json) (a : A) → (load v old ≡ some a) ↔ Reads v a)
      → (j : l.Json) (key : Bytes) (new : A)
      → (section_of l j key load old ≡ some new) ↔ Under l Reads j key old new
  unfolding section_of
  section_of-Under load Reads old iff j key new =
      field-Under l (λ r. load r old) Reads iff j key old new

  load_json_iff : (j : l.Json) (c : AppConfig) → (load_json l j ≡ some c) ↔ Settings l j c
  unfolding load_json
  load_json_iff j c =
      let d = default_config in
      let rabbitmq =
        section_of-Under (load_rabbitmq l) (λ r. RabbitMqSettings l r d.rabbitmq) d.rabbitmq
          (λ r a. load_rabbitmq_iff r d.rabbitmq a) j (bytes "rabbitmq") in
      let mysql =
        section_of-Under (load_mysql l) (λ m. MySqlSettings l m d.mysql) d.mysql
          (λ m a. load_mysql_iff m d.mysql a) j (bytes "mysql") in
      let isolate =
        section_of-Under (load_isolate l) (λ i. IsolateSettings l i d.isolate) d.isolate
          (λ i a. load_isolate_iff i d.isolate a) j (bytes "isolate") in
      let judge =
        section_of-Under (load_judge l)
          (λ jd jc. IntUnder l jd (bytes "concurrency") d.judge.concurrency jc.concurrency) d.judge
          (λ jd a. load_judge_iff jd d.judge a) j (bytes "judge") in
      (
        λ e.
            let (a₁, e₁, h₁) = (and_then_iff _ _ c).0 e in
            let (a₂, e₂, h₂) = (and_then_iff _ _ c).0 h₁ in
            let (a₃, e₃, h₃) = (and_then_iff _ _ c).0 h₂ in
            let (a₄, e₄, h₄) = (and_then_iff _ _ c).0 h₃ in
            subst (Settings l j) (some-injective h₄) (record {
              rabbitmq_is = (rabbitmq a₁).0 e₁;
              mysql_is = (mysql a₂).0 e₂;
              isolate_is = (isolate a₃).0 e₃;
              concurrency_is = (judge a₄).0 e₄;
            }),
        λ s. simp (
          (rabbitmq _).1 s.rabbitmq_is,
          (mysql _).1 s.mysql_is,
          (isolate _).1 s.isolate_is,
          (judge _).1 s.concurrency_is,
        ),
      )

  -- `load_config` gives the configuration `c` exactly if the file can be read and parsed, and each of
  -- the 15 settings of `c` is the one that the file has for it, with its type, in the section of its name, or the
  -- default where the section or the setting is missing.
  pub load_config_iff :
      (p : Platform) (filepath : Bytes) (w : p.World) (c : AppConfig)
      → (load_config l p filepath w ≡ some c) ↔ (
          (content : Bytes) × (j : l.Json) × (p.read filepath w ≡ some content)
          × (l.parse content ≡ some j)
          × Settings l j c)
  unfolding load_config
  load_config_iff p filepath w c = (
    λ e.
        let (content, e₁, h₁) = (and_then_iff _ _ c).0 e in
        let (j, e₂, h₂) = (and_then_iff _ _ c).0 h₁ in
        (content, j, e₁, e₂, (load_json_iff j c).0 h₂),
    λ (content, j, e₁, e₂, s). simp (e₁, e₂, (load_json_iff j c).1 s),
  )
