-- ===== src/Config/Tests.antt =====
-- Instances for `load_config` of src/config/config.cpp.
use flowstudy_judge.Common.{Bytes, bytes, bytes_eq, ◌↔◌, pos, ◌≡◌, refl, [], ◌∷◌, none, some}
use flowstudy_judge.Config.{AppConfig, default_config}
use flowstudy_judge.Config.Load.{
  load_config, load_json, section_of, load_judge, load_mysql, int_field, string_field,
}
use flowstudy_judge.Config.Settings.{Settings}
use flowstudy_judge.Config.Exact.{load_config_iff}
use flowstudy_judge.Platform.Scripted.{Machine, scripted}
use flowstudy_judge.Json.{JsonLib}
use flowstudy_judge.Json.Scripted.{number, text, object_end, entry, scripted_json}

abbrev json : JsonLib
json = scripted_json (
    (bytes "{}", object_end)
    ∷ (
      bytes "{judge}",
      entry (bytes "judge") (entry (bytes "concurrency") (number (pos 4)) object_end) object_end,
    )
    ∷ (
      bytes "{mysql}",
      entry (bytes "mysql") (entry (bytes "port") (text (bytes "3306")) object_end) object_end,
    )
    ∷ [])

abbrev disk : Machine
disk = record {
  files =
      (bytes "empty.json", bytes "{}")
      ∷ (bytes "judge.json", bytes "{judge}")
      ∷ (bytes "mysql.json", bytes "{mysql}")
      ∷ [];
  script = [];
  commands = [];
}

load_config_tests :
    (load_config json scripted (bytes "judge.json") disk
      ≡ some (record default_config { judge = record { concurrency = pos 4 } }))
    × (load_config json scripted (bytes "mysql.json") disk ≡ none)
unfolding load_config bytes_eq load_json section_of load_judge int_field load_mysql string_field
load_config_tests = (refl, refl)

-- One setting in the file.
abbrev four_boxes : AppConfig
four_boxes = record default_config { judge = record { concurrency = pos 4 } }

load_config_iff_example :
    (load_config json scripted (bytes "judge.json") disk ≡ some four_boxes) ↔ (
      (content : Bytes) × (j : json.Json) × (scripted.read (bytes "judge.json") disk ≡ some content)
      × (json.parse content ≡ some j)
      × Settings json j four_boxes)
load_config_iff_example = load_config_iff json scripted (bytes "judge.json") disk four_boxes
