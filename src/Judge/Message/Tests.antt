-- ===== src/Judge/Message/Tests.antt =====
-- Instances for the messages of src/judge/judge_engine.cpp.
use flowstudy_judge.Common.{Bytes, bytes, bytes_eq, ℤ, pos, ◌≡◌, refl, ◌↔◌, [], ◌∷◌, none, some}
use flowstudy_judge.Json.{JsonLib}
use flowstudy_judge.Json.Scripted.{
  Json, null, number, text, object_end, entry, array_end, item, scripted_json,
}
use flowstudy_judge.Judge.Data.{SubmissionMessage, fresh_message}
use flowstudy_judge.Judge.Message.{parse_message}
use flowstudy_judge.Judge.Message.Fields.{MessageOf, parse_message_iff}

abbrev case_object : ℤ → Bytes → Bytes → Json
case_object id input expected = entry (bytes "testcase_id") (number id) (
    entry (bytes "input") (text input) (entry (bytes "expected_output") (text expected) object_end))

-- The message of test/integration_test.cpp, without the fields that have defaults.
abbrev pub message : Json
message = entry (bytes "submission_id") (number (pos 12345)) (
    entry (bytes "run_id") null (
      entry (bytes "problem_id") (number (pos 100)) (
        entry (bytes "code") (text (bytes "int main() {}")) (
          entry (bytes "testcases")
            (item (case_object (pos 11) (bytes "1 2") (bytes "3"))
              (item (case_object (pos 12) (bytes "5 7") (bytes "12")) array_end))
            object_end))))

abbrev pub json : JsonLib
json = scripted_json ((bytes "message", message) ∷ [])

abbrev pub parsed : SubmissionMessage
parsed = record fresh_message {
  submission_id = 12345;
  problem_id = 100;
  language = bytes "cpp";
  code = bytes "int main() {}";
  testcases =
      record {
        testcase_id = 11;
        case_index = pos 1;
        input = bytes "1 2";
        expected_output = bytes "3";
      }
      ∷ record {
        testcase_id = 12;
        case_index = pos 2;
        input = bytes "5 7";
        expected_output = bytes "12";
      }
      ∷ [];
}

message_is_parsed : parse_message json (bytes "message") ≡ some parsed
unfolding parse_message bytes_eq
message_is_parsed = refl

other_text_is_not : parse_message json (bytes "{") ≡ none
unfolding parse_message bytes_eq
other_text_is_not = refl

parse_message_iff_example :
    (parse_message json (bytes "message") ≡ some parsed)
    ↔ ((j : Json) × (json.parse (bytes "message") ≡ some j) × MessageOf json j parsed)
parse_message_iff_example = parse_message_iff json (bytes "message") parsed
