-- ===== src/Judge/Message.antt =====
-- `JudgeEngine::parse_message` of src/judge/judge_engine.cpp.
pub mod Fields
pub mod Tests
use flowstudy_judge.Common.{
  ℕ, suc, ◌+◌, Bytes, bytes, Bool, not, ◌&&◌, ℤ, pos, to_int32, ◌+ℤ◌, List, [], ◌∷◌, Option, none,
  some, and_then, if◌then◌else◌,
}
use flowstudy_judge.Json.{JsonLib}
use flowstudy_judge.Judge.Data.{TestCase, SubmissionMessage}

infixl 5 ◌>>=◌
abbrev ◌>>=◌ {ℓ κ} : {A : Type ℓ} {B : Type κ} → Option A → (A → Option B) → Option B
◌>>=◌ = and_then

module _ (l : JsonLib) where
  -- An id that may be absent or null: 0 then.
  unfoldable pub optional_id : l.Json → Bytes → Option ℕ
  optional_id j key =
      if l.contains j key
      then (l.at j key >>= λ v. if not (l.is_null v) then l.get_uint64 v else some 0)
      else some 0

  -- One round of the loop, with `n` test cases before it.
  unfoldable pub parse_testcase : ℕ → l.Json → Option TestCase
  unfolding ◌+ℤ◌
  parse_testcase n tc = do
    testcase_id ← optional_id tc (bytes "testcase_id")
    case_index ← l.value_int tc (bytes "case_index") (to_int32 n +ℤ pos 1)
    input ← l.at tc (bytes "input") >>= l.get_string
    expected_output ← l.at tc (bytes "expected_output") >>= l.get_string
    some (record {
      testcase_id = testcase_id;
      case_index = case_index;
      input = input;
      expected_output = expected_output;
    })

  unfoldable pub parse_testcases : ℕ → List l.Json → Option (List TestCase)
  parse_testcases n [] = some []
  parse_testcases n (tc ∷ tcs) = do
    t ← parse_testcase n tc
    ts ← parse_testcases (suc n) tcs
    some (t ∷ ts)

  unfoldable pub parse_submission : l.Json → Option SubmissionMessage
  parse_submission j = do
    task_type ← l.value_string j (bytes "task_type") (bytes "SUBMISSION")
    run_id ← optional_id j (bytes "run_id")
    submission_id ← optional_id j (bytes "submission_id")
    problem_id ← l.at j (bytes "problem_id") >>= l.get_uint64
    language ← l.value_string j (bytes "language") (bytes "cpp")
    submit_mode ← l.value_string j (bytes "submit_mode") (bytes "FULL_PROGRAM")
    code ← l.at j (bytes "code") >>= l.get_string
    time_limit_ms ← l.value_int j (bytes "time_limit") (pos 1000)
    memory_limit_kb ← l.value_int j (bytes "memory_limit") (pos 262144)
    cases ← l.at j (bytes "testcases")
    testcases ← parse_testcases 0 (l.elements cases)
    some (record {
      task_type = task_type;
      run_id = run_id;
      submission_id = submission_id;
      problem_id = problem_id;
      language = language;
      submit_mode = submit_mode;
      code = code;
      time_limit_ms = time_limit_ms;
      memory_limit_kb = memory_limit_kb;
      testcases = testcases;
    })

  -- Every exception of the library ends in `std::nullopt`.
  unfoldable pub parse_message : Bytes → Option SubmissionMessage
  unfolding parse_submission parse_testcases parse_testcase optional_id
  parse_message json_str = l.parse json_str >>= parse_submission
