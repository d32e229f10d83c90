-- ===== src/Judge/Data.antt =====
-- The messages and results of src/judge/judge_engine.h, with their default values.
use flowstudy_judge.Common.{ℕ, Bytes, bytes, bytes_eq, ℤ, pos, negsuc, List, [], if◌then◌else◌}
use flowstudy_judge.Status.{JudgeStatus, system_error}

pub record TestCase : Type 0 where
  pub testcase_id : ℕ
  pub case_index : ℤ
  pub input : Bytes
  pub expected_output : Bytes

pub record SubmissionMessage : Type 0 where
  pub task_type : Bytes
  pub run_id : ℕ
  pub submission_id : ℕ
  pub problem_id : ℕ
  pub language : Bytes
  pub submit_mode : Bytes
  pub code : Bytes
  pub time_limit_ms : ℤ
  pub memory_limit_kb : ℤ
  pub testcases : List TestCase

abbrev pub fresh_message : SubmissionMessage
fresh_message = record {
  task_type = bytes "SUBMISSION";
  run_id = 0;
  submission_id = 0;
  problem_id = 0;
  language = [];
  submit_mode = bytes "FULL_PROGRAM";
  code = [];
  time_limit_ms = pos 1000;
  memory_limit_kb = pos 262144;
  testcases = [];
}

unfoldable pub task_id : SubmissionMessage → ℕ
unfolding bytes_eq
task_id m = if bytes_eq m.task_type (bytes "RUN") then m.run_id else m.submission_id

pub record JudgeCaseResultInternal : Type 0 where
  pub testcase_id : ℕ
  pub case_index : ℤ
  pub status : JudgeStatus
  pub time_used_ms : ℤ
  pub memory_used_kb : ℤ
  pub input_text : Bytes
  pub actual_output : Bytes
  pub expected_output : Bytes
  pub error_message : Bytes

pub record JudgeResultInternal : Type 0 where
  pub status : JudgeStatus
  pub time_used_ms : ℤ
  pub memory_used_kb : ℤ
  pub error_message : Bytes
  pub compiler_output : Bytes
  pub failed_testcase_index : ℤ
  pub case_results : List JudgeCaseResultInternal

abbrev pub fresh_judge_result : JudgeResultInternal
fresh_judge_result = record {
  status = system_error;
  time_used_ms = pos 0;
  memory_used_kb = pos 0;
  error_message = [];
  compiler_output = [];
  failed_testcase_index = negsuc 0;
  case_results = [];
}
