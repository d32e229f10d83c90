-- ===== src/Judge/Engine/Tests.antt =====
-- Instances for the judge engine, src/judge/judge_engine.cpp, on a scripted machine.
use flowstudy_judge.Common.{
  ℕ, stoi, to_string_ℤ, Bytes, bytes, ℤ, pos, negsuc, ◌≡◌, refl, arith, List, [], ◌∷◌, done, threw,
  hung, Outcome, Option, some, none, ◌++◌,
}
use flowstudy_judge.Config.{IsolateConfig, default_config}
use flowstudy_judge.Platform.Scripted.{Machine, Files, scripted, machine}
use flowstudy_judge.Status.{JudgeStatus, accepted, wrong_answer}
use flowstudy_judge.Sandbox.{Sandbox, SandboxResult, fresh_result, new_sandbox}
use flowstudy_judge.Sandbox.Compile.{compile}
use flowstudy_judge.Sandbox.Run.{run, run_command, wall_time}
use flowstudy_judge.Sandbox.Command.{execute}
use flowstudy_judge.Judge.Data.{TestCase, SubmissionMessage, fresh_message, JudgeResultInternal}
use flowstudy_judge.Judge.Compare.{compare_output}
use flowstudy_judge.Judge.Compare.Lines.{compare_output_iff}
use flowstudy_judge.Judge.Engine.{
  JudgeState, judge, judge_cases, check_run, failed_case, track, passed_case, first_round,
}
use flowstudy_judge.Judge.Engine.Graded.{GradedRun, Graded, stops, passes, Tells}
use flowstudy_judge.Judge.Engine.Promise.{judge-Graded}
use flowstudy_judge.Judge.Engine.TimeLimit.{judge-wall_time}

abbrev pub isolate : IsolateConfig
isolate = default_config.isolate

abbrev pub box : Sandbox
box = record {
  box_id = pos 1;
  isolate_bin = bytes "/usr/local/bin/isolate";
  box_path = bytes "/var/local/lib/isolate/1/box/";
  java_main_class = bytes "Main";
}

-- `a + b` of test/test_codes, with the first two test cases of test/integration_test.cpp.
abbrev pub submission : SubmissionMessage
submission = record fresh_message {
  submission_id = 12345;
  problem_id = 100;
  language = bytes "cpp";
  code = bytes "int main() {}";
  testcases =
      record {
        testcase_id = 11;
        case_index = pos 1;
        input = bytes "1 2";
        expected_output = bytes "3";
      }
      ∷ record {
        testcase_id = 12;
        case_index = pos 2;
        input = bytes "5 7";
        expected_output = bytes "12";
      }
      ∷ [];
}

abbrev pub in_box : Bytes → Bytes
in_box name = bytes "/var/local/lib/isolate/1/box/" ++ name

abbrev compiles : ℤ × Files
compiles = (pos 0, (in_box (bytes "compile_meta.txt"), bytes "exitcode:0\n") ∷ [])

-- A run that writes this output.
abbrev prints : Bytes → ℤ × Files
prints text = (
  pos 0,
  (in_box (bytes "run_meta.txt"), bytes "time:2\nmax-rss:100\nexitcode:0\n")
      ∷ (in_box (bytes "output.txt"), text)
      ∷ [],
)

abbrev pub start : JudgeState Machine
start = record {
  world = machine (compiles ∷ prints (bytes "3\n") ∷ prints (bytes "13\n") ∷ []);
  pool = record { available = pos 1 ∷ pos 2 ∷ []; boxes = [] };
}

abbrev verdict_of : {S : Type 0} → Outcome S JudgeResultInternal → Option (JudgeStatus × ℤ × ℤ)
verdict_of (done r s) = some (r.status, r.time_used_ms, r.failed_testcase_index)
verdict_of (threw s) = none
verdict_of (hung s) = none

second_case_fails :
    verdict_of (judge scripted isolate submission start) ≡ some (wrong_answer, pos 2000, pos 1)
unfolding judge judge_cases compile run execute compare_output new_sandbox to_string_ℤ stoi
    run_command check_run failed_case track passed_case
second_case_fails = refl

-- The value and the state that a call returns.
abbrev pub value_of : {S A : Type 0} → A → Outcome S A → A
value_of a (done b s) = b
value_of a _ = a

abbrev pub state_of : {S A : Type 0} → S → Outcome S A → S
state_of t (done b s) = s
state_of t _ = t

abbrev compilation : Outcome Machine (SandboxResult × Sandbox)
compilation =
    compile scripted (new_sandbox (pos 1) isolate) submission.language submission.code start.world

abbrev compiled_world : Machine
compiled_world = state_of start.world compilation

abbrev run_in : Bytes → Machine → Outcome Machine SandboxResult
run_in input = run scripted box (bytes "cpp") (pos 1000) (pos 262144) input

abbrev first_run : Outcome Machine SandboxResult
first_run = run_in (bytes "1 2") compiled_world

abbrev second_run : Outcome Machine SandboxResult
second_run = run_in (bytes "5 7") (state_of start.world first_run)

abbrev pub case_of : ℕ → ℤ → Bytes → Bytes → TestCase
case_of id index input expected = record {
  testcase_id = id;
  case_index = index;
  input = input;
  expected_output = expected;
}

abbrev runs : List GradedRun
runs =
    (case_of 11 (pos 1) (bytes "1 2") (bytes "3"), value_of fresh_result first_run, accepted)
    ∷ (
      case_of 12 (pos 2) (bytes "5 7") (bytes "12"),
      value_of fresh_result second_run,
      wrong_answer,
    )
    ∷ []

abbrev last_world : Machine
last_world = state_of start.world second_run

graded :
    Graded scripted box submission submission.testcases compiled_world wrong_answer runs last_world
unfolding run execute compare_output to_string_ℤ stoi run_command compile new_sandbox
graded =
    passes refl
      (
        (refl, λ e. cc),
        omega arith,
        refl,
        refl,
        (compare_output_iff (bytes "3") (bytes "3\n")).0 refl,
      )
      (stops refl (λ e. cc)
        (
          (refl, λ e. cc),
          omega arith,
          refl,
          refl,
          λ h. cc ((compare_output_iff (bytes "12") (bytes "13\n")).1 h),
        ))

judge-Graded_example :
    (out : JudgeResultInternal) × (judge scripted isolate submission start
      ≡ done out (record {
        world = last_world;
        pool = record { available = pos 2 ∷ pos 1 ∷ []; boxes = [] };
      }))
    × Tells first_round wrong_answer runs out
unfolding compile execute new_sandbox to_string_ℤ stoi
judge-Graded_example =
    judge-Graded scripted isolate submission (pos 1) (pos 2 ∷ []) [] start.world compiled_world
      last_world (value_of (fresh_result, box) compilation).0 box wrong_answer runs refl refl graded

-- All boxes are in use.
abbrev exhausted : JudgeState Machine
exhausted = record start { pool = record { available = []; boxes = [] } }

-- Both outputs are right, after two seconds each.
abbrev slow : JudgeState Machine
slow = record start {
  world = machine (compiles ∷ prints (bytes "3\n") ∷ prints (bytes "12\n") ∷ []);
}

late_is_accepted :
    verdict_of (judge scripted isolate (record submission { time_limit_ms = pos 1 }) slow)
    ≡ some (accepted, pos 2000, negsuc 0)
unfolding judge judge_cases compile run execute compare_output new_sandbox to_string_ℤ stoi
    run_command check_run failed_case track passed_case
late_is_accepted = refl

judge-wall_time_example :
    judge scripted isolate (record submission { time_limit_ms = pos 1 })
    ≡ judge scripted isolate submission
unfolding wall_time
judge-wall_time_example = judge-wall_time scripted submission (pos 1) refl isolate
