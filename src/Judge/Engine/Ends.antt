-- ===== src/Judge/Engine/Ends.antt =====
-- Instances for the ends of a call of `judge`, src/judge/judge_engine.cpp.
use flowstudy_judge.Common.{
  bytes, ℤ, pos, ◌≡◌, refl, [], ◌∷◌, Outcome, done, some, true, stoi, to_string_ℤ, max_ℤ,
}
use flowstudy_judge.Platform.{Platform, created}
use flowstudy_judge.Platform.Scripted.{Machine, scripted, machine}
use flowstudy_judge.Sandbox.{Sandbox, SandboxResult, new_sandbox, fresh_result}
use flowstudy_judge.Sandbox.Compile.{compile}
use flowstudy_judge.Sandbox.Run.{run, run_command}
use flowstudy_judge.Sandbox.Command.{execute}
use flowstudy_judge.Judge.Data.{TestCase, JudgeResultInternal, fresh_judge_result}
use flowstudy_judge.Judge.Engine.{
  judge_cases, check_run, failed_case, track, passed_case, judge, compile_failure,
}
use flowstudy_judge.Judge.Engine.Graded.{RunOf}
use flowstudy_judge.Judge.Engine.Promise.{judge_compile_error}
use flowstudy_judge.Judge.Engine.Boxes.{Accounts, judge-Accounts}
use flowstudy_judge.Judge.Compare.{compare_output}
use flowstudy_judge.Judge.Engine.Shape.{Concluded}
use flowstudy_judge.Judge.Engine.Concluded.{judge-Concluded}
use flowstudy_judge.Judge.Engine.Tests.{start, isolate, submission, in_box, box, value_of, state_of}

-- A machine on which the compiler reports an error.
abbrev broken : Machine
broken = machine (
    (
      pos 256,
      (in_box (bytes "compile_meta.txt"), bytes "exitcode:1\nstatus:RE\n")
          ∷ (in_box (bytes "error.txt"), bytes "error")
          ∷ [],
    )
    ∷ [])

abbrev compilation : Outcome Machine (SandboxResult × Sandbox)
compilation =
    compile scripted (new_sandbox (pos 1) isolate) submission.language submission.code broken

abbrev compiler_says : SandboxResult
compiler_says = (value_of (fresh_result, box) compilation).0

judge_compile_error_example :
    judge scripted isolate submission
      (record { world = broken; pool = record { available = pos 1 ∷ []; boxes = [] } })
    ≡ done (compile_failure compiler_says) (record {
      world = state_of broken compilation;
      pool = record { available = pos 1 ∷ []; boxes = [] };
    })
unfolding compile execute new_sandbox to_string_ℤ stoi
judge_compile_error_example =
    judge_compile_error scripted isolate submission (pos 1) [] [] broken
      (state_of broken compilation) compiler_says box refl (λ e. cc)

judge-Accounts_example :
    Accounts
      (record { available = []; boxes = [] })
      (pos 1)
      (judge scripted isolate submission
        (record { world = broken; pool = record { available = pos 1 ∷ []; boxes = [] } }))
judge-Accounts_example = judge-Accounts scripted isolate submission (pos 1) [] [] broken

-- A platform on which every call succeeds, and every file says that the program has exited with 0.
abbrev quiet : Platform
quiet = record {
  World = Unit {0};
  system = λ cmd w. (pos 0, w);
  mkdir = λ path w. (created, w);
  write = λ path content w. (true, w);
  chmod = λ path w. w;
  read = λ path w. some (bytes "exitcode:0");
  Double = ℤ;
  of_int = λ n. n;
  times = λ a b. a;
  over = λ a b. a;
  larger = max_ℤ;
  truncate = λ d. d;
  stod = stoi;
  show = to_string_ℤ;
}

abbrev quiet_compilation : Outcome (Unit {0}) (SandboxResult × Sandbox)
quiet_compilation =
    compile quiet (new_sandbox (pos 1) isolate) submission.language submission.code tt

abbrev quiet_run : Sandbox → TestCase → Outcome (Unit {0}) SandboxResult
quiet_run sb tc =
    run quiet sb submission.language submission.time_limit_ms submission.memory_limit_kb tc.input tt

quiet_compiles :
    (w : Unit {0})
    → (c : SandboxResult × Sandbox) × (w' : Unit {0}) × (compile quiet
          (new_sandbox (pos 1) isolate)
          submission.language
          submission.code
          w
        ≡ done c w')
unfolding compile execute new_sandbox to_string_ℤ stoi
quiet_compiles w = (value_of (fresh_result, box) quiet_compilation, tt, refl)

quiet_runs :
    (sb : Sandbox) (tc : TestCase) (w : Unit {0})
    → (r : SandboxResult) × (w' : Unit {0}) × RunOf quiet sb submission tc w r w'
unfolding run execute run_command to_string_ℤ stoi
quiet_runs sb tc w = (value_of fresh_result (quiet_run sb tc), tt, refl)

abbrev returned_result : JudgeResultInternal
returned_result = value_of fresh_judge_result (judge scripted isolate submission start)

-- The first test case passes and the second fails.
judge-Concluded_example : Concluded 2 returned_result
unfolding judge judge_cases compile run execute compare_output new_sandbox to_string_ℤ stoi
    run_command check_run failed_case track passed_case
judge-Concluded_example =
    judge-Concluded scripted isolate submission start
      (state_of start (judge scripted isolate submission start)) returned_result refl
