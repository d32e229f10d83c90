-- ===== src/Judge/Engine/TimeLimit.antt =====
-- How the time limit of a submission enters `JudgeEngine::judge` of src/judge/judge_engine.cpp.
use flowstudy_judge.Common.{
  Bytes, bytes, bytes_eq, ℤ, pos, eqb_ℤ, ◌≡◌, refl, sym, ap, ap₂, ◌∙◌, List, [], ◌∷◌, ◌++◌, none,
  some, not, M, return, ◌>>=◌, if◌then◌else◌,
}
use flowstudy_judge.Config.{IsolateConfig}
use flowstudy_judge.Platform.{Platform}
use flowstudy_judge.Sandbox.{Sandbox, SandboxResult, new_sandbox, failed_result}
use flowstudy_judge.Sandbox.Language.{normalize_language}
use flowstudy_judge.Sandbox.Command.{write_file, execute}
use flowstudy_judge.Sandbox.Compile.{compile}
use flowstudy_judge.Sandbox.Run.{run, wall_time, run_command, run_args}
use flowstudy_judge.Judge.Data.{TestCase, SubmissionMessage, JudgeResultInternal}
use flowstudy_judge.Judge.BoxPool.{acquire}
use flowstudy_judge.Judge.Engine.{
  JudgeState, Progress, on_world, track, check_run, judge_cases, first_round, judge, on_pool,
  finish, compile_failure,
}

module _ (p : Platform) where
  -- `run` with this wall time.
  abbrev run_within : Sandbox → Bytes → ℤ → Bytes → p.Double → M p.World SandboxResult
  run_within sb language memory_limit_kb stdin_input time = do
    written ← write_file p sb (bytes "input.txt") stdin_input
    if not written
        then return (failed_result (bytes "Failed to write input file"))
        else (let normalized = normalize_language language in
            elim (run_command sb normalized) [
              | none ↦ return (failed_result (bytes "Unsupported language: " ++ language))
              | some command ↦ (do
                result ←
                    execute p sb (run_args sb normalized memory_limit_kb (p.show time) command)
                      (bytes "run_meta.txt")
                return (record result { timed_out = bytes_eq result.status (bytes "TO") }))
            ])

  run-run_within :
      (sb : Sandbox) (language : Bytes) (t memory_limit_kb : ℤ) (stdin_input : Bytes)
      → run p sb language t memory_limit_kb stdin_input
        ≡ run_within sb language memory_limit_kb stdin_input (wall_time p t)
  unfolding run
  run-run_within sb language t memory_limit_kb stdin_input = refl

  run-wall_time :
      (sb : Sandbox) (language : Bytes) (t t' memory_limit_kb : ℤ) (stdin_input : Bytes)
      → wall_time p t ≡ wall_time p t'
      → run p sb language t memory_limit_kb stdin_input
        ≡ run p sb language t' memory_limit_kb stdin_input
  run-wall_time sb language t t' memory_limit_kb stdin_input e =
      run-run_within sb language t memory_limit_kb stdin_input
      ∙ ap (run_within sb language memory_limit_kb stdin_input) e
      ∙ sym (run-run_within sb language t' memory_limit_kb stdin_input)

  module _ (sub : SubmissionMessage) (t : ℤ)
      (same : wall_time p t ≡ wall_time p sub.time_limit_ms) where
    abbrev limited : SubmissionMessage
    limited = record sub { time_limit_ms = t }

    judge_cases-wall_time :
        (sb : Sandbox) (box_id : ℤ) (tcs : List TestCase) (g : Progress)
        → judge_cases p sb limited box_id tcs g ≡ judge_cases p sb sub box_id tcs g
    unfolding judge_cases check_run
    judge_cases-wall_time sb box_id [] g = refl
    judge_cases-wall_time sb box_id (tc ∷ tcs) g =
        ap₂
          (λ (m : M p.World SandboxResult)
              (next : Progress → M (JudgeState p.World) JudgeResultInternal).
            ◌>>=◌ (on_world m) (λ r. check_run sub box_id (track g r) tc r next))
          (run-wall_time sb sub.language t sub.time_limit_ms sub.memory_limit_kb tc.input same)
          (λ i g'. judge_cases-wall_time sb box_id tcs g' i)

    -- The time limit of a message matters only through the wall time that isolate is given: limits
    -- with the same wall time are judged alike, whatever time the runs report.
    pub judge-wall_time : (cfg : IsolateConfig) → judge p cfg limited ≡ judge p cfg sub
    unfolding judge
    judge-wall_time cfg =
        ap
          (λ (cases : Sandbox → ℤ → M (JudgeState p.World) JudgeResultInternal).
            ◌>>=◌ (on_pool acquire) (λ box_id.
              ◌>>=◌ (on_world (compile p (new_sandbox box_id cfg) sub.language sub.code)) (λ c.
                if not (eqb_ℤ c.0.exit_code (pos 0))
                then finish box_id (compile_failure c.0)
                else cases c.1 box_id)))
          (λ i sb box_id. judge_cases-wall_time sb box_id sub.testcases first_round i)
