-- ===== src/Judge/Engine.antt =====
-- `JudgeEngine::judge` of src/judge/judge_engine.cpp. Logging is left out.
pub mod Verdict
pub mod Graded
pub mod Loop
pub mod Promise
pub mod Blocking
pub mod Boxes
pub mod Pools
pub mod TimeLimit
pub mod Shape
pub mod Concluded
pub mod Solved
pub mod Built
pub mod Tests
mod Ends
mod Echo
use flowstudy_judge.Common.{
  ℕ, suc, ◌+◌, Bytes, bytes, bytes_eq, Bool, true, false, not, ◌||◌, ℤ, pos, ltb_ℤ, eqb_ℤ, ◌+ℤ◌,
  to_int32, List, [], ◌∷◌, ◌++◌, if◌then◌else◌, to_string_ℕ, to_string_ℤ, M, done, threw, hung,
  return, ◌>>=◌, ◌>>◌, ◌≡◌,
}
use flowstudy_judge.Config.{IsolateConfig}
use flowstudy_judge.Platform.{Platform}
use flowstudy_judge.Status.{
  JudgeStatus, accepted, wrong_answer, time_limit_exceeded, memory_limit_exceeded, runtime_error,
  compilation_error, system_error,
}
use flowstudy_judge.Sandbox.{Sandbox, SandboxResult, new_sandbox}
use flowstudy_judge.Sandbox.Compile.{compile}
use flowstudy_judge.Sandbox.Run.{run}
use flowstudy_judge.Judge.Data.{
  TestCase, SubmissionMessage, JudgeCaseResultInternal, JudgeResultInternal, fresh_judge_result,
}
use flowstudy_judge.Judge.BoxPool.{BoxPool, acquire, release, new_box_pool}
use flowstudy_judge.Judge.Compare.{compare_output}

-- What a call of `judge` changes: the pool, and the world of the sandboxes.
pub record JudgeState (W : Type 0) : Type 0 where
  pub world : W
  pub pool : BoxPool

abbrev pub on_world : {W A : Type 0} → M W A → M (JudgeState W) A
on_world m s = elim (m s.world) [
  | done a w ↦ done a (record s { world = w })
  | threw w ↦ threw (record s { world = w })
  | hung w ↦ hung (record s { world = w })
]

abbrev pub on_pool : {W A : Type 0} → M BoxPool A → M (JudgeState W) A
on_pool m s = elim (m s.pool) [
  | done a q ↦ done a (record s { pool = q })
  | threw q ↦ threw (record s { pool = q })
  | hung q ↦ hung (record s { pool = q })
]

pub on_world-done :
    {W A : Type 0} (m : M W A) (w : W) {w' : W} {a : A} (pool : BoxPool)
    → m w ≡ done a w'
    → on_world m (record { world = w; pool = pool }) ≡ done a (record { world = w'; pool = pool })
on_world-done m w pool e = rw (e, on_world)

-- The variables of the loop over the test cases.
pub record Progress : Type 0 where
  pub i : ℕ
  pub max_time_ms : ℤ
  pub max_memory_kb : ℤ
  pub result : JudgeResultInternal

-- The maxima, after a run.
unfoldable pub track : Progress → SandboxResult → Progress
track g r = record g {
  max_time_ms = if ltb_ℤ g.max_time_ms r.time_used_ms then r.time_used_ms else g.max_time_ms;
  max_memory_kb =
      if ltb_ℤ g.max_memory_kb r.memory_used_kb then r.memory_used_kb else g.max_memory_kb;
}

-- The entry of a test case in the result, before its status is known.
unfoldable pub case_entry : ℕ → TestCase → SandboxResult → JudgeCaseResultInternal
unfolding ◌+ℤ◌
case_entry i tc r = record {
  testcase_id = tc.testcase_id;
  case_index = if ltb_ℤ (pos 0) tc.case_index then tc.case_index else to_int32 i +ℤ pos 1;
  status = system_error;
  time_used_ms = r.time_used_ms;
  memory_used_kb = r.memory_used_kb;
  input_text = tc.input;
  actual_output = r.stdout_output;
  expected_output = tc.expected_output;
  error_message = [];
}

-- The result that the four early returns of the loop leave, for their status and message.
unfoldable pub failed_case :
    JudgeStatus → Bytes → Progress → JudgeCaseResultInternal → JudgeResultInternal
failed_case status message g entry = record g.result {
  status = status;
  time_used_ms = g.max_time_ms;
  memory_used_kb = g.max_memory_kb;
  failed_testcase_index = to_int32 g.i;
  error_message = message;
  case_results =
      g.result.case_results ++ record entry { status = status; error_message = message } ∷ [];
}

-- The loop variables for the next round, after a test case that passed.
unfoldable pub passed_case : Progress → JudgeCaseResultInternal → Progress
passed_case g entry = record g {
  i = suc g.i;
  result = record g.result {
    case_results = g.result.case_results ++ record entry { status = accepted } ∷ [];
  };
}

abbrev pub on_testcase : ℕ → Bytes
on_testcase i = bytes " on testcase " ++ to_string_ℕ (i + 1)

unfoldable pub runtime_message : ℕ → SandboxResult → Bytes
runtime_message i r =
    if not (eqb_ℤ r.signal_num (pos 0))
    then bytes "Program terminated by signal " ++ (to_string_ℤ r.signal_num ++ on_testcase i)
    else bytes "Non-zero exit code "
      ++ (to_string_ℤ r.exit_code ++ (on_testcase i ++ (bytes "\n" ++ r.stderr_output)))

module _ {W : Type 0} where
  -- Each return releases the box first.
  unfoldable pub finish : ℤ → JudgeResultInternal → M (JudgeState W) JudgeResultInternal
  unfolding release
  finish box_id result = do on_pool (release box_id); return result

  -- The checks after a run, in the order of the source; `next` is the rest of the loop.
  unfoldable pub check_run :
      SubmissionMessage
      → ℤ
      → Progress
      → TestCase
      → SandboxResult
      → (Progress → M (JudgeState W) JudgeResultInternal)
      → M (JudgeState W) JudgeResultInternal
  unfolding finish
  check_run sub box_id g tc r next =
      let entry = case_entry g.i tc r in
      if r.timed_out || bytes_eq r.status (bytes "TO")
      then finish box_id
          (failed_case time_limit_exceeded (bytes "Time limit exceeded" ++ on_testcase g.i) g entry)
      else if ltb_ℤ sub.memory_limit_kb r.memory_used_kb
      then finish box_id (
          failed_case memory_limit_exceeded
            (bytes "Memory limit exceeded"
              ++ (on_testcase g.i
                  ++ (bytes " (" ++ (to_string_ℤ r.memory_used_kb ++ bytes " KB)"))))
            g entry)
      else if not (eqb_ℤ r.exit_code (pos 0)) || not (eqb_ℤ r.signal_num (pos 0))
      then finish box_id (failed_case runtime_error (runtime_message g.i r) g entry)
      else if not (compare_output tc.expected_output r.stdout_output)
      then finish box_id
          (failed_case wrong_answer (bytes "Wrong answer" ++ on_testcase g.i) g entry)
      else next (passed_case g entry)

-- What a compilation with a non-zero exit code leaves.
abbrev pub compile_failure : SandboxResult → JudgeResultInternal
compile_failure r = record fresh_judge_result {
  status = compilation_error;
  compiler_output = r.stderr_output;
  error_message = r.stderr_output;
}

abbrev pub first_round : Progress
first_round = record {
  i = 0;
  max_time_ms = pos 0;
  max_memory_kb = pos 0;
  result = fresh_judge_result;
}

module _ (p : Platform) where
  -- The constructor.
  unfoldable pub new_engine : IsolateConfig → ℤ → M p.World (JudgeState p.World)
  unfolding new_box_pool
  new_engine isolate_cfg max_boxes w = elim (new_box_pool p isolate_cfg max_boxes w) [
    | done pool w' ↦ done (record { world = w'; pool = pool }) w'
    | threw w' ↦ threw w'
    | hung w' ↦ hung w'
  ]

  unfoldable pub judge_cases :
      Sandbox
      → SubmissionMessage
      → ℤ
      → List TestCase
      → Progress
      → M (JudgeState p.World) JudgeResultInternal
  judge_cases sb sub box_id [] g = finish box_id (record g.result {
    status = accepted;
    time_used_ms = g.max_time_ms;
    memory_used_kb = g.max_memory_kb;
  })
  judge_cases sb sub box_id (tc ∷ tcs) g =
      ◌>>=◌ (on_world (run p sb sub.language sub.time_limit_ms sub.memory_limit_kb tc.input))
        λ r. check_run sub box_id (track g r) tc r (judge_cases sb sub box_id tcs)

  unfoldable pub judge :
      IsolateConfig → SubmissionMessage → M (JudgeState p.World) JudgeResultInternal
  unfolding acquire
  judge isolate_cfg sub = do
    box_id ← on_pool acquire
    (compile_result, tmp_sandbox) ←
        on_world (compile p (new_sandbox box_id isolate_cfg) sub.language sub.code)
    if not (eqb_ℤ compile_result.exit_code (pos 0))
        then finish box_id (compile_failure compile_result)
        else judge_cases tmp_sandbox sub box_id sub.testcases first_round
