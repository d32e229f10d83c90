-- ===== src/Judge/Engine/Promise.antt =====
-- The whole of `JudgeEngine::judge` of src/judge/judge_engine.cpp, on each way that it can take.
use flowstudy_judge.Common.{
  ℤ, pos, negsuc, [], eqb_ℤ, eqb_ℤ_iff, ◌≡◌, ◌≢◌, ap, ◌∙◌, arith, List, ◌∷◌, M, done, false,
  >>=-done, not, Bool-cases, inl, inr, if◌then◌else◌,
}
use flowstudy_judge.Config.{IsolateConfig}
use flowstudy_judge.Platform.{Platform}
use flowstudy_judge.Status.{JudgeStatus, compilation_error}
use flowstudy_judge.Sandbox.{Sandbox, SandboxResult, new_sandbox}
use flowstudy_judge.Sandbox.Compile.{compile}
use flowstudy_judge.Judge.Data.{TestCase, SubmissionMessage, JudgeResultInternal}
use flowstudy_judge.Judge.BoxPool.{BoxPool}
use flowstudy_judge.Judge.Engine.{
  JudgeState, on_world, on_world-done, finish, judge_cases, first_round, compile_failure, judge,
}
use flowstudy_judge.Judge.Engine.Graded.{GradedRun, RunOf, Graded, Graded-total, Tells}
use flowstudy_judge.Judge.Engine.Loop.{returned, finish_lem, judge_cases-Graded}

nonzero : (n : ℤ) → eqb_ℤ n (pos 0) ≡ false → n ≢ pos 0
nonzero n h e = cc (h, (eqb_ℤ_iff n (pos 0)).1 e)

module _ (p : Platform) (cfg : IsolateConfig) (sub : SubmissionMessage) where
  -- The part of `judge` behind the compilation.
  abbrev pub behind : ℤ → SandboxResult × Sandbox → M (JudgeState p.World) JudgeResultInternal
  behind box_id c =
      if not (eqb_ℤ c.0.exit_code (pos 0))
      then finish box_id (compile_failure c.0)
      else judge_cases p c.1 sub box_id sub.testcases first_round

  behind_ok :
      (box_id : ℤ) (r : SandboxResult) (sb : Sandbox)
      → r.exit_code ≡ pos 0
      → behind box_id (r, sb) ≡ judge_cases p sb sub box_id sub.testcases first_round
  behind_ok box_id r sb code = ground (arith, eqb_ℤ_iff r.exit_code (pos 0))

  behind_error :
      (box_id : ℤ) (r : SandboxResult) (sb : Sandbox)
      → r.exit_code ≢ pos 0
      → behind box_id (r, sb) ≡ finish box_id (compile_failure r)
  behind_error box_id r sb code = ground (arith, eqb_ℤ_iff r.exit_code (pos 0))

  module _ (box_id : ℤ) (rest : List ℤ) (boxes : List Sandbox) where
    abbrev held : BoxPool
    held = record { available = rest; boxes = boxes }

    abbrev starts_at : p.World → JudgeState p.World
    starts_at w = record { world = w; pool = record { available = box_id ∷ rest; boxes = boxes } }

    pub judge-compiled :
        (w w₁ : p.World) (c : SandboxResult × Sandbox)
        → compile p (new_sandbox box_id cfg) sub.language sub.code w ≡ done c w₁
        → judge p cfg sub (starts_at w) ≡ behind box_id c (record { world = w₁; pool = held })
    unfolding judge
    judge-compiled w w₁ c e =
        let step = compile p (new_sandbox box_id cfg) sub.language sub.code in
        >>=-done (on_world step) (behind box_id) (record { world = w; pool = held })
          (on_world-done step w held e)

    -- If a box is free, the compilation returns exit code 0, and the test cases, run in order up
    -- to the first that fails, are graded `st` after `runs`, then `judge` returns a result that
    -- tells of these runs: its status, the maxima of time and memory, the message of the run that
    -- failed (empty if all passed), no compiler output, the index of the failed case (-1 if all
    -- passed), and for each case that ran, in order, an entry with its id, its index, its texts, the
    -- figures and the output of its run, and its own status and message. The box goes back to the end
    -- of the queue.
    pub judge-Graded :
        (w w₁ w' : p.World) (r : SandboxResult) (sb : Sandbox) (st : JudgeStatus)
        (runs : List GradedRun)
        → compile p (new_sandbox box_id cfg) sub.language sub.code w ≡ done (r, sb) w₁
        → r.exit_code ≡ pos 0
        → Graded p sb sub sub.testcases w₁ st runs w'
        → (out : JudgeResultInternal) × (judge p cfg sub (starts_at w)
            ≡ done out (record { world = w'; pool = returned held box_id }))
          × Tells first_round st runs out
    judge-Graded w w₁ w' r sb st runs e code d =
        let (out, ends, tells) = judge_cases-Graded p sb sub box_id held first_round d in
        (
          out,
          judge-compiled w w₁ (r, sb) e
              ∙ ap
                  (λ (m : M (JudgeState p.World) JudgeResultInternal).
                    m (record { world = w₁; pool = held }))
                  (behind_ok box_id r sb code)
              ∙ ends,
          tells,
        )

    -- If a box is free and the compilation returns another exit code than 0, then `judge` runs
    -- nothing more: it returns `compilation_error` with the compiler's messages in both text
    -- fields, the figures 0, no case results and the failed index -1, and the box goes back.
    pub judge_compile_error :
        (w w₁ : p.World) (r : SandboxResult) (sb : Sandbox)
        → compile p (new_sandbox box_id cfg) sub.language sub.code w ≡ done (r, sb) w₁
        → r.exit_code ≢ pos 0
        → judge p cfg sub (starts_at w)
          ≡ done
              (record {
                status = compilation_error;
                time_used_ms = pos 0;
                memory_used_kb = pos 0;
                error_message = r.stderr_output;
                compiler_output = r.stderr_output;
                failed_testcase_index = negsuc 0;
                case_results = [];
              })
              (record { world = w₁; pool = returned held box_id })
    judge_compile_error w w₁ r sb e code =
        judge-compiled w w₁ (r, sb) e
        ∙ ap
            (λ (m : M (JudgeState p.World) JudgeResultInternal).
              m (record { world = w₁; pool = held }))
            (behind_error box_id r sb code)
        ∙ finish_lem p sb sub box_id held (compile_failure r) w₁

  -- If a box is free, and neither the compilation nor the run of any test case throws or blocks,
  -- then `judge` returns.
  judge_returns :
      (box_id : ℤ) (rest : List ℤ) (boxes : List Sandbox) (w : p.World)
      → ((w : p.World)
          → (c : SandboxResult × Sandbox) × (w' : p.World) × (compile p
                (new_sandbox box_id cfg)
                sub.language
                sub.code
                w
              ≡ done c w'))
      → ((sb : Sandbox) (tc : TestCase) (w : p.World)
          → (r : SandboxResult) × (w' : p.World) × RunOf p sb sub tc w r w')
      → (out : JudgeResultInternal) × (s : JudgeState p.World) × (judge p cfg sub
            (starts_at box_id rest boxes w)
          ≡ done out s)
  judge_returns box_id rest boxes w compiles runs =
      let ((r, sb), w₁, e) = compiles w in
      elim (Bool-cases (eqb_ℤ r.exit_code (pos 0))) [
        | inl zero_code ↦
            let (st, graded, w', d) = Graded-total p sb sub (runs sb) sub.testcases w₁ in
            let (out, ends, _) =
              judge-Graded box_id rest boxes w w₁ w' r sb st graded e
                ((eqb_ℤ_iff r.exit_code (pos 0)).0 zero_code) d in
            (out, _, ends)
        | inr other_code ↦ (
          _,
          _,
          judge_compile_error box_id rest boxes w w₁ r sb e (nonzero r.exit_code other_code),
        )
      ]
