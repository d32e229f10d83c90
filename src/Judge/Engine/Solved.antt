-- ===== src/Judge/Engine/Solved.antt =====
-- `JudgeEngine::judge` of src/judge/judge_engine.cpp on a submission whose program computes a function.
use flowstudy_judge.Common.{
  Outcome, ℕ, suc, Bytes, ℤ, pos, ◌≡◌, ◌≢◌, refl, sym, subst, ◌∙◌, ◌⊎◌, inl, inr, ◌↔◌, List, [],
  ◌∷◌, All, done, some, Bool-cases,
}
use flowstudy_judge.Config.{IsolateConfig}
use flowstudy_judge.Platform.{Platform}
use flowstudy_judge.Status.{JudgeStatus, accepted, wrong_answer}
use flowstudy_judge.Sandbox.{Sandbox, SandboxResult, new_sandbox}
use flowstudy_judge.Sandbox.Language.{normalize_language}
use flowstudy_judge.Sandbox.Compile.{compile}
use flowstudy_judge.Sandbox.Run.{run_command}
use flowstudy_judge.Sandbox.Run.Program.{Program, Succeeds, run-Succeeds}
use flowstudy_judge.Judge.Data.{
  TestCase, SubmissionMessage, JudgeCaseResultInternal, JudgeResultInternal,
}
use flowstudy_judge.Judge.Compare.{compare_output}
use flowstudy_judge.Judge.Compare.Lines.{compare_output_iff}
use flowstudy_judge.Judge.Engine.{JudgeState, judge}
use flowstudy_judge.Judge.Engine.Verdict.{SameOutput, Verdict}
use flowstudy_judge.Judge.Engine.Graded.{GradedRun, Graded, all_pass, stops, passes, entries}
use flowstudy_judge.Judge.Engine.Promise.{judge-Graded}

-- The function is right on the test case, up to blanks at the ends of lines.
abbrev pub IsRight : (Bytes → Bytes) → TestCase → Type 0
IsRight f tc = SameOutput tc.expected_output (f tc.input)

-- The run has printed what the function says.
abbrev Answered : (Bytes → Bytes) → GradedRun → Type 0
Answered f x = x.1.stdout_output ≡ f x.0.input

-- The status for these test cases.
abbrev Decides : (Bytes → Bytes) → List TestCase → JudgeStatus → Type 0
Decides f tcs st =
    ((st ≡ accepted) × All (IsRight f) tcs) ⊎ ((st ≡ wrong_answer) × (¬ All (IsRight f) tcs))

Decides-right :
    (f : Bytes → Bytes) (tc : TestCase) (tcs : List TestCase) (st : JudgeStatus)
    → IsRight f tc
    → Decides f tcs st
    → Decides f (tc ∷ tcs) st
Decides-right f tc tcs st right (inl (e, all)) = inl (e, (right, all))
Decides-right f tc tcs st right (inr (e, some_wrong)) = inr (e, λ all. some_wrong all.1)

wrong_ne_accepted : wrong_answer ≢ accepted
wrong_ne_accepted e = cc

Decides-iff :
    (f : Bytes → Bytes) (tcs : List TestCase) (st : JudgeStatus)
    → Decides f tcs st
    → ((st ≡ accepted) ↔ All (IsRight f) tcs) × ((st ≡ accepted) ⊎ (st ≡ wrong_answer))
Decides-iff f tcs st (inl (e, all)) = ((λ _. all, λ _. e), inl e)
Decides-iff f tcs st (inr (e, wrong)) =
    ((λ a. absurd (wrong_ne_accepted (sym e ∙ a)), λ all. absurd (wrong all)), inr e)

entries-All :
    (f : Bytes → Bytes) (i : ℕ) (runs : List GradedRun)
    → All (Answered f) runs
    → All (λ (e : JudgeCaseResultInternal). e.actual_output ≡ f e.input_text) (entries i runs)
entries-All f i [] h = tt
entries-All f i (x ∷ xs) h = (h.0, entries-All f (suc i) xs h.1)

-- The call returns. The submission is accepted exactly if `f` is right on every test case, and else it is a
-- wrong answer; and each entry of the result shows what `f` says on its own input.
abbrev pub Judged :
    (p : Platform)
    → SubmissionMessage
    → (Bytes → Bytes)
    → Outcome (JudgeState p.World) JudgeResultInternal
    → Type 0
Judged p sub f o =
    (out : JudgeResultInternal) × (s : JudgeState p.World) × (o ≡ done out s)
    × ((out.status ≡ accepted) ↔ All (IsRight f) sub.testcases)
    × ((out.status ≡ accepted) ⊎ (out.status ≡ wrong_answer))
    × All (λ (e : JudgeCaseResultInternal). e.actual_output ≡ f e.input_text) out.case_results

module _ (p : Platform) (sub : SubmissionMessage) (sb : Sandbox) (command : List Bytes)
    (f : Bytes → Bytes)
    (prog : Program p sb sub.language sub.time_limit_ms sub.memory_limit_kb command f)
    (supported : run_command sb (normalize_language sub.language) ≡ some command) where
  Succeeds-Verdict :
      (tc : TestCase) (r : SandboxResult)
      → Succeeds p sb sub.language sub.time_limit_ms sub.memory_limit_kb command (f tc.input) r
      → (IsRight f tc × Verdict sub tc r accepted)
        ⊎ ((¬ IsRight f tc) × Verdict sub tc r wrong_answer)
  Succeeds-Verdict tc r s =
      let agrees = compare_output_iff tc.expected_output (f tc.input) in
      elim (Bool-cases (compare_output tc.expected_output (f tc.input))) [
        | inl same ↦
            let right = agrees.0 same in
            inl (
              right,
              (
                (s.not_late, s.in_time),
                s.fits,
                s.code,
                s.signal,
                subst (SameOutput tc.expected_output) (sym s.prints) right,
              ),
            )
        | inr differ ↦
            let wrong : ¬ IsRight f tc = λ h. cc (differ, agrees.1 h) in
            inr (
              wrong,
              (
                (s.not_late, s.in_time),
                s.fits,
                s.code,
                s.signal,
                λ h. wrong (subst (SameOutput tc.expected_output) s.prints h),
              ),
            )
      ]

  cases-Decides :
      (tcs : List TestCase) (w : p.World)
      → prog.Ready w
      → (st : JudgeStatus) × (runs : List GradedRun) × (w' : p.World) × Graded p sb sub tcs w st
          runs w'
        × Decides f tcs st
        × All (Answered f) runs
  cases-Decides [] w ready = (accepted, [], w, all_pass refl, inl (refl, tt), tt)
  cases-Decides (tc ∷ tcs) w ready =
      let (r, w₁, ran, still, s) =
        run-Succeeds p sb sub.language sub.time_limit_ms sub.memory_limit_kb command f prog tc.input
          w supported ready in
      let (st, runs, w', graded, decides, answered) = cases-Decides tcs w₁ still in
      elim (Succeeds-Verdict tc r s) [
        | inl (right, v) ↦ (
          st,
          (tc, r, accepted) ∷ runs,
          w',
          passes ran v graded,
          Decides-right f tc tcs st right decides,
          (s.prints, answered),
        )
        | inr (wrong, v) ↦ (
          wrong_answer,
          (tc, r, wrong_answer) ∷ [],
          w₁,
          stops ran wrong_ne_accepted v,
          inr (refl, λ all. wrong all.0),
          (s.prints, tt),
        )
      ]

  -- The verdict where the compilation has left the program in the box.
  pub judge-Solved :
      (cfg : IsolateConfig) (box_id : ℤ) (rest : List ℤ) (boxes : List Sandbox) (w w₁ : p.World)
      (c : SandboxResult)
      → compile p (new_sandbox box_id cfg) sub.language sub.code w ≡ done (c, sb) w₁
      → c.exit_code ≡ pos 0
      → prog.Ready w₁
      → Judged p sub f (
          judge p cfg sub
            (record { world = w; pool = record { available = box_id ∷ rest; boxes = boxes } }))
  judge-Solved cfg box_id rest boxes w w₁ c compiled code ready =
      let (st, runs, w', graded, decides, answered) = cases-Decides sub.testcases w₁ ready in
      let (out, ends, tells) =
        judge-Graded p cfg sub box_id rest boxes w w₁ w' c sb st runs compiled code graded in
      let (iff, or) =
        Decides-iff f sub.testcases out.status
          (subst (Decides f sub.testcases) (sym tells.status_is) decides) in
      (
        out,
        _,
        ends,
        iff,
        or,
        subst (All (λ (e : JudgeCaseResultInternal). e.actual_output ≡ f e.input_text))
            (sym tells.entries_are) (entries-All f 0 runs answered),
      )
