-- ===== src/Judge/Engine/Loop.antt =====
-- The loop over the test cases in `JudgeEngine::judge` of src/judge/judge_engine.cpp, against `Graded`.
use flowstudy_judge.Common.{ℤ, ◌≡◌, refl, ap, ◌∙◌, List, [], ◌∷◌, ◌++◌, M, done, >>=-done}
use flowstudy_judge.Platform.{Platform}
use flowstudy_judge.Status.{JudgeStatus, accepted}
use flowstudy_judge.Sandbox.{Sandbox, SandboxResult}
use flowstudy_judge.Sandbox.Run.{run}
use flowstudy_judge.Judge.Data.{TestCase, SubmissionMessage, JudgeResultInternal}
use flowstudy_judge.Judge.BoxPool.{BoxPool}
use flowstudy_judge.Judge.Engine.{
  JudgeState, Progress, track, case_entry, failed_case, passed_case, finish, check_run, judge_cases,
  on_world, on_world-done,
}
use flowstudy_judge.Judge.Engine.Verdict.{message_of, check_run-accepted, check_run_stops}
use flowstudy_judge.Judge.Engine.Graded.{
  GradedRun, RunOf, Graded, all_pass, stops, passes, Tells, Tells-accepted, Tells-failed,
  Tells-passed,
}

-- The pool after a call that held this box: the box is back, at the end of the queue.
abbrev pub returned : BoxPool → ℤ → BoxPool
returned pool box_id = record pool { available = pool.available ++ box_id ∷ [] }

module _ (p : Platform) (sb : Sandbox) (sub : SubmissionMessage) (box_id : ℤ) (pool : BoxPool) where
  abbrev at : p.World → JudgeState p.World
  at w = record { world = w; pool = pool }

  abbrev pub ends_at : p.World → JudgeState p.World
  ends_at w = record { world = w; pool = returned pool box_id }

  judge_cases-cons :
      (tc : TestCase) (tcs : List TestCase) (g : Progress) (w w₁ : p.World) (r : SandboxResult)
      → RunOf p sb sub tc w r w₁
      → judge_cases p sb sub box_id (tc ∷ tcs) g (at w)
        ≡ check_run sub box_id (track g r) tc r (judge_cases p sb sub box_id tcs) (at w₁)
  unfolding judge_cases
  judge_cases-cons tc tcs g w w₁ r ran =
      let step = run p sb sub.language sub.time_limit_ms sub.memory_limit_kb tc.input in
      >>=-done (on_world step)
        (λ r'. check_run sub box_id (track g r') tc r' (judge_cases p sb sub box_id tcs)) (at w)
        (on_world-done step w pool ran)

  judge_cases-nil :
      (g : Progress) (w : p.World)
      → judge_cases p sb sub box_id [] g (at w)
        ≡ done
            (record g.result {
              status = accepted;
              time_used_ms = g.max_time_ms;
              memory_used_kb = g.max_memory_kb;
            })
            (ends_at w)
  unfolding judge_cases finish
  judge_cases-nil g w = refl

  pub finish_lem :
      (out : JudgeResultInternal) (w : p.World) → finish box_id out (at w) ≡ done out (ends_at w)
  unfolding finish
  finish_lem out w = refl

  pub judge_cases-Graded :
      {tcs : List TestCase} {w w' : p.World} {st : JudgeStatus} {runs : List GradedRun}
      (g : Progress)
      → Graded p sb sub tcs w st runs w'
      → (out : JudgeResultInternal) × (judge_cases p sb sub box_id tcs g (at w)
          ≡ done out (ends_at w'))
        × Tells g st runs out
  judge_cases-Graded {w} g (all_pass same) = (_, rw same (judge_cases-nil g w), Tells-accepted g)
  judge_cases-Graded {w} {w'} g (stops {tc} {tcs} {r = r} {st = st} ran ne v) =
      let next = judge_cases p sb sub box_id tcs in
      let entry = case_entry (track g r).i tc r in
      let message = message_of st (track g r).i r in
      (
        failed_case st message (track g r) entry,
        judge_cases-cons tc tcs g w w' r ran
            ∙ ap (λ (m : M (JudgeState p.World) JudgeResultInternal). m (at w'))
                (check_run_stops sub box_id (track g r) tc r next st ne v)
            ∙ finish_lem _ w',
        Tells-failed g tc r st ne,
      )
  judge_cases-Graded {w} g
        (passes {tc} {tcs} {w₁ = w₁} {r = r} {st = st} {runs = runs} ran v rest) =
      let next = judge_cases p sb sub box_id tcs in
      let g' = passed_case (track g r) (case_entry (track g r).i tc r) in
      let (out, e, t) = judge_cases-Graded g' rest in
      (
        out,
        judge_cases-cons tc tcs g w w₁ r ran
            ∙ ap (λ (m : M (JudgeState p.World) JudgeResultInternal). m (at w₁))
                (check_run-accepted sub box_id (track g r) tc r next v)
            ∙ e,
        Tells-passed g tc r st runs out t,
      )
