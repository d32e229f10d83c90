-- ===== src/Judge/Engine/Concluded.antt =====
-- The results of `JudgeEngine::judge` of src/judge/judge_engine.cpp and the shapes of `Concluded`.
use flowstudy_judge.Common.{
  ℕ, suc, ◌+◌, ◌<◌, ℤ, pos, eqb_ℤ, ◌≡◌, refl, sym, subst, arith, List, [], ◌∷◌, length, inl, inr,
  Bool-cases, M, Outcome, done, threw, hung, ◌>>=◌,
}
use flowstudy_judge.Config.{IsolateConfig}
use flowstudy_judge.Platform.{Platform}
use flowstudy_judge.Sandbox.{Sandbox, SandboxResult, new_sandbox}
use flowstudy_judge.Sandbox.Compile.{compile}
use flowstudy_judge.Sandbox.Run.{run}
use flowstudy_judge.Judge.Data.{TestCase, SubmissionMessage, JudgeResultInternal}
use flowstudy_judge.Judge.BoxPool.{BoxPool, acquire}
use flowstudy_judge.Judge.Engine.{
  JudgeState, on_pool, on_world, finish, Progress, track, case_entry, passed_case, check_run,
  judge_cases, first_round, compile_failure, judge,
}
use flowstudy_judge.Judge.Engine.Promise.{behind}
use flowstudy_judge.Judge.Engine.Verdict.{
  Verdict, Verdict-total, message_of, accepted_or_not, check_run-accepted, check_run_stops,
}
use flowstudy_judge.Judge.Engine.Shape.{
  Concluded, all_passed, not_compiled, Passed, Verdict-IsFailure, failed_case-Concluded,
  passed_case-Passed, i-passed_case,
}

module _ {W : Type 0} (n : ℕ) where
  abbrev Concludes : Outcome (JudgeState W) JudgeResultInternal → Type 0
  Concludes (done out s) = Concluded n out
  Concludes (threw s) = Unit
  Concludes (hung s) = Unit

  finish-Concludes :
      (box_id : ℤ) (out : JudgeResultInternal) (s : JudgeState W)
      → Concluded n out
      → Concludes (finish box_id out s)
  unfolding finish
  finish-Concludes box_id out s h = h

  check_run-Concludes :
      (sub : SubmissionMessage) (box_id : ℤ) (g : Progress) (tc : TestCase) (r : SandboxResult)
      (next : Progress → M (JudgeState W) JudgeResultInternal) (s : JudgeState W)
      → Passed g
      → g.i < n
      → ((g' : Progress) (s' : JudgeState W) → Passed g' → g'.i ≡ suc g.i → Concludes (next g' s'))
      → Concludes (check_run sub box_id (track g r) tc r next s)
  unfolding track
  check_run-Concludes sub box_id g tc r next s h lt rest =
      let (st, v) = Verdict-total sub tc r in
      elim (accepted_or_not st) [
        | inl e ↦
            subst Ends
              (sym (
                check_run-accepted sub box_id (track g r) tc r next (subst (Verdict sub tc r) e v)))
              (rest (passed_case (track g r) (case_entry (track g r).i tc r)) s
                (passed_case-Passed g tc r h) (i-passed_case g tc r))
        | inr ne ↦ subst Ends (sym (check_run_stops sub box_id (track g r) tc r next st ne v)) (
            finish-Concludes box_id _ s (
              failed_case-Concluded n g tc r st (message_of st g.i r) h
                (Verdict-IsFailure sub tc r st ne v) lt))
      ]
    where
      Ends : M (JudgeState W) JudgeResultInternal → Type 0
      Ends m = Concludes (m s)

  -- A step in the world, and what follows it.
  bind-Concludes :
      {A : Type 0} (m : M W A) (f : A → M (JudgeState W) JudgeResultInternal) (s : JudgeState W)
      → ((a : A) (s' : JudgeState W) → Concludes (f a s'))
      → Concludes ((◌>>=◌ (on_world m) f) s)
  bind-Concludes {A} m f s h = go (m s.world)
    where
      go : (o : Outcome W A) → Concludes (◌>>=◌ (on_world (λ _. o)) f s)
      go (done a w) = h a (record s { world = w })
      go (threw w) = tt
      go (hung w) = tt

  bind_pool-Concludes :
      {A : Type 0} (m : M BoxPool A) (f : A → M (JudgeState W) JudgeResultInternal)
      (s : JudgeState W)
      → ((a : A) (s' : JudgeState W) → Concludes (f a s'))
      → Concludes ((◌>>=◌ (on_pool m) f) s)
  bind_pool-Concludes {A} m f s h = go (m s.pool)
    where
      go : (o : Outcome BoxPool A) → Concludes (◌>>=◌ (on_pool (λ _. o)) f s)
      go (done a q) = h a (record s { pool = q })
      go (threw q) = tt
      go (hung q) = tt

module _ (p : Platform) (cfg : IsolateConfig) (sub : SubmissionMessage) where
  judge_cases-Concludes :
      (n : ℕ) (sb : Sandbox) (box_id : ℤ) (tcs : List TestCase) (g : Progress)
      (s : JudgeState p.World)
      → Passed g
      → g.i + length tcs ≡ n
      → Concludes n (judge_cases p sb sub box_id tcs g s)
  unfolding judge_cases
  judge_cases-Concludes n sb box_id [] g s h e =
      finish-Concludes n box_id _ s (all_passed refl h.cases (omega (arith, h.counted)) h.index)
  judge_cases-Concludes n sb box_id (tc ∷ tcs) g s h e =
      bind-Concludes n (run p sb sub.language sub.time_limit_ms sub.memory_limit_kb tc.input)
        (λ r. check_run sub box_id (track g r) tc r (judge_cases p sb sub box_id tcs)) s
        (λ r s'.
          check_run-Concludes n sub box_id g tc r (judge_cases p sb sub box_id tcs) s' h
            (omega arith)
            (λ g' t h' e'. judge_cases-Concludes n sb box_id tcs g' t h' (omega arith)))

  first_round-Passed : Passed first_round
  first_round-Passed = record { cases = tt; counted = refl; index = refl }

  behind-Concludes :
      (box_id : ℤ) (c : SandboxResult × Sandbox) (s : JudgeState p.World)
      → Concludes (length sub.testcases) (behind p cfg sub box_id c s)
  behind-Concludes box_id c s = elim (Bool-cases (eqb_ℤ c.0.exit_code (pos 0))) [
    | inl e ↦ rw e (
        judge_cases-Concludes (length sub.testcases) c.1 box_id sub.testcases first_round s
          first_round-Passed (omega arith))
    | inr e ↦ rw e (
        finish-Concludes (length sub.testcases) box_id (compile_failure c.0) s
          (not_compiled refl refl refl))
  ]

  judge-Concludes : (s : JudgeState p.World) → Concludes (length sub.testcases) (judge p cfg sub s)
  unfolding judge
  judge-Concludes s =
      bind_pool-Concludes (length sub.testcases) acquire
        (λ box_id.
          ◌>>=◌ (on_world (compile p (new_sandbox box_id cfg) sub.language sub.code))
            (behind p cfg sub box_id))
        s
        (λ box_id s'.
          bind-Concludes (length sub.testcases)
            (compile p (new_sandbox box_id cfg) sub.language sub.code) (behind p cfg sub box_id) s'
            (behind-Concludes box_id))

  -- Whenever `judge` returns, its result has one of three shapes. All test cases passed: the status is
  -- `accepted`, with an accepted entry for each of them and the failed index -1. Or one failed: its
  -- entry is the last, all entries before it are accepted, the status is that of this entry and is
  -- `wrong_answer`, `time_limit_exceeded`, `memory_limit_exceeded` or `runtime_error`, and the failed
  -- index is its position. Or nothing was run: `compilation_error`, no entries, and -1. No result has
  -- another status.
  pub judge-Concluded :
      (s t : JudgeState p.World) (out : JudgeResultInternal)
      → judge p cfg sub s ≡ done out t
      → Concluded (length sub.testcases) out
  judge-Concluded s t out e = subst (Concludes (length sub.testcases)) e (judge-Concludes s)
