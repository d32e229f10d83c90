-- ===== src/Judge/Engine/Blocking.antt =====
-- When a call of `JudgeEngine::judge` of src/judge/judge_engine.cpp blocks.
use flowstudy_judge.Common.{
  ℤ, ◌≡◌, ◌↔◌, refl, sym, ap, subst, List, [], ◌∷◌, arith, M, Outcome, done, threw, hung, inl, inr,
  NotHung, not_hung, >>=-NotHung, Bool-cases, pos, eqb_ℤ,
}
use flowstudy_judge.Config.{IsolateConfig}
use flowstudy_judge.Platform.{Platform}
use flowstudy_judge.Sandbox.{Sandbox, SandboxResult, new_sandbox}
use flowstudy_judge.Sandbox.Blocking.{compile-ne-hung, run-ne-hung}
use flowstudy_judge.Sandbox.Compile.{compile}
use flowstudy_judge.Sandbox.Run.{run}
use flowstudy_judge.Judge.Data.{TestCase, SubmissionMessage, JudgeResultInternal}
use flowstudy_judge.Judge.BoxPool.{acquire}
use flowstudy_judge.Judge.Engine.{
  JudgeState, on_world, finish, Progress, track, check_run, judge_cases, first_round,
  compile_failure, judge,
}
use flowstudy_judge.Judge.Engine.Promise.{behind}
use flowstudy_judge.Judge.Engine.Verdict.{check_run-cases}

module _ {W : Type 0} where
  on_world-NotHung :
      {A : Type 0} (m : M W A) (s : JudgeState W) → NotHung (m s.world) → NotHung (on_world m s)
  on_world-NotHung {A} m s h = go (m s.world) h
    where
      go : (o : Outcome W A) → NotHung o → NotHung (on_world (λ _. o) s)
      go (done a w) h = tt
      go (threw w) h = tt
      go (hung w) h = h

  finish-NotHung :
      (box_id : ℤ) (out : JudgeResultInternal) (s : JudgeState W) → NotHung (finish box_id out s)
  unfolding finish
  finish-NotHung box_id out s = tt

  check_run-NotHung :
      (sub : SubmissionMessage) (box_id : ℤ) (g : Progress) (tc : TestCase) (r : SandboxResult)
      (next : Progress → M (JudgeState W) JudgeResultInternal)
      → ((g' : Progress) (s : JudgeState W) → NotHung (next g' s))
      → (s : JudgeState W) → NotHung (check_run sub box_id g tc r next s)
  check_run-NotHung sub box_id g tc r next h s = elim (check_run-cases sub box_id g tc r next) [
    | inl (out, e) ↦ subst Goes (sym e) (finish-NotHung box_id out s)
    | inr (g', e) ↦ subst Goes (sym e) (h g' s)
  ]
    where
      Goes : M (JudgeState W) JudgeResultInternal → Type 0
      Goes m = NotHung (m s)

module _ (p : Platform) (cfg : IsolateConfig) (sub : SubmissionMessage) where
  judge_cases-NotHung :
      (sb : Sandbox) (box_id : ℤ) (tcs : List TestCase) (g : Progress) (s : JudgeState p.World)
      → NotHung (judge_cases p sb sub box_id tcs g s)
  unfolding judge_cases
  judge_cases-NotHung sb box_id [] g s = finish-NotHung box_id _ s
  judge_cases-NotHung sb box_id (tc ∷ tcs) g s =
      let m = run p sb sub.language sub.time_limit_ms sub.memory_limit_kb tc.input in
      >>=-NotHung (on_world m) _ s
        (on_world-NotHung m s (not_hung _ (run-ne-hung p sb _ _ _ tc.input s.world)))
        (λ r t.
          check_run-NotHung sub box_id (track g r) tc r _
            (λ g' s'. judge_cases-NotHung sb box_id tcs g' s') t)

  behind-NotHung :
      (box_id : ℤ) (c : SandboxResult × Sandbox) (s : JudgeState p.World)
      → NotHung (behind p cfg sub box_id c s)
  behind-NotHung box_id c s = elim (Bool-cases (eqb_ℤ c.0.exit_code (pos 0))) [
    | inl e ↦ rw e (judge_cases-NotHung c.1 box_id sub.testcases first_round s)
    | inr e ↦ rw e (finish-NotHung box_id (compile_failure c.0) s)
  ]

  -- A call that finds a box free does not block.
  pub judge-NotHung :
      (box_id : ℤ) (rest : List ℤ) (boxes : List Sandbox) (w : p.World)
      → NotHung (
          judge p cfg sub
            (record { world = w; pool = record { available = box_id ∷ rest; boxes = boxes } }))
  unfolding judge
  judge-NotHung box_id rest boxes w =
      let m = compile p (new_sandbox box_id cfg) sub.language sub.code in
      let s : JudgeState p.World = record {
        world = w;
        pool = record { available = rest; boxes = boxes };
      } in
      >>=-NotHung (on_world m) (behind p cfg sub box_id) s
        (on_world-NotHung m s (not_hung _ (compile-ne-hung p _ sub.language sub.code w)))
        (λ c t. behind-NotHung box_id c t)

  -- Where the commands of the system return, `judge` blocks if and only if no box is free when it is
  -- called. It has then changed nothing.
  pub judge-hung_iff :
      (s t : JudgeState p.World)
      → (judge p cfg sub s ≡ hung t) ↔ ((s.pool.available ≡ []) × (t ≡ s))
  unfolding judge acquire
  judge-hung_iff s t = go s.pool.available
    where
      with_free : List ℤ → JudgeState p.World
      with_free av = record s { pool = record (s.pool) { available = av } }

      go :
          (av : List ℤ)
          → (judge p cfg sub (with_free av) ≡ hung t) ↔ ((av ≡ []) × (t ≡ with_free av))
      go [] = (λ h. (refl, ground arith), λ h. ap hung (sym h.1))
      go (id ∷ rest) =
          let quiet = judge-NotHung id rest s.pool.boxes s.world in
          (λ h. absurd (subst NotHung h quiet), λ h. absurd (cc (h.0)))
