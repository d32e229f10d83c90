-- ===== src/Judge/Engine/Boxes.antt =====
-- The accounts of the boxes over a call of `JudgeEngine::judge` of src/judge/judge_engine.cpp.
use flowstudy_judge.Common.{
  ℤ, pos, eqb_ℤ, ◌≡◌, refl, sym, subst, inl, inr, Bool-cases, List, [], ◌∷◌, M, ◌>>=◌, Outcome,
  done, threw, hung,
}
use flowstudy_judge.Config.{IsolateConfig}
use flowstudy_judge.Platform.{Platform}
use flowstudy_judge.Sandbox.{Sandbox, SandboxResult, new_sandbox}
use flowstudy_judge.Sandbox.Compile.{compile}
use flowstudy_judge.Sandbox.Run.{run}
use flowstudy_judge.Judge.Data.{TestCase, SubmissionMessage, JudgeResultInternal}
use flowstudy_judge.Judge.BoxPool.{BoxPool}
use flowstudy_judge.Judge.Engine.{
  JudgeState, on_world, finish, Progress, track, check_run, judge_cases, first_round,
  compile_failure, judge,
}
use flowstudy_judge.Judge.Engine.Promise.{behind}
use flowstudy_judge.Judge.Engine.Verdict.{check_run-cases}
use flowstudy_judge.Judge.Engine.Loop.{returned}

module _ {W : Type 0} (pool : BoxPool) (box_id : ℤ) where
  -- How the pool stands after a call that holds this box: the box is back if the call returns, and
  -- is not back if an exception leaves the call.
  abbrev pub Accounts : {A : Type 0} → Outcome (JudgeState W) A → Type 0
  Accounts (done a s) = s.pool ≡ returned pool box_id
  Accounts (threw s) = s.pool ≡ pool
  Accounts (hung s) = s.pool ≡ pool

  abbrev held_at : W → JudgeState W
  held_at w = record { world = w; pool = pool }

  finish-Accounts : (out : JudgeResultInternal) (w : W) → Accounts (finish box_id out (held_at w))
  unfolding finish
  finish-Accounts out w = refl

  check_run-Accounts :
      (sub : SubmissionMessage) (g : Progress) (tc : TestCase) (r : SandboxResult)
      (next : Progress → M (JudgeState W) JudgeResultInternal)
      → ((g' : Progress) (w : W) → Accounts (next g' (held_at w)))
      → (w : W) → Accounts (check_run sub box_id g tc r next (held_at w))
  check_run-Accounts sub g tc r next h w = elim (check_run-cases sub box_id g tc r next) [
    | inl (out, e) ↦ subst Keeps (sym e) (finish-Accounts out w)
    | inr (g', e) ↦ subst Keeps (sym e) (h g' w)
  ]
    where
      Keeps : M (JudgeState W) JudgeResultInternal → Type 0
      Keeps m = Accounts (m (held_at w))

  -- A step in the world, and what follows it.
  bind-Accounts :
      {A B : Type 0} (m : M W A) (f : A → M (JudgeState W) B)
      → ((a : A) (w : W) → Accounts (f a (held_at w)))
      → (w : W) → Accounts ((◌>>=◌ (on_world m) f) (held_at w))
  bind-Accounts {A} {B} m f h w = go (m w)
    where
      go : (o : Outcome W A) → Accounts (◌>>=◌ (on_world (λ _. o)) f (held_at w))
      go (done a w') = h a w'
      go (threw w') = refl
      go (hung w') = refl

module _ (p : Platform) (cfg : IsolateConfig) (sub : SubmissionMessage) (box_id : ℤ)
    (pool : BoxPool) where
  judge_cases-Accounts :
      (sb : Sandbox) (tcs : List TestCase) (g : Progress) (w : p.World)
      → Accounts pool box_id (judge_cases p sb sub box_id tcs g (record { world = w; pool = pool }))
  unfolding judge_cases
  judge_cases-Accounts sb [] g w = finish-Accounts pool box_id _ w
  judge_cases-Accounts sb (tc ∷ tcs) g w =
      bind-Accounts pool box_id
        (run p sb sub.language sub.time_limit_ms sub.memory_limit_kb tc.input)
        (λ r. check_run sub box_id (track g r) tc r (judge_cases p sb sub box_id tcs))
        (λ r.
          check_run-Accounts pool box_id sub (track g r) tc r (judge_cases p sb sub box_id tcs)
            (judge_cases-Accounts sb tcs))
        w

  -- The part of `judge` behind the compilation.
  behind-Accounts :
      (c : SandboxResult × Sandbox) (w : p.World)
      → Accounts pool box_id (behind p cfg sub box_id c (record { world = w; pool = pool }))
  behind-Accounts c w = elim (Bool-cases (eqb_ℤ c.0.exit_code (pos 0))) [
    | inl e ↦ rw e (judge_cases-Accounts c.1 sub.testcases first_round w)
    | inr e ↦ rw e (finish-Accounts pool box_id (compile_failure c.0) w)
  ]

-- A call of `judge` that finds a box free, `box_id` before `rest`, gives this box back at the end
-- of the queue on every path on which it returns, whatever the verdict. If an exception leaves the
-- call, or the call blocks, then the box is not given back.
pub judge-Accounts :
    (p : Platform) (cfg : IsolateConfig) (sub : SubmissionMessage) (box_id : ℤ) (rest : List ℤ)
    (boxes : List Sandbox) (w : p.World)
    → Accounts
        (record { available = rest; boxes = boxes })
        box_id
        (judge p cfg sub
          (record { world = w; pool = record { available = box_id ∷ rest; boxes = boxes } }))
unfolding judge
judge-Accounts p cfg sub box_id rest boxes w =
    let pool : BoxPool = record { available = rest; boxes = boxes } in
    bind-Accounts pool box_id (compile p (new_sandbox box_id cfg) sub.language sub.code)
      (behind p cfg sub box_id) (behind-Accounts p cfg sub box_id pool) w
