-- ===== src/Judge/Engine/Pools.antt =====
-- What a call of `JudgeEngine::judge` of src/judge/judge_engine.cpp leaves of the pool.
use mathlib.Core.List.{Perm, perm_middle}
use mathlib.Core.List.Perm
use flowstudy_judge.Common.{
  inr, ℤ, refl, sym, ap, subst, List, [], ◌∷◌, ◌++◌, append-nil, Outcome, done, threw, hung,
  NotHung,
}
use flowstudy_judge.Config.{IsolateConfig}
use flowstudy_judge.Platform.{Platform}
use flowstudy_judge.Sandbox.{Sandbox}
use flowstudy_judge.Judge.Data.{SubmissionMessage}
use flowstudy_judge.Judge.BoxPool.Kept.{Kept}
use flowstudy_judge.Judge.Engine.{JudgeState, judge}
use flowstudy_judge.Judge.Engine.Boxes.{Accounts, judge-Accounts}
use flowstudy_judge.Judge.Engine.Blocking.{judge-NotHung, judge-hung_iff}

-- A box that was taken first and is given back last.
back_last : (box_id : ℤ) (rest : List ℤ) → Perm (box_id ∷ rest) (rest ++ box_id ∷ [])
back_last box_id rest =
    subst (λ xs. Perm (box_id ∷ xs) (rest ++ box_id ∷ [])) (append-nil rest)
      (Perm.symm (perm_middle rest []))

module _ {W : Type 0} (box_id : ℤ) (rest : List ℤ) (boxes : List Sandbox) where
  Accounts-Kept :
      {A : Type 0} (o : Outcome (JudgeState W) A)
      → Accounts (record { available = rest; boxes = boxes }) box_id o
      → NotHung o
      → Kept (λ s. s.pool) (record { available = box_id ∷ rest; boxes = boxes }) o
  Accounts-Kept (done a s) e h = (
    ap (λ q. q.boxes) e,
    subst (Perm (box_id ∷ rest)) (sym (ap (λ q. q.available) e)) (back_last box_id rest),
  )
  Accounts-Kept (threw s) e h = (
    ap (λ q. q.boxes) e,
    inr (
      box_id,
      subst (λ xs. Perm (box_id ∷ rest) (box_id ∷ xs)) (sym (ap (λ q. q.available) e))
          (Perm.refl (box_id ∷ rest)),
    ),
  )
  Accounts-Kept (hung s) e h = absurd h

-- However the call ends, the pool is kept in the sense of `Kept`.
pub judge-Kept :
    (p : Platform) (cfg : IsolateConfig) (sub : SubmissionMessage) (s : JudgeState p.World)
    → Kept (λ t. t.pool) s.pool (judge p cfg sub s)
judge-Kept p cfg sub s = go s.pool.available
  where
    with_free : List ℤ → JudgeState p.World
    with_free av = record s { pool = record (s.pool) { available = av } }

    go : (av : List ℤ) → Kept (λ t. t.pool) (with_free av).pool (judge p cfg sub (with_free av))
    go [] =
        let blocks = (judge-hung_iff p cfg sub (with_free []) (with_free [])).1 (refl, refl) in
        subst (Kept (λ t. t.pool) (with_free []).pool) (sym blocks) (refl, refl, refl)
    go (id ∷ rest) =
        Accounts-Kept id rest s.pool.boxes _ (judge-Accounts p cfg sub id rest s.pool.boxes s.world)
          (judge-NotHung p cfg sub id rest s.pool.boxes s.world)
