-- ===== src/Judge/Engine/Shape.antt =====
-- The shapes of a result of `JudgeEngine::judge` of src/judge/judge_engine.cpp.
use flowstudy_judge.Common.{
  ℕ, suc, ◌<◌, Bytes, negsuc, to_int32, ◌≡◌, ◌≢◌, refl, ap, ◌∙◌, arith, List, [], ◌∷◌, ◌++◌, All,
  All-append, length,
}
use flowstudy_judge.Status.{
  JudgeStatus, accepted, wrong_answer, time_limit_exceeded, memory_limit_exceeded, runtime_error,
  compilation_error,
}
use flowstudy_judge.Sandbox.{SandboxResult}
use flowstudy_judge.Judge.Data.{
  TestCase, SubmissionMessage, JudgeCaseResultInternal, JudgeResultInternal,
}
use flowstudy_judge.Judge.Engine.{Progress, track, case_entry, failed_case, passed_case}
use flowstudy_judge.Judge.Engine.Verdict.{Verdict}

-- The statuses that a failed run has.
abbrev pub IsFailure : JudgeStatus → Type 0
IsFailure wrong_answer = Unit
IsFailure time_limit_exceeded = Unit
IsFailure memory_limit_exceeded = Unit
IsFailure runtime_error = Unit
IsFailure _ = ⊥

abbrev pub AllAccepted : List JudgeCaseResultInternal → Type 0
AllAccepted = All (λ c. c.status ≡ accepted)

-- A result for a submission with `n` test cases.
pub data Concluded (n : ℕ) (out : JudgeResultInternal) : Type 0 where
  all_passed :
      out.status ≡ accepted
      → AllAccepted out.case_results
      → length out.case_results ≡ n
      → out.failed_testcase_index ≡ negsuc 0
      → Concluded n out
  failed_at :
      (passed : List JudgeCaseResultInternal) (last : JudgeCaseResultInternal)
      → out.case_results ≡ passed ++ last ∷ []
      → AllAccepted passed
      → last.status ≡ out.status
      → IsFailure out.status
      → length passed < n
      → out.failed_testcase_index ≡ to_int32 (length passed)
      → Concluded n out
  not_compiled :
      out.status ≡ compilation_error
      → out.case_results ≡ []
      → out.failed_testcase_index ≡ negsuc 0
      → Concluded n out

-- The loop variables after some test cases, all passed.
pub record Passed (g : Progress) : Type 0 where
  pub cases : AllAccepted g.result.case_results
  pub counted : length g.result.case_results ≡ g.i
  pub index : g.result.failed_testcase_index ≡ negsuc 0

pub Verdict-IsFailure :
    (sub : SubmissionMessage) (tc : TestCase) (r : SandboxResult) (st : JudgeStatus)
    → st ≢ accepted
    → Verdict sub tc r st
    → IsFailure st
Verdict-IsFailure sub tc r accepted ne v = ne refl
Verdict-IsFailure sub tc r _ ne v = ground arith

pub failed_case-Concluded :
    (n : ℕ) (g : Progress) (tc : TestCase) (r : SandboxResult) (st : JudgeStatus) (m : Bytes)
    → Passed g
    → IsFailure st
    → g.i < n
    → Concluded n (failed_case st m (track g r) (case_entry (track g r).i tc r))
unfolding failed_case track case_entry
failed_case-Concluded n g tc r st m h f lt =
    failed_at g.result.case_results _ refl h.cases refl f (rw h.counted lt) (rw h.counted refl)

length-snoc {ℓ} : {A : Type ℓ} (xs : List A) (x : A) → length (xs ++ x ∷ []) ≡ suc (length xs)
length-snoc [] x = refl
length-snoc (y ∷ xs) x = ap suc (length-snoc xs x)

pub passed_case-Passed :
    (g : Progress) (tc : TestCase) (r : SandboxResult)
    → Passed g
    → Passed (passed_case (track g r) (case_entry (track g r).i tc r))
unfolding passed_case track case_entry
passed_case-Passed g tc r h = record {
  cases = All-append (λ (c : JudgeCaseResultInternal). c.status ≡ accepted) _ _ h.cases (refl, tt);
  counted = length-snoc g.result.case_results _ ∙ ap suc h.counted;
  index = h.index;
}

pub i-passed_case :
    (g : Progress) (tc : TestCase) (r : SandboxResult)
    → (passed_case (track g r) (case_entry (track g r).i tc r)).i ≡ suc g.i
unfolding passed_case track
i-passed_case g tc r = refl
