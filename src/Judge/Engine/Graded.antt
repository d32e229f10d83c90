-- ===== src/Judge/Engine/Graded.antt =====
-- What `JudgeEngine::judge` of src/judge/judge_engine.cpp is to promise: the graded runs of the test
-- cases, and what a result tells of them.
use flowstudy_judge.Common.{
  ℕ, suc, ◌+◌, ◌-◌, Bytes, ℤ, pos, ltb_ℤ, ◌+ℤ◌, max_ℤ, to_int32, ◌≡◌, ◌≢◌, refl, ap, subst, inl,
  inr, ◌∙◌, arith, List, [], ◌∷◌, ◌++◌, map, length, done, Bool, true, false, if◌then◌else◌,
  append_assoc, append-nil,
}
use flowstudy_judge.Platform.{Platform}
use flowstudy_judge.Status.{JudgeStatus, accepted}
use flowstudy_judge.Sandbox.{Sandbox, SandboxResult}
use flowstudy_judge.Sandbox.Run.{run}
use flowstudy_judge.Judge.Data.{
  TestCase, SubmissionMessage, JudgeCaseResultInternal, JudgeResultInternal,
}
use flowstudy_judge.Judge.Engine.{Progress, track, case_entry, failed_case, passed_case}
use flowstudy_judge.Judge.Engine.Verdict.{message_of, Verdict, Verdict-total, accepted_or_not}

-- A test case, its run, and the status that the run deserves.
abbrev pub GradedRun : Type 0
GradedRun = TestCase × SandboxResult × JudgeStatus

module _ (p : Platform) (sb : Sandbox) (sub : SubmissionMessage) where
  abbrev pub RunOf : TestCase → p.World → SandboxResult → p.World → Type 0
  RunOf tc w r w' =
      run p sb sub.language sub.time_limit_ms sub.memory_limit_kb tc.input w ≡ done r w'

  -- From the world `w` these test cases end with this status, after these runs, in the world `w'`.
  pub data Graded : List TestCase → p.World → JudgeStatus → List GradedRun → p.World → Type 0 where
    all_pass : {w w' : p.World} → w' ≡ w → Graded [] w accepted [] w'
    stops :
        {tc : TestCase} {tcs : List TestCase} {w w' : p.World} {r : SandboxResult}
        {st : JudgeStatus}
        → RunOf tc w r w'
        → st ≢ accepted
        → Verdict sub tc r st
        → Graded (tc ∷ tcs) w st ((tc, r, st) ∷ []) w'
    passes :
        {tc : TestCase} {tcs : List TestCase} {w w₁ w' : p.World} {r : SandboxResult}
        {st : JudgeStatus} {runs : List GradedRun}
        → RunOf tc w r w₁
        → Verdict sub tc r accepted
        → Graded tcs w₁ st runs w'
        → Graded (tc ∷ tcs) w st ((tc, r, accepted) ∷ runs) w'

module _ (p : Platform) (sb : Sandbox) (sub : SubmissionMessage)
    (runs : (tc : TestCase) (w : p.World)
      → (r : SandboxResult) × (w' : p.World) × RunOf p sb sub tc w r w') where
  -- Where every run returns, every list of test cases is graded.
  pub Graded-total :
      (tcs : List TestCase) (w : p.World)
      → (st : JudgeStatus) × (graded : List GradedRun) × (w' : p.World) × Graded p sb sub tcs w st
          graded w'
  Graded-total [] w = (accepted, [], w, all_pass refl)
  Graded-total (tc ∷ tcs) w =
      let (r, w₁, ran) = runs tc w in
      let (st, v) = Verdict-total sub tc r in
      let (st', graded, w', d) = Graded-total tcs w₁ in
      elim (accepted_or_not st) [
        | inl e ↦ (st', (tc, r, accepted) ∷ graded, w', passes ran (subst (Verdict sub tc r) e v) d)
        | inr ne ↦ (st, (tc, r, st) ∷ [], w₁, stops ran ne v)
      ]

abbrev pub max_from : ℤ → List ℤ → ℤ
max_from m [] = m
max_from m (x ∷ xs) = max_from (max_ℤ m x) xs

abbrev pub is_accepted : JudgeStatus → Bool
is_accepted accepted = true
is_accepted _ = false

-- The entry that a run leaves in the result, for the test case at this position from 0.
abbrev pub entry_of : ℕ → GradedRun → JudgeCaseResultInternal
entry_of i (tc, r, st) = record {
  testcase_id = tc.testcase_id;
  case_index = if ltb_ℤ (pos 0) tc.case_index then tc.case_index else to_int32 i +ℤ pos 1;
  status = st;
  time_used_ms = r.time_used_ms;
  memory_used_kb = r.memory_used_kb;
  input_text = tc.input;
  actual_output = r.stdout_output;
  expected_output = tc.expected_output;
  error_message = message_of st i r;
}

abbrev pub entries : ℕ → List GradedRun → List JudgeCaseResultInternal
entries i [] = []
entries i (x ∷ xs) = entry_of i x ∷ entries (suc i) xs

-- The message of the run that failed, and `m` if none did.
abbrev pub failure_message : ℕ → Bytes → List GradedRun → Bytes
failure_message i m [] = m
failure_message i m ((tc, r, st) ∷ xs) =
    let later = failure_message (suc i) m xs in if is_accepted st then later else message_of st i r

-- The result tells of these runs, which follow on the loop variables `g`.
pub record Tells (g : Progress) (st : JudgeStatus) (runs : List GradedRun)
    (out : JudgeResultInternal) : Type 0 where
  pub status_is : out.status ≡ st
  pub time_is : out.time_used_ms ≡ max_from g.max_time_ms (map (λ x. x.1.time_used_ms) runs)
  pub memory_is : out.memory_used_kb ≡ max_from g.max_memory_kb (map (λ x. x.1.memory_used_kb) runs)
  pub entries_are : out.case_results ≡ g.result.case_results ++ entries g.i runs
  pub message_is : out.error_message ≡ failure_message g.i g.result.error_message runs
  pub compiler_is : out.compiler_output ≡ g.result.compiler_output
  pub index_is : out.failed_testcase_index ≡ (
      if is_accepted st then g.result.failed_testcase_index else to_int32 (g.i + length runs - 1))

pub Tells-accepted :
    (g : Progress)
    → Tells g accepted [] (record g.result {
      status = accepted;
      time_used_ms = g.max_time_ms;
      memory_used_kb = g.max_memory_kb;
    })
Tells-accepted g = record {
  status_is = refl;
  time_is = refl;
  memory_is = refl;
  entries_are = rw append-nil;
  message_is = refl;
  compiler_is = refl;
  index_is = refl;
}

not_accepted : (st : JudgeStatus) → st ≢ accepted → is_accepted st ≡ false
not_accepted accepted ne = absurd (ne refl)
not_accepted _ ne = refl

pub Tells-failed :
    (g : Progress) (tc : TestCase) (r : SandboxResult) (st : JudgeStatus)
    → st ≢ accepted
    → Tells g st
        ((tc, r, st) ∷ [])
        (failed_case st (message_of st (track g r).i r) (track g r) (case_entry (track g r).i tc r))
unfolding failed_case track case_entry
Tells-failed g tc r st ne = record {
  status_is = refl;
  time_is = refl;
  memory_is = refl;
  entries_are = refl;
  message_is = rw (not_accepted st ne) refl;
  compiler_is = refl;
  index_is =
      rw (not_accepted st ne) (ap to_int32 (let same : g.i ≡ g.i + 1 - 1 = omega arith in same));
}

pub Tells-passed :
    (g : Progress) (tc : TestCase) (r : SandboxResult) (st : JudgeStatus) (runs : List GradedRun)
    (out : JudgeResultInternal)
    → Tells (passed_case (track g r) (case_entry (track g r).i tc r)) st runs out
    → Tells g st ((tc, r, accepted) ∷ runs) out
unfolding passed_case track case_entry
Tells-passed g tc r st runs out t = record {
  status_is = t.status_is;
  time_is = t.time_is;
  memory_is = t.memory_is;
  entries_are =
      t.entries_are
      ∙ append_assoc g.result.case_results (entry_of g.i (tc, r, accepted) ∷ [])
          (entries (suc g.i) runs);
  message_is = t.message_is;
  compiler_is = t.compiler_is;
  index_is =
      t.index_is
      ∙ ap (λ (n : ℕ). if is_accepted st then g.result.failed_testcase_index else to_int32 n)
          (let same : suc g.i + length runs - 1 ≡ g.i + length ((tc, r, accepted) ∷ runs) - 1 =
              omega arith in
            same);
}
