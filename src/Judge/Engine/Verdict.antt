-- ===== src/Judge/Engine/Verdict.antt =====
-- The status that a run of one test case deserves, stated apart from the order of the checks in
-- `JudgeEngine::judge` of src/judge/judge_engine.cpp, and the checks' agreement with it.
use flowstudy_judge.Common.{
  ℕ, ◌++◌, to_string_ℤ, Bytes, bytes, bytes_eq, bytes_eq_iff, true, false, ℤ, pos, ◌<ℤ◌, ◌≤ℤ◌,
  ltb_ℤ, ltb_ℤ_iff, eqb_ℤ, eqb_ℤ_iff, ◌≡◌, ◌≢◌, ◌⊎◌, inl, inr, refl, subst, arith, Bool-cases, M,
  [],
}
use flowstudy_judge.Status.{
  JudgeStatus, pending, accepted, wrong_answer, time_limit_exceeded, memory_limit_exceeded,
  runtime_error,
}
use flowstudy_judge.Sandbox.{SandboxResult}
use flowstudy_judge.Judge.Data.{TestCase, SubmissionMessage, JudgeResultInternal}
use flowstudy_judge.Judge.Compare.{compare_output}
use flowstudy_judge.Judge.Compare.Lines.{strip, line_at, compare_output_iff}
use flowstudy_judge.Judge.Engine.{
  JudgeState, Progress, case_entry, failed_case, passed_case, finish, check_run, on_testcase,
  runtime_message,
}

-- The two texts agree line by line, up to blanks at the lines' ends.
abbrev pub SameOutput : Bytes → Bytes → Type 0
SameOutput expected actual = (i : ℕ) → strip (line_at expected i) ≡ strip (line_at actual i)

abbrev pub IsLate : SandboxResult → Type 0
IsLate r = (r.timed_out ≡ true) ⊎ (r.status ≡ bytes "TO")

abbrev pub InTime : SandboxResult → Type 0
InTime r = (r.timed_out ≡ false) × (r.status ≢ bytes "TO")

-- The run `r` of the test case `tc` deserves this status.
abbrev pub Verdict : SubmissionMessage → TestCase → SandboxResult → JudgeStatus → Type 0
Verdict sub tc r time_limit_exceeded = IsLate r
Verdict sub tc r memory_limit_exceeded = InTime r × (sub.memory_limit_kb <ℤ r.memory_used_kb)
Verdict sub tc r runtime_error =
    InTime r
    × (r.memory_used_kb ≤ℤ sub.memory_limit_kb)
    × ((r.exit_code ≢ pos 0) ⊎ (r.signal_num ≢ pos 0))
Verdict sub tc r wrong_answer =
    InTime r
    × (r.memory_used_kb ≤ℤ sub.memory_limit_kb)
    × (r.exit_code ≡ pos 0)
    × (r.signal_num ≡ pos 0)
    × (¬ SameOutput tc.expected_output r.stdout_output)
Verdict sub tc r accepted =
    InTime r
    × (r.memory_used_kb ≤ℤ sub.memory_limit_kb)
    × (r.exit_code ≡ pos 0)
    × (r.signal_num ≡ pos 0)
    × SameOutput tc.expected_output r.stdout_output
Verdict sub tc r _ = ⊥

same_output : (e a : Bytes) → SameOutput e a → compare_output e a ≡ true
same_output e a h = (compare_output_iff e a).1 h

other_output : (e a : Bytes) → ¬ SameOutput e a → compare_output e a ≡ false
other_output e a h = elim (Bool-cases (compare_output e a)) [
  | inl same ↦ absurd (h ((compare_output_iff e a).0 same))
  | inr differ ↦ differ
]

-- The message of each failing status, for the test case with index `i`.
abbrev pub message_of : JudgeStatus → ℕ → SandboxResult → Bytes
message_of time_limit_exceeded i r = bytes "Time limit exceeded" ++ on_testcase i
message_of memory_limit_exceeded i r =
    bytes "Memory limit exceeded"
    ++ (on_testcase i ++ (bytes " (" ++ (to_string_ℤ r.memory_used_kb ++ bytes " KB)")))
message_of runtime_error i r = runtime_message i r
message_of wrong_answer i r = bytes "Wrong answer" ++ on_testcase i
message_of _ i r = []

module _ {W : Type 0} (sub : SubmissionMessage) (box_id : ℤ) (g : Progress) (tc : TestCase)
    (r : SandboxResult) (next : Progress → M (JudgeState W) JudgeResultInternal) where
  pub check_run-accepted :
      Verdict sub tc r accepted
      → check_run sub box_id g tc r next ≡ next (passed_case g (case_entry g.i tc r))
  unfolding check_run
  check_run-accepted v = ground (
    arith,
    bytes_eq_iff r.status (bytes "TO"),
    same_output tc.expected_output r.stdout_output v.4,
  )

  pub check_run_stops :
      (st : JudgeStatus)
      → st ≢ accepted
      → Verdict sub tc r st
      → check_run sub box_id g tc r next
        ≡ finish box_id (failed_case st (message_of st g.i r) g (case_entry g.i tc r))
  unfolding check_run
  check_run_stops time_limit_exceeded ne v = ground (arith, bytes_eq_iff r.status (bytes "TO"))
  check_run_stops memory_limit_exceeded ne v = ground (arith, bytes_eq_iff r.status (bytes "TO"))
  check_run_stops runtime_error ne v = ground (arith, bytes_eq_iff r.status (bytes "TO"))
  check_run_stops wrong_answer ne v = ground (
    arith,
    bytes_eq_iff r.status (bytes "TO"),
    other_output tc.expected_output r.stdout_output v.4,
  )
  check_run_stops accepted ne v = absurd (ne refl)
  check_run_stops _ ne v = absurd v

-- A run that is in time deserves a status by the later checks.
InTime-Verdict :
    (sub : SubmissionMessage) (tc : TestCase) (r : SandboxResult)
    → InTime r
    → (st : JudgeStatus) × Verdict sub tc r st
InTime-Verdict sub tc r t = elim (Bool-cases (ltb_ℤ sub.memory_limit_kb r.memory_used_kb)) [
  | inl over ↦ (memory_limit_exceeded, (t, (ltb_ℤ_iff sub.memory_limit_kb r.memory_used_kb).0 over))
  | inr under ↦
      let fits : r.memory_used_kb ≤ℤ sub.memory_limit_kb = ground arith in
      elim (Bool-cases (eqb_ℤ r.exit_code (pos 0))) [
        | inr code ↦
            (runtime_error, (t, fits, inl (λ e. cc (code, (eqb_ℤ_iff r.exit_code (pos 0)).1 e))))
        | inl code ↦ elim (Bool-cases (eqb_ℤ r.signal_num (pos 0))) [
          | inr signal ↦ (
            runtime_error,
            (t, fits, inr (λ e. cc (signal, (eqb_ℤ_iff r.signal_num (pos 0)).1 e))),
          )
          | inl signal ↦
              let code_is = (eqb_ℤ_iff r.exit_code (pos 0)).0 code in
              let signal_is = (eqb_ℤ_iff r.signal_num (pos 0)).0 signal in
              elim (Bool-cases (compare_output tc.expected_output r.stdout_output)) [
                | inl same ↦ (
                  accepted,
                  (
                    t,
                    fits,
                    code_is,
                    signal_is,
                    (compare_output_iff tc.expected_output r.stdout_output).0 same,
                  ),
                )
                | inr differ ↦ (
                  wrong_answer,
                  (
                    t,
                    fits,
                    code_is,
                    signal_is,
                    λ h. cc (differ, same_output tc.expected_output r.stdout_output h),
                  ),
                )
              ]
        ]
      ]
]

-- Every run deserves a status.
pub Verdict-total :
    (sub : SubmissionMessage) (tc : TestCase) (r : SandboxResult)
    → (st : JudgeStatus) × Verdict sub tc r st
Verdict-total sub tc r = elim (Bool-cases r.timed_out) [
  | inl late ↦ (time_limit_exceeded, inl late)
  | inr early ↦ elim (Bool-cases (bytes_eq r.status (bytes "TO"))) [
    | inl late ↦ (time_limit_exceeded, inr ((bytes_eq_iff r.status (bytes "TO")).0 late))
    | inr other ↦
        InTime-Verdict sub tc r (early, λ e. cc (other, (bytes_eq_iff r.status (bytes "TO")).1 e))
  ]
]

pub accepted_or_not : (st : JudgeStatus) → (st ≡ accepted) ⊎ (st ≢ accepted)
accepted_or_not accepted = inl refl
accepted_or_not pending = inr (λ e. cc)
accepted_or_not _ = inr (λ e. cc)

-- The checks either end the call or go on with the loop.
pub check_run-cases :
    {W : Type 0} (sub : SubmissionMessage) (box_id : ℤ) (g : Progress) (tc : TestCase)
    (r : SandboxResult) (next : Progress → M (JudgeState W) JudgeResultInternal)
    → ((out : JudgeResultInternal) × (check_run sub box_id g tc r next ≡ finish box_id out))
      ⊎ ((g' : Progress) × (check_run sub box_id g tc r next ≡ next g'))
check_run-cases sub box_id g tc r next =
    let (st, v) = Verdict-total sub tc r in
    elim (accepted_or_not st) [
      | inl e ↦ inr (_, check_run-accepted sub box_id g tc r next (subst (Verdict sub tc r) e v))
      | inr ne ↦ inl (_, check_run_stops sub box_id g tc r next st ne v)
    ]
