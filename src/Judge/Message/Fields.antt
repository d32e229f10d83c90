-- ===== src/Judge/Message/Fields.antt =====
-- The messages that `JudgeEngine::parse_message` of src/judge/judge_engine.cpp accepts, field by
-- field.
use flowstudy_judge.Common.{
  ℕ, suc, Bytes, bytes, pos, to_int32, ◌+ℤ◌, ◌≡◌, ◌↔◌, refl, arith, List, [], ◌∷◌, Option, none,
  some, and_then, Option-cases, inl, inr, true, false, Bool-cases,
}
use flowstudy_judge.Json.{JsonLib}
use flowstudy_judge.Judge.Data.{TestCase, SubmissionMessage}
use flowstudy_judge.Judge.Message.{
  optional_id, parse_testcase, parse_testcases, parse_submission, parse_message,
}

-- The two steps succeed, with this result.
and_then-eq-some {ℓ κ} :
    {A : Type ℓ} {B : Type κ} (o : Option A) (f : A → Option B) {b : B}
    → and_then o f ≡ some b
    → (a : A) × (o ≡ some a) × (f a ≡ some b)
and_then-eq-some none f h = cc
and_then-eq-some (some a) f h = (a, refl, h)

module _ (l : JsonLib) where
  -- The id under this key: 0 where the key is absent or has the value null.
  pub data IdOf (j : l.Json) (key : Bytes) (n : ℕ) : Type 0 where
    absent : l.contains j key ≡ false → n ≡ 0 → IdOf j key n
    null :
        (v : l.Json)
        → l.contains j key ≡ true
        → l.at j key ≡ some v
        → l.is_null v ≡ true
        → n ≡ 0
        → IdOf j key n
    present :
        (v : l.Json)
        → l.contains j key ≡ true
        → l.at j key ≡ some v
        → l.is_null v ≡ false
        → l.get_uint64 v ≡ some n
        → IdOf j key n

  optional_id-IdOf :
      (j : l.Json) (key : Bytes) (n : ℕ) → (optional_id l j key ≡ some n) ↔ IdOf j key n
  unfolding optional_id
  optional_id-IdOf j key n = (
    λ h. elim (Bool-cases (l.contains j key)) [
      | inr out ↦ absent out (ground arith)
      | inl there ↦ elim (Option-cases (l.at j key)) [
        | inl e ↦ absurd (ground arith)
        | inr (v, e) ↦ elim (Bool-cases (l.is_null v)) [
          | inl is_null ↦ null v there e is_null (ground arith)
          | inr other ↦ present v there e other (ground arith)
        ]
      ]
    ],
    elim [
      | absent out e ↦ ground arith
      | null v there at is_null e ↦ ground arith
      | present v there at other e ↦ ground arith
    ],
  )

  -- The test case with `n` others before it.
  pub record TestCaseOf (n : ℕ) (j : l.Json) (t : TestCase) : Type 0 where
    pub id_is : IdOf j (bytes "testcase_id") t.testcase_id
    pub index_is : l.value_int j (bytes "case_index") (to_int32 n +ℤ pos 1) ≡ some t.case_index
    pub input_is : and_then (l.at j (bytes "input")) l.get_string ≡ some t.input
    pub expected_is :
        and_then (l.at j (bytes "expected_output")) l.get_string ≡ some t.expected_output

  -- The test cases stand for the elements one by one, in the same order.
  abbrev pub TestCasesOf : ℕ → List l.Json → List TestCase → Type 0
  TestCasesOf n [] [] = Unit
  TestCasesOf n (j ∷ js) (t ∷ ts) = TestCaseOf n j t × TestCasesOf (suc n) js ts
  TestCasesOf n _ _ = ⊥

  pub record MessageOf (j : l.Json) (m : SubmissionMessage) : Type 0 where
    pub task_type_is : l.value_string j (bytes "task_type") (bytes "SUBMISSION") ≡ some m.task_type
    pub run_id_is : IdOf j (bytes "run_id") m.run_id
    pub submission_id_is : IdOf j (bytes "submission_id") m.submission_id
    pub problem_id_is : and_then (l.at j (bytes "problem_id")) l.get_uint64 ≡ some m.problem_id
    pub language_is : l.value_string j (bytes "language") (bytes "cpp") ≡ some m.language
    pub submit_mode_is :
        l.value_string j (bytes "submit_mode") (bytes "FULL_PROGRAM") ≡ some m.submit_mode
    pub code_is : and_then (l.at j (bytes "code")) l.get_string ≡ some m.code
    pub time_limit_is : l.value_int j (bytes "time_limit") (pos 1000) ≡ some m.time_limit_ms
    pub memory_limit_is : l.value_int j (bytes "memory_limit") (pos 262144) ≡ some m.memory_limit_kb
    pub testcases_are :
        (cases : l.Json) × (l.at j (bytes "testcases") ≡ some cases)
        × TestCasesOf 0 (l.elements cases) m.testcases

  parse_testcase-TestCaseOf :
      (n : ℕ) (j : l.Json) (t : TestCase) → (parse_testcase l n j ≡ some t) ↔ TestCaseOf n j t
  unfolding parse_testcase
  parse_testcase-TestCaseOf n j t =
      let id = optional_id-IdOf j (bytes "testcase_id") t.testcase_id in
      (
        λ h. record {
          id_is = id.0 (ground arith);
          index_is = ground arith;
          input_is = ground arith;
          expected_is = ground arith;
        },
        λ o.
            let id_is = id.1 o.id_is in
            let index_is = o.index_is in
            let input_is = o.input_is in let expected_is = o.expected_is in ground arith,
      )

  parse_testcases-TestCasesOf :
      (n : ℕ) (js : List l.Json) (ts : List TestCase)
      → (parse_testcases l n js ≡ some ts) ↔ TestCasesOf n js ts
  unfolding parse_testcases
  parse_testcases-TestCasesOf n [] [] = ground arith
  parse_testcases-TestCasesOf n [] (t ∷ ts) = ground arith
  parse_testcases-TestCasesOf n (j ∷ js) [] = ground arith
  parse_testcases-TestCasesOf n (j ∷ js) (t ∷ ts) =
      let one = parse_testcase-TestCaseOf n j t in
      let others = parse_testcases-TestCasesOf (suc n) js ts in
      (
        λ h.
            let both : (parse_testcase l n j ≡ some t) × (parse_testcases l (suc n) js ≡ some ts) =
              (ground arith, ground arith) in
            (one.0 both.0, others.0 both.1),
        λ (first, rest). let e = one.1 first in let e' = others.1 rest in simp (e, e'),
      )

  parse_submission-MessageOf :
      (j : l.Json) (m : SubmissionMessage) → parse_submission l j ≡ some m → MessageOf j m
  unfolding parse_submission
  parse_submission-MessageOf j m h = elim (Option-cases (l.at j (bytes "testcases"))) [
    | inl e ↦ absurd (ground arith)
    | inr (cases, e) ↦ elim (Option-cases (parse_testcases l 0 (l.elements cases))) [
      | inl e' ↦ absurd (ground arith)
      | inr (ts, e') ↦ record {
        task_type_is = ground arith;
        run_id_is = (optional_id-IdOf j (bytes "run_id") m.run_id).0 (ground arith);
        submission_id_is =
            (optional_id-IdOf j (bytes "submission_id") m.submission_id).0 (ground arith);
        problem_id_is = ground arith;
        language_is = ground arith;
        submit_mode_is = ground arith;
        code_is = ground arith;
        time_limit_is = ground arith;
        memory_limit_is = ground arith;
        testcases_are = (
          cases,
          e,
          (parse_testcases-TestCasesOf 0 (l.elements cases) m.testcases).0 (ground arith),
        );
      }
    ]
  ]

  MessageOf-parse_submission :
      (j : l.Json) (m : SubmissionMessage) → MessageOf j m → parse_submission l j ≡ some m
  unfolding parse_submission
  MessageOf-parse_submission j m o =
      let (cases, e, of) = o.testcases_are in
      let run = (optional_id-IdOf j (bytes "run_id") m.run_id).1 o.run_id_is in
      let submission =
        (optional_id-IdOf j (bytes "submission_id") m.submission_id).1 o.submission_id_is in
      let ts = (parse_testcases-TestCasesOf 0 (l.elements cases) m.testcases).1 of in ground arith

  -- `parse_message` returns a message exactly if the text is JSON with the fields of the message:
  -- the ids are 0 where they are absent or null, `problem_id`, `code` and `testcases` are required,
  -- the other fields have their defaults, and the test cases stand in their order, with the
  -- position from 1 as the default index. In every other case it returns no message.
  pub parse_message_iff :
      (json_str : Bytes) (m : SubmissionMessage)
      → (parse_message l json_str ≡ some m)
        ↔ ((j : l.Json) × (l.parse json_str ≡ some j) × MessageOf j m)
  unfolding parse_message
  parse_message_iff json_str m = (
    λ h.
        let (j, e, parsed) = and_then-eq-some (l.parse json_str) (parse_submission l) h in
        (j, e, parse_submission-MessageOf j m parsed),
    λ x. rw x.1 (MessageOf-parse_submission x.0 m x.2),
  )
