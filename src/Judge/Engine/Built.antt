-- ===== src/Judge/Engine/Built.antt =====
-- A call of `JudgeEngine::judge` of src/judge/judge_engine.cpp on a submission that compiles, from what
-- isolate, the compiler and the files are described to do.
use flowstudy_judge.Common.{Bytes, ℤ, ◌≡◌, List, ◌∷◌, some}
use flowstudy_judge.Config.{IsolateConfig}
use flowstudy_judge.Platform.{Platform}
use flowstudy_judge.Sandbox.{Sandbox, new_sandbox}
use flowstudy_judge.Sandbox.Language.{normalize_language}
use flowstudy_judge.Sandbox.Compile.Plan.{plan_of}
use flowstudy_judge.Sandbox.Compile.Built.{Compiler, compile-Built}
use flowstudy_judge.Sandbox.Run.{run_command}
use flowstudy_judge.Sandbox.Run.Program.{Program}
use flowstudy_judge.Judge.Data.{SubmissionMessage}
use flowstudy_judge.Judge.Engine.{judge}
use flowstudy_judge.Judge.Engine.Solved.{Judged, judge-Solved}

-- Suppose that a box is free, that the language is supported, that the submitted source, once it and the
-- directories of the plan are in the box, is accepted by the compiler, which leaves a program there, and that
-- isolate runs this program so that it prints `f s` on the input `s` and exits within the limits. Then `judge`
-- returns; the submission is accepted exactly if `f` is right on every test case, up to blanks at the ends of
-- lines, and else it is a wrong answer; and each entry of the result shows what `f` says on its own input.
pub judge-Built :
    (p : Platform) (cfg : IsolateConfig) (sub : SubmissionMessage) (box_id : ℤ) (rest : List ℤ)
    (boxes : List Sandbox) (w : p.World) (sb : Sandbox) (dirs : List Bytes) (source_file : Bytes)
    (args command : List Bytes) (f : Bytes → Bytes)
    (prog : Program p sb sub.language sub.time_limit_ms sub.memory_limit_kb command f)
    (compiler : Compiler p sb dirs source_file args sub.code prog.Ready)
    → plan_of (new_sandbox box_id cfg) (normalize_language sub.language) sub.code
      ≡ some (sb, dirs, source_file, args)
    → run_command sb (normalize_language sub.language) ≡ some command
    → compiler.Fresh w
    → Judged p sub f (
        judge p cfg sub
          (record { world = w; pool = record { available = box_id ∷ rest; boxes = boxes } }))
judge-Built p cfg sub box_id rest boxes w sb dirs source_file args command f prog compiler plan
      supported fresh =
    let (c, w₁, compiles, code, ready) =
      compile-Built p (new_sandbox box_id cfg) sb sub.language sub.code dirs source_file args
        prog.Ready compiler w plan fresh in
    judge-Solved p sub sb command f prog supported cfg box_id rest boxes w w₁ c compiles code ready
