-- ===== src/Sandbox/Run/Bounds.antt =====
-- The range of the numbers in the results of `Sandbox::run` and `Sandbox::execute` of
-- src/judge/sandbox.cpp.
use flowstudy_judge.Common.{
  Bytes, bytes, bytes_eq, Bool, true, false, not, ℤ, negsuc, eqb_ℤ, ◌≡◌, subst, arith, List, ◌++◌,
  Option, none, some, M, done, return, call, ◌>>=◌, >>=-eq-done, if◌then◌else◌,
}
use flowstudy_judge.Platform.{Platform}
use flowstudy_judge.Sandbox.{Sandbox, SandboxResult, failed_result}
use flowstudy_judge.Sandbox.Language.{normalize_language}
use flowstudy_judge.Sandbox.Meta.{parse_meta}
use flowstudy_judge.Sandbox.Meta.Bounds.{FitsInt, failed-FitsInt, parse_meta-FitsInt}
use flowstudy_judge.Sandbox.Command.{command_line, write_file, read_file, execute}
use flowstudy_judge.Sandbox.Run.{run, run_command, run_args, wall_time}

module _ (p : Platform) where
  -- Every result that this call returns fits.
  abbrev AllFit : M p.World SandboxResult → Type 0
  AllFit m = (w w' : p.World) (r : SandboxResult) → m w ≡ done r w' → FitsInt r

  AllFit-failed : (message : Bytes) → AllFit (return (failed_result message))
  AllFit-failed message w w' r h =
      let same : failed_result message ≡ r = ground arith in
      subst FitsInt same (failed-FitsInt message)

  AllFit-return : (q : SandboxResult) → FitsInt q → AllFit (return q)
  AllFit-return q f w w' r h = let same : q ≡ r = ground arith in subst FitsInt same f

  AllFit-if :
      (b : Bool) (m n : M p.World SandboxResult) → AllFit m → AllFit n → AllFit (if b then m else n)
  AllFit-if true m n hm hn = hm
  AllFit-if false m n hm hn = hn

  -- After any call, and after a call with a result that fits.
  AllFit-after :
      {A : Type 0} (m : M p.World A) (f : A → M p.World SandboxResult)
      → ((a : A) → AllFit (f a))
      → AllFit (◌>>=◌ m f)
  AllFit-after m f h w w' r e = let (a, u, _, rest) = >>=-eq-done m f w e in h a u w' r rest

  AllFit-with :
      (m : M p.World SandboxResult) (f : SandboxResult → M p.World SandboxResult)
      → AllFit m
      → ((q : SandboxResult) → FitsInt q → AllFit (f q))
      → AllFit (◌>>=◌ m f)
  AllFit-with m f hm hf w w' r e =
      let (q, u, first, rest) = >>=-eq-done m f w e in hf q (hm w u q first) u w' r rest

  execute-AllFit :
      (sb : Sandbox) (args : List Bytes) (meta_filename : Bytes)
      → AllFit (execute p sb args meta_filename)
  unfolding execute
  execute-AllFit sb args meta_filename =
      AllFit-after (call (p.system (command_line sb args meta_filename))) _ (λ ret.
        AllFit-if (eqb_ℤ ret (negsuc 0)) _ _
          (AllFit-failed (bytes "Failed to execute isolate binary"))
          (AllFit-with (parse_meta p (sb.box_path ++ meta_filename)) _
            (parse_meta-FitsInt p (sb.box_path ++ meta_filename))
            (λ q f. AllFit-after (read_file p sb (bytes "output.txt")) _ (λ out.
              AllFit-after (read_file p sb (bytes "error.txt")) _ (λ err.
                AllFit-return (record q { stdout_output = out; stderr_output = err })
                  (record { code = f.code; signal = f.signal; memory = f.memory }))))))

  marked-AllFit :
      (sb : Sandbox) (args : List Bytes)
      → AllFit (
          ◌>>=◌
            (execute p sb args (bytes "run_meta.txt"))
            λ result. return (record result { timed_out = bytes_eq result.status (bytes "TO") }))
  marked-AllFit sb args =
      AllFit-with (execute p sb args (bytes "run_meta.txt")) _
        (execute-AllFit sb args (bytes "run_meta.txt"))
        (λ q f.
          AllFit-return (record q { timed_out = bytes_eq q.status (bytes "TO") })
            (record { code = f.code; signal = f.signal; memory = f.memory }))

  -- Whatever a call of `run` returns, the exit code, the signal number and the memory fit an `int` of 32
  -- bits, whatever numbers the meta file holds.
  pub run-FitsInt :
      (sb : Sandbox) (language : Bytes) (time_limit_ms memory_limit_kb : ℤ) (input : Bytes)
      (w w' : p.World) (r : SandboxResult)
      → run p sb language time_limit_ms memory_limit_kb input w ≡ done r w'
      → FitsInt r
  unfolding run
  run-FitsInt sb language time_limit_ms memory_limit_kb input =
      AllFit-after (write_file p sb (bytes "input.txt") input) _ (λ written.
        AllFit-if (not written) _ _ (AllFit-failed (bytes "Failed to write input file"))
          (by_command (run_command sb (normalize_language language))))
    where
      by_command :
          (o : Option (List Bytes))
          → AllFit (elim o as (λ _. M p.World SandboxResult) [
            | none ↦ return (failed_result (bytes "Unsupported language: " ++ language))
            | some command ↦
                ◌>>=◌
                  (execute p sb
                    (run_args sb
                      (normalize_language language)
                      memory_limit_kb
                      (p.show (wall_time p time_limit_ms))
                      command)
                    (bytes "run_meta.txt"))
                  λ result.
                    return (record result { timed_out = bytes_eq result.status (bytes "TO") })
          ])
      by_command none = AllFit-failed (bytes "Unsupported language: " ++ language)
      by_command (some command) = marked-AllFit sb _
