-- ===== src/Sandbox/Run/Limits.antt =====
-- What `Sandbox::run` and `Sandbox::compile` of src/judge/sandbox.cpp return on time-outs and on
-- languages that are not supported.
use flowstudy_judge.Common.{
  Bytes, bytes, bytes_eq, bytes_eq_iff, true, false, ℤ, Bool, subst, ◌>>=◌, ◌≡◌, ◌↔◌, arith, ◌++◌,
  Option, none, some, M, done, return, >>=-eq-done, if◌then◌else◌, List, not,
}
use flowstudy_judge.Platform.{Platform}
use flowstudy_judge.Sandbox.{Sandbox, SandboxResult, failed_result}
use flowstudy_judge.Sandbox.Language.{normalize_language}
use flowstudy_judge.Sandbox.Command.{write_file, execute}
use flowstudy_judge.Sandbox.Compile.{compile}
use flowstudy_judge.Sandbox.Run.{run, run_command, run_args, wall_time}

-- The two marks of a time-out agree.
abbrev pub MarksAgree : SandboxResult → Type 0
MarksAgree r = (r.timed_out ≡ true) ↔ (r.status ≡ bytes "TO")

failed-MarksAgree : (message : Bytes) → MarksAgree (failed_result message)
unfolding bytes_eq
failed-MarksAgree message = bytes_eq_iff (bytes "XX") (bytes "TO")

marked-MarksAgree :
    (r : SandboxResult) → MarksAgree (record r { timed_out = bytes_eq r.status (bytes "TO") })
marked-MarksAgree r = bytes_eq_iff r.status (bytes "TO")

module _ (p : Platform) where
  -- The part of `run` that calls isolate, by the command for the language.
  abbrev run_by : Sandbox → Bytes → ℤ → ℤ → Option (List Bytes) → M p.World SandboxResult
  run_by sb language time_limit_ms memory_limit_kb none =
      return (failed_result (bytes "Unsupported language: " ++ language))
  run_by sb language time_limit_ms memory_limit_kb (some command) =
      ◌>>=◌
        (execute p sb
          (run_args sb (normalize_language language) memory_limit_kb
            (p.show (wall_time p time_limit_ms)) command)
          (bytes "run_meta.txt"))
        λ result. return (record result { timed_out = bytes_eq result.status (bytes "TO") })

  run_by-MarksAgree :
      (sb : Sandbox) (language : Bytes) (time_limit_ms memory_limit_kb : ℤ)
      (command : Option (List Bytes)) (w w' : p.World) (r : SandboxResult)
      → run_by sb language time_limit_ms memory_limit_kb command w ≡ done r w'
      → MarksAgree r
  run_by-MarksAgree sb language time_limit_ms memory_limit_kb none w w' r h =
      let same : failed_result (bytes "Unsupported language: " ++ language) ≡ r = ground arith in
      subst MarksAgree same (failed-MarksAgree (bytes "Unsupported language: " ++ language))
  run_by-MarksAgree sb language time_limit_ms memory_limit_kb (some command) w w' r h =
      let (result, u, _, ends) = >>=-eq-done (execute p sb _ (bytes "run_meta.txt")) _ w h in
      let same : record result { timed_out = bytes_eq result.status (bytes "TO") } ≡ r =
        ground arith in
      subst MarksAgree same (marked-MarksAgree result)

  -- Whatever a call of `run` returns, also if it could not run the program, it says "timed out"
  -- exactly if the status is "TO".
  pub run-MarksAgree :
      (sb : Sandbox) (language : Bytes) (time_limit_ms memory_limit_kb : ℤ) (input : Bytes)
      (w w' : p.World) (r : SandboxResult)
      → run p sb language time_limit_ms memory_limit_kb input w ≡ done r w'
      → MarksAgree r
  unfolding run
  run-MarksAgree sb language time_limit_ms memory_limit_kb input w w' r h =
      let (written, u, _, rest) = >>=-eq-done (write_file p sb (bytes "input.txt") input) _ w h in
      go written u rest
    where
      by_command : Option (List Bytes) → M p.World SandboxResult
      by_command = run_by sb language time_limit_ms memory_limit_kb

      go :
          (written : Bool) (u : p.World)
          → (if not written
                then return (failed_result (bytes "Failed to write input file"))
                else by_command (run_command sb (normalize_language language)))
              u
            ≡ done r w'
          → MarksAgree r
      go false u e =
          let same : failed_result (bytes "Failed to write input file") ≡ r = ground arith in
          subst MarksAgree same (failed-MarksAgree (bytes "Failed to write input file"))
      go true u e =
          run_by-MarksAgree sb language time_limit_ms memory_limit_kb
            (run_command sb (normalize_language language)) u w' r e

  -- A language that `run` has no command for is refused by `compile`: it writes no file and calls
  -- nothing, and its result has the exit code -1 and names the language.
  pub compile_unsupported :
      (sb : Sandbox) (language source_code : Bytes) (w : p.World)
      → run_command sb (normalize_language language) ≡ none
      → compile p sb language source_code w
        ≡ done (failed_result (bytes "Unsupported language: " ++ language), sb) w
  unfolding compile run_command
  compile_unsupported sb language source_code w e = ground arith
