-- ===== src/Sandbox/Run.antt =====
-- `Sandbox::run` of src/judge/sandbox.cpp.
pub mod Limits
pub mod Program
pub mod Bounds
use flowstudy_judge.Common.{
  Bytes, bytes, bytes_eq, not, ◌||◌, ℤ, pos, max_ℤ, List, [], ◌∷◌, ◌++◌, Option, none, some,
  if◌then◌else◌, to_string_ℤ, M, return, ◌>>=◌,
}
use flowstudy_judge.Platform.{Platform}
use flowstudy_judge.Sandbox.{Sandbox, SandboxResult, failed_result}
use flowstudy_judge.Sandbox.Language.{normalize_language}
use flowstudy_judge.Sandbox.Command.{write_file, execute}
use flowstudy_judge.Sandbox.Compile.{box_option}

abbrev pub java_command : Sandbox → List Bytes
java_command sb =
    bytes "/usr/bin/java"
    ∷ bytes "-Xms16m"
    ∷ bytes "-Xmx128m"
    ∷ bytes "-Xss256k"
    ∷ bytes "-Xint"
    ∷ bytes "-XX:+UseSerialGC"
    ∷ bytes "-XX:ActiveProcessorCount=1"
    ∷ bytes "-XX:-UseCompressedOops"
    ∷ bytes "-XX:-UseCompressedClassPointers"
    ∷ bytes "-XX:ReservedCodeCacheSize=32m"
    ∷ bytes "-XX:MaxMetaspaceSize=128m"
    ∷ bytes "-cp"
    ∷ bytes "."
    ∷ sb.java_main_class
    ∷ []

-- The command for a normalised language; `none` where it is not supported.
unfoldable pub run_command : Sandbox → Bytes → Option (List Bytes)
unfolding bytes_eq
run_command sb normalized =
    if bytes_eq normalized (bytes "cpp") || bytes_eq normalized (bytes "go")
    then some (bytes "./solution" ∷ [])
    else if bytes_eq normalized (bytes "java")
    then some (java_command sb)
    else if bytes_eq normalized (bytes "python")
    then some (bytes "/usr/bin/python3" ∷ bytes "solution.py" ∷ [])
    else none

abbrev pub java_dirs : List Bytes
java_dirs =
    bytes "--dir=/etc/alternatives"
    ∷ bytes "--dir=/etc/java-17-openjdk"
    ∷ bytes "--dir=/usr/lib/jvm"
    ∷ []

-- `args`: the three options for Java are inserted at position 3, and the command at the end.
unfoldable pub run_args : Sandbox → Bytes → ℤ → Bytes → List Bytes → List Bytes
unfolding bytes_eq
run_args sb normalized memory_limit_kb wall_time command =
    let is_java = bytes_eq normalized (bytes "java") in
    let process_limit =
      if bytes_eq normalized (bytes "cpp")
      then bytes "1"
      else if is_java
      then bytes "256"
      else bytes "64" in
    let isolate_memory_kb =
      if is_java then max_ℤ memory_limit_kb (pos 2097152) else memory_limit_kb in
    box_option sb
    ∷ bytes "--env=PATH=/usr/local/go/bin:/usr/bin:/bin"
    ∷ (bytes "--processes=" ++ process_limit)
    ∷ ((if is_java then java_dirs else [])
        ++ ((bytes "--mem=" ++ to_string_ℤ isolate_memory_kb)
            ∷ (bytes "--wall-time=" ++ wall_time)
            ∷ bytes "--stdin=input.txt"
            ∷ bytes "--stdout=output.txt"
            ∷ bytes "--stderr=error.txt"
            ∷ bytes "--run"
            ∷ bytes "--"
            ∷ command))

module _ (p : Platform) where
  -- `std::max(5.0, time_limit_ms / 1000.0 * 2.0)`
  unfoldable pub wall_time : ℤ → p.Double
  wall_time time_limit_ms =
      p.larger (p.of_int (pos 5))
        (p.times (p.over (p.of_int time_limit_ms) (p.of_int (pos 1000))) (p.of_int (pos 2)))

  unfoldable pub run : Sandbox → Bytes → ℤ → ℤ → Bytes → M p.World SandboxResult
  unfolding write_file normalize_language wall_time
  run sb language time_limit_ms memory_limit_kb stdin_input = do
    written ← write_file p sb (bytes "input.txt") stdin_input
    if not written
        then return (failed_result (bytes "Failed to write input file"))
        else (let normalized = normalize_language language in
            elim (run_command sb normalized) [
              | none ↦ return (failed_result (bytes "Unsupported language: " ++ language))
              | some command ↦ (do
                result ←
                    execute p sb
                      (run_args sb normalized memory_limit_kb (p.show (wall_time time_limit_ms))
                        command)
                      (bytes "run_meta.txt")
                return (record result { timed_out = bytes_eq result.status (bytes "TO") }))
            ])
