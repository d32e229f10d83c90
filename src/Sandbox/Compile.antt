-- ===== src/Sandbox/Compile.antt =====
-- `Sandbox::compile` of src/judge/sandbox.cpp.
pub mod Plan
pub mod Built
use flowstudy_judge.Common.{
  Bytes, bytes, bytes_eq, is_empty, Bool, true, false, not, List, [], ◌∷◌, ◌++◌, if◌then◌else◌,
  to_string_ℤ, M, return, call, ◌>>=◌,
}
use flowstudy_judge.Platform.{Platform, Mkdir, created, exists, failed}
use flowstudy_judge.Sandbox.{Sandbox, SandboxResult, failed_result}
use flowstudy_judge.Sandbox.Language.{normalize_language, java_class_name}
use flowstudy_judge.Sandbox.Command.{write_file, read_file, execute}

abbrev pub box_option : Sandbox → Bytes
box_option sb = bytes "--box-id=" ++ to_string_ℤ sb.box_id

abbrev pub cpp_args : Sandbox → List Bytes
cpp_args sb =
    box_option sb
    ∷ bytes "--env=PATH=/usr/bin:/bin"
    ∷ bytes "--processes=50"
    ∷ bytes "--wall-time=30"
    ∷ bytes "--stderr=error.txt"
    ∷ bytes "--run"
    ∷ bytes "--"
    ∷ bytes "/usr/bin/g++"
    ∷ bytes "-std=c++17"
    ∷ bytes "-O2"
    ∷ bytes "-Wall"
    ∷ bytes "-o"
    ∷ bytes "solution"
    ∷ bytes "solution.cpp"
    ∷ []

abbrev pub java_args : Sandbox → Bytes → List Bytes
java_args sb source_file =
    box_option sb
    ∷ bytes "--env=PATH=/usr/bin:/bin"
    ∷ bytes "--dir=/etc/alternatives"
    ∷ bytes "--dir=/etc/java-17-openjdk"
    ∷ bytes "--dir=/usr/lib/jvm"
    ∷ bytes "--processes=256"
    ∷ bytes "--mem=2097152"
    ∷ bytes "--wall-time=30"
    ∷ bytes "--stderr=error.txt"
    ∷ bytes "--run"
    ∷ bytes "--"
    ∷ bytes "/usr/bin/javac"
    ∷ bytes "-J-Xms16m"
    ∷ bytes "-J-Xmx128m"
    ∷ bytes "-J-Xss256k"
    ∷ bytes "-J-Xint"
    ∷ bytes "-J-XX:+UseSerialGC"
    ∷ bytes "-J-XX:ActiveProcessorCount=1"
    ∷ bytes "-J-XX:-UseCompressedOops"
    ∷ bytes "-J-XX:-UseCompressedClassPointers"
    ∷ bytes "-J-XX:ReservedCodeCacheSize=32m"
    ∷ bytes "-J-XX:MaxMetaspaceSize=128m"
    ∷ source_file
    ∷ []

abbrev pub python_args : Sandbox → List Bytes
python_args sb =
    box_option sb
    ∷ bytes "--env=PATH=/usr/bin:/bin"
    ∷ bytes "--processes=20"
    ∷ bytes "--wall-time=10"
    ∷ bytes "--stderr=error.txt"
    ∷ bytes "--run"
    ∷ bytes "--"
    ∷ bytes "/usr/bin/python3"
    ∷ bytes "-m"
    ∷ bytes "py_compile"
    ∷ bytes "solution.py"
    ∷ []

abbrev pub go_args : Sandbox → List Bytes
go_args sb =
    box_option sb
    ∷ bytes "--env=PATH=/usr/local/go/bin:/usr/bin:/bin"
    ∷ bytes "--env=GOCACHE=/tmp/go-cache"
    ∷ bytes "--processes=50"
    ∷ bytes "--wall-time=30"
    ∷ bytes "--stderr=error.txt"
    ∷ bytes "--run"
    ∷ bytes "--"
    ∷ bytes "/usr/bin/env"
    ∷ bytes "go"
    ∷ bytes "build"
    ∷ bytes "-o"
    ∷ bytes "solution"
    ∷ bytes "main.go"
    ∷ []

-- `mkdir(…) != 0 && errno != EEXIST`
abbrev pub mkdir_failed : Mkdir → Bool
mkdir_failed created = false
mkdir_failed exists = false
mkdir_failed failed = true

module _ (p : Platform) where
  -- What follows the choice by language: the source is written, isolate is run.
  unfoldable pub compile_source :
      Sandbox → Bytes → List Bytes → Bytes → M p.World (SandboxResult × Sandbox)
  unfolding write_file read_file
  compile_source sb source_file args source_code = do
    written ← write_file p sb source_file source_code
    if not written
        then return (failed_result (bytes "Failed to write source file: " ++ source_file), sb)
        else do
          result ← execute p sb args (bytes "compile_meta.txt")
          stderr_output ←
              (if is_empty result.stderr_output
                then read_file p sb (bytes "error.txt")
                else return result.stderr_output)
          return (record result { stderr_output = stderr_output }, sb)

  -- The branch for Go first makes the directories of the build cache.
  unfoldable pub compile_go : Sandbox → Bytes → M p.World (SandboxResult × Sandbox)
  unfolding compile_source
  compile_go sb source_code = do
    tmp ← call (p.mkdir (sb.box_path ++ bytes "tmp"))
    if mkdir_failed tmp
        then return (failed_result (bytes "Failed to create Go temp directory"), sb)
        else do
          cache ← call (p.mkdir (sb.box_path ++ bytes "tmp" ++ bytes "/go-cache"))
          if mkdir_failed cache
              then return (failed_result (bytes "Failed to create Go build cache directory"), sb)
              else compile_source sb (bytes "main.go") (go_args sb) source_code

  -- The result, and the sandbox with its new `java_main_class_`.
  unfoldable pub compile : Sandbox → Bytes → Bytes → M p.World (SandboxResult × Sandbox)
  unfolding compile_source compile_go bytes_eq normalize_language java_class_name
  compile sb language source_code =
      let normalized = normalize_language language in
      if bytes_eq normalized (bytes "cpp")
      then compile_source sb (bytes "solution.cpp") (cpp_args sb) source_code
      else if bytes_eq normalized (bytes "java")
      then (let class_name = java_class_name source_code in
          let source_file = class_name ++ bytes ".java" in
          compile_source (record sb { java_main_class = class_name }) source_file
            (java_args sb source_file) source_code)
      else if bytes_eq normalized (bytes "python")
      then compile_source sb (bytes "solution.py") (python_args sb) source_code
      else if bytes_eq normalized (bytes "go")
      then compile_go sb source_code
      else return (failed_result (bytes "Unsupported language: " ++ language), sb)
