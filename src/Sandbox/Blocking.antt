-- ===== src/Sandbox/Blocking.antt =====
-- The calls of src/judge/sandbox.cpp that `judge` makes: none of them blocks.
use flowstudy_judge.Common.{Bytes, bytes, List, ◌++◌, ℤ, ◌≢◌, hung, arith}
use flowstudy_judge.Platform.{Platform}
use flowstudy_judge.Sandbox.{Sandbox}
use flowstudy_judge.Sandbox.Language.{java_class_name}
use flowstudy_judge.Sandbox.Meta.{parse_meta}
use flowstudy_judge.Sandbox.Command.{write_file, read_file, execute}
use flowstudy_judge.Sandbox.Compile.{
  cpp_args, java_args, python_args, compile_source, compile_go, compile,
}
use flowstudy_judge.Sandbox.Run.{run}

module _ (p : Platform) where
  parse_meta-ne-hung : (path : Bytes) (w t : p.World) → parse_meta p path w ≢ hung t
  unfolding parse_meta
  parse_meta-ne-hung path w t = ground arith

  read_file-ne-hung : (sb : Sandbox) (name : Bytes) (w t : p.World) → read_file p sb name w ≢ hung t
  unfolding read_file
  read_file-ne-hung sb name w t = ground arith

  write_file-ne-hung :
      (sb : Sandbox) (name content : Bytes) (w t : p.World)
      → write_file p sb name content w ≢ hung t
  unfolding write_file
  write_file-ne-hung sb name content w t = ground arith

  execute-ne-hung :
      (sb : Sandbox) (args : List Bytes) (meta : Bytes) (w t : p.World)
      → execute p sb args meta w ≢ hung t
  unfolding execute
  execute-ne-hung sb args meta w t = grind (arith, parse_meta-ne-hung, read_file-ne-hung)

  compile_source-ne-hung :
      (sb : Sandbox) (file : Bytes) (args : List Bytes) (code : Bytes) (w t : p.World)
      → compile_source p sb file args code w ≢ hung t
  unfolding compile_source
  compile_source-ne-hung sb file args code w t =
      grind (arith, write_file-ne-hung, execute-ne-hung, read_file-ne-hung)

  compile_go-ne-hung :
      (sb : Sandbox) (code : Bytes) (w t : p.World) → compile_go p sb code w ≢ hung t
  unfolding compile_go
  compile_go-ne-hung sb code w t = grind (arith, compile_source-ne-hung)

  pub compile-ne-hung :
      (sb : Sandbox) (language code : Bytes) (w t : p.World) → compile p sb language code w ≢ hung t
  unfolding compile
  compile-ne-hung sb language code w t =
      let class_name = java_class_name code in
      let file = class_name ++ bytes ".java" in
      ground (
        arith,
        compile_source-ne-hung sb (bytes "solution.cpp") (cpp_args sb) code w t,
        compile_source-ne-hung (record sb { java_main_class = class_name }) file (java_args sb file)
            code w t,
        compile_source-ne-hung sb (bytes "solution.py") (python_args sb) code w t,
        compile_go-ne-hung sb code w t,
      )

  pub run-ne-hung :
      (sb : Sandbox) (language : Bytes) (time_limit_ms memory_limit_kb : ℤ) (stdin_input : Bytes)
      (w t : p.World)
      → run p sb language time_limit_ms memory_limit_kb stdin_input w ≢ hung t
  unfolding run
  run-ne-hung sb language time_limit_ms memory_limit_kb stdin_input w t =
      grind (arith, write_file-ne-hung, execute-ne-hung)
