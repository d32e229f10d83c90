-- ===== src/Sandbox/Compile/Built.antt =====
-- What `Sandbox::compile` of src/judge/sandbox.cpp returns for a source that its compiler accepts.
use flowstudy_judge.Common.{
  Bytes, bytes, is_empty, true, false, ◌≡◌, ◌∙◌, ℤ, pos, negsuc, eqb_ℤ, List, [], foldl, All, ◌++◌,
  some, done, return, ◌∷◌, >>=-done, if◌then◌else◌, Bool-cases, inl, inr,
}
use flowstudy_judge.Sandbox.Compile.Plan.{plan_of, Made, with_dirs, compile-plan}
use flowstudy_judge.Platform.{Platform}
use flowstudy_judge.Sandbox.{Sandbox, SandboxResult, fresh_result}
use flowstudy_judge.Sandbox.Language.{normalize_language}
use flowstudy_judge.Sandbox.Meta.Fields.{text_or}
use flowstudy_judge.Sandbox.Meta.RoundTrip.{Entry, IsEntry, print_meta, told}
use flowstudy_judge.Sandbox.Command.{command_line, write_file, read_file, execute}
use flowstudy_judge.Sandbox.Command.Reported.{execute-reported, write_file-true, read_file-text_or}
use flowstudy_judge.Sandbox.Compile.{compile, compile_source, mkdir_failed}

module _ (p : Platform) where
  module _ (sb : Sandbox) (dirs : List Bytes) (source_file : Bytes) (args : List Bytes)
      (source_code : Bytes) where
    abbrev with_source : p.World → p.World
    with_source w =
        p.chmod (sb.box_path ++ source_file) (p.write (sb.box_path ++ source_file) source_code w).1

    abbrev call_compiler : p.World → ℤ × p.World
    call_compiler w = p.system (command_line sb args (bytes "compile_meta.txt")) w

    -- The compiler accepts this source and leaves a world that is `Ready`. `Fresh` says of a world
    -- that the box can be used.
    pub record Compiler (Ready : p.World → Type 0) : Type 1 where
      pub Fresh : p.World → Type 0
      -- The directories can be made.
      pub makes_dirs :
          All
            (λ dir.
              (w : p.World)
              → Fresh w
              → (mkdir_failed (p.mkdir dir w).0 ≡ false) × Fresh (p.mkdir dir w).1)
            dirs
      -- The source can be written and is read back.
      pub takes_source :
          (w : p.World)
          → Fresh w
          → ((p.write (sb.box_path ++ source_file) source_code w).0 ≡ true)
            × Fresh (with_source w)
            × (p.read (sb.box_path ++ source_file) (with_source w) ≡ some source_code)
      -- Isolate can be run, and reports that the compiler has exited with 0.
      pub builds :
          (w : p.World)
          → Fresh w
          → p.read (sb.box_path ++ source_file) w ≡ some source_code
          → (eqb_ℤ (call_compiler w).0 (negsuc 0) ≡ false)
            × Ready (call_compiler w).1
            × ((es : List (Entry p)) × All (IsEntry p) es
                × ((foldl (told p) fresh_result es).exit_code ≡ pos 0)
                × (p.read (sb.box_path ++ bytes "compile_meta.txt") (call_compiler w).1
                    ≡ some (print_meta p es)))

    -- The texts of the compiler, read again where there are none.
    with_errors : SandboxResult → p.World → Bytes
    with_errors r w =
        if is_empty r.stderr_output
        then text_or [] (p.read (sb.box_path ++ bytes "error.txt") w)
        else r.stderr_output

    errors_read :
        (r : SandboxResult) (w : p.World)
        → (if is_empty r.stderr_output
              then read_file p sb (bytes "error.txt")
              else return r.stderr_output)
            w
          ≡ done (with_errors r w) w
    unfolding with_errors
    errors_read r w = elim (Bool-cases (is_empty r.stderr_output)) [
      | inl e ↦ simp e (read_file-text_or p sb (bytes "error.txt") w)
      | inr e ↦ simp e
    ]

    compile_source-execute :
        (w w' : p.World) (r : SandboxResult)
        → (p.write (sb.box_path ++ source_file) source_code w).0 ≡ true
        → execute p sb args (bytes "compile_meta.txt") (with_source w) ≡ done r w'
        → compile_source p sb source_file args source_code w
          ≡ done (record r { stderr_output = with_errors r w' }, sb) w'
    unfolding compile_source
    compile_source-execute w w' r written executed =
        >>=-done (write_file p sb source_file source_code) _ w
          (write_file-true p sb source_file source_code w written)
        ∙ >>=-done (execute p sb args (bytes "compile_meta.txt")) _ (with_source w) executed
        ∙ >>=-done
            (if is_empty r.stderr_output
              then read_file p sb (bytes "error.txt")
              else return r.stderr_output)
            _ w' (errors_read r w')

    pub compile_source-Built :
        (Ready : p.World → Type 0) (compiler : Compiler Ready) (w : p.World)
        → compiler.Fresh w
        → (r : SandboxResult) × (w' : p.World) × (compile_source p sb source_file args source_code w
            ≡ done (r, sb) w')
          × (r.exit_code ≡ pos 0)
          × Ready w'
    compile_source-Built Ready compiler w fresh =
        let (written, still, back) = compiler.takes_source w fresh in
        let (ran, ready, (es, valid, code, meta)) = compiler.builds (with_source w) still back in
        let ends =
          execute-reported p sb args (bytes "compile_meta.txt") es (with_source w) ran valid meta in
        (_, _, compile_source-execute w _ _ written ends, code, ready)

  -- The directories of the plan, made in a box that can be used.
  made :
      (Fresh : p.World → Type 0) (dirs : List Bytes)
      → All
          (λ dir.
            (w : p.World)
            → Fresh w
            → (mkdir_failed (p.mkdir dir w).0 ≡ false) × Fresh (p.mkdir dir w).1)
          dirs
      → (w : p.World) → Fresh w
      → Made p dirs w × Fresh (with_dirs p dirs w)
  made Fresh [] h w fresh = (tt, fresh)
  made Fresh (dir ∷ dirs) h w fresh =
      let (ok, still) = h.0 w fresh in
      let (rest, last) = made Fresh dirs h.1 (p.mkdir dir w).1 still in ((ok, rest), last)

  pub compile-Built :
      (sb sb' : Sandbox) (language source_code : Bytes) (dirs : List Bytes) (source_file : Bytes)
      (args : List Bytes) (Ready : p.World → Type 0)
      (compiler : Compiler sb' dirs source_file args source_code Ready) (w : p.World)
      → plan_of sb (normalize_language language) source_code ≡ some (sb', dirs, source_file, args)
      → compiler.Fresh w
      → (r : SandboxResult) × (w' : p.World) × (compile p sb language source_code w
          ≡ done (r, sb') w')
        × (r.exit_code ≡ pos 0)
        × Ready w'
  compile-Built sb sb' language source_code dirs source_file args Ready compiler w plan fresh =
      let (there, still) = made compiler.Fresh dirs compiler.makes_dirs w fresh in
      let (r, w', ends, code, ready) =
        compile_source-Built sb' dirs source_file args source_code Ready compiler
          (with_dirs p dirs w) still in
      (
        r,
        w',
        compile-plan p sb language source_code (sb', dirs, source_file, args) plan w there ∙ ends,
        code,
        ready,
      )
