-- ===== src/Sandbox/Command/Executed.antt =====
-- What `Sandbox::execute` of src/judge/sandbox.cpp returns, by the files that isolate leaves.
use flowstudy_judge.Common.{
  Bytes, bytes, false, ◌≡◌, sym, ap, ◌∙◌, arith, ℤ, negsuc, eqb_ℤ, List, [], ◌++◌, some,
  Option-cases, inl, inr, M, done, return, ◌>>=◌, >>=-eq-done, getlines,
}
use flowstudy_judge.Platform.{Platform}
use flowstudy_judge.Sandbox.{Sandbox, SandboxResult, fresh_result}
use flowstudy_judge.Sandbox.Meta.{parse_meta}
use flowstudy_judge.Sandbox.Meta.Fields.{FieldsOf, text_or, parse_meta-FieldsOf}
use flowstudy_judge.Sandbox.Command.{command_line, read_file, execute}

module _ (p : Platform) where
  read_file_lem :
      (sb : Sandbox) (filename text : Bytes) (w w' : p.World)
      → read_file p sb filename w ≡ done text w'
      → (text ≡ text_or [] (p.read (sb.box_path ++ filename) w)) × (w' ≡ w)
  unfolding read_file
  read_file_lem sb filename text w w' h = elim (Option-cases (p.read (sb.box_path ++ filename) w)) [
    | inl e ↦ ground arith
    | inr (content, e) ↦ ground arith
  ]

  module _ (sb : Sandbox) (args : List Bytes) (meta_filename : Bytes) where
    -- The outcome and the world of the command line.
    abbrev pub executed : p.World → ℤ × p.World
    executed w = p.system (command_line sb args meta_filename) w

    collect : M p.World SandboxResult
    collect = do
      result ← parse_meta p (sb.box_path ++ meta_filename)
      stdout_output ← read_file p sb (bytes "output.txt")
      stderr_output ← read_file p sb (bytes "error.txt")
      return (record result { stdout_output = stdout_output; stderr_output = stderr_output })

    execute-collect :
        (w : p.World)
        → eqb_ℤ (executed w).0 (negsuc 0) ≡ false
        → execute p sb args meta_filename w ≡ collect (executed w).1
    unfolding execute collect
    execute-collect w e = simp (e, execute)

    -- If the command line could be run and has left a meta file, then what `execute` returns is the
    -- result that the fields of this file describe, with the contents of `output.txt` and
    -- `error.txt`, empty where a file is missing, as its texts; and nothing else is changed.
    pub execute-FieldsOf :
        (content : Bytes) (w w' : p.World) (r : SandboxResult)
        → eqb_ℤ (executed w).0 (negsuc 0) ≡ false
        → p.read (sb.box_path ++ meta_filename) (executed w).1 ≡ some content
        → execute p sb args meta_filename w ≡ done r w'
        → (w' ≡ (executed w).1)
          × ((meta : SandboxResult) × FieldsOf (getlines content) fresh_result meta
              × (r ≡ record meta {
                stdout_output = text_or [] (p.read (sb.box_path ++ bytes "output.txt") w');
                stderr_output = text_or [] (p.read (sb.box_path ++ bytes "error.txt") w');
              }))
    unfolding collect
    execute-FieldsOf content w w' r ran readable h =
        let w₁ = (executed w).1 in
        let (meta, u, parsed, k) =
          >>=-eq-done (parse_meta p (sb.box_path ++ meta_filename)) _ w₁
            (sym (execute-collect w ran) ∙ h) in
        let (out, v, out_read, k') = >>=-eq-done (read_file p sb (bytes "output.txt")) _ u k in
        let (err, x, err_read, k'') = >>=-eq-done (read_file p sb (bytes "error.txt")) _ v k' in
        let (fields, at_u) =
          parse_meta-FieldsOf p (sb.box_path ++ meta_filename) content w₁ meta u readable parsed in
        let (out_is, at_v) = read_file_lem sb (bytes "output.txt") out u v out_read in
        let (err_is, at_x) = read_file_lem sb (bytes "error.txt") err v x err_read in
        let x_w' : x ≡ w' = ground arith in
        let v_w' = sym at_x ∙ x_w' in
        let u_w' = sym at_v ∙ v_w' in
        let built : record meta { stdout_output = out; stderr_output = err } ≡ r = ground arith in
        let out_file =
          out_is ∙ ap (λ y. text_or [] (p.read (sb.box_path ++ bytes "output.txt") y)) u_w' in
        let err_file =
          err_is ∙ ap (λ y. text_or [] (p.read (sb.box_path ++ bytes "error.txt") y)) v_w' in
        (
          sym u_w' ∙ at_u,
          (
            meta,
            fields,
            sym built
                ∙ ap (λ o. record meta { stdout_output = o; stderr_output = err }) out_file
                ∙ ap
                    (λ o. record meta {
                      stdout_output = text_or [] (p.read (sb.box_path ++ bytes "output.txt") w');
                      stderr_output = o;
                    })
                    err_file,
          ),
        )
