-- ===== src/Sandbox/Command/Reported.antt =====
-- What `Sandbox::execute` of src/judge/sandbox.cpp returns when isolate has left its report.
use flowstudy_judge.Common.{
  Bytes, bytes, true, false, ◌≡◌, refl, ◌∙◌, negsuc, eqb_ℤ, List, [], Option-cases, inl, inr, foldl,
  All, ◌++◌, some, done, >>=-done,
}
use flowstudy_judge.Platform.{Platform}
use flowstudy_judge.Sandbox.{Sandbox, SandboxResult, fresh_result}
use flowstudy_judge.Sandbox.Meta.{parse_meta}
use flowstudy_judge.Sandbox.Meta.Fields.{text_or}
use flowstudy_judge.Sandbox.Meta.RoundTrip.{Entry, IsEntry, print_meta, told, parse_meta-print_meta}
use flowstudy_judge.Sandbox.Command.{command_line, write_file, read_file, execute}

module _ (p : Platform) (sb : Sandbox) where
  pub read_file-text_or :
      (filename : Bytes) (w : p.World)
      → read_file p sb filename w ≡ done (text_or [] (p.read (sb.box_path ++ filename) w)) w
  unfolding read_file
  read_file-text_or filename w = elim (Option-cases (p.read (sb.box_path ++ filename) w)) [
    | inl e ↦ rw (e, read_file) refl
    | inr (text, e) ↦ rw (e, read_file) refl
  ]

  -- What a report says, with the texts that the program has left.
  abbrev pub reported : List (Entry p) → p.World → SandboxResult
  reported es w = record (foldl (told p) fresh_result es) {
    stdout_output = text_or [] (p.read (sb.box_path ++ bytes "output.txt") w);
    stderr_output = text_or [] (p.read (sb.box_path ++ bytes "error.txt") w);
  }

  pub execute-reported :
      (args : List Bytes) (meta_filename : Bytes) (es : List (Entry p)) (w : p.World)
      → eqb_ℤ (p.system (command_line sb args meta_filename) w).0 (negsuc 0) ≡ false
      → All (IsEntry p) es
      → p.read (sb.box_path ++ meta_filename) (p.system (command_line sb args meta_filename) w).1
        ≡ some (print_meta p es)
      → execute p sb args meta_filename w
        ≡ done
            (reported es (p.system (command_line sb args meta_filename) w).1)
            (p.system (command_line sb args meta_filename) w).1
  unfolding execute
  execute-reported args meta_filename es w ran valid meta =
      let w₁ = (p.system (command_line sb args meta_filename) w).1 in
      let parsed = parse_meta-print_meta p (sb.box_path ++ meta_filename) es w₁ valid meta in
      simp ran (
        >>=-done (parse_meta p (sb.box_path ++ meta_filename)) _ w₁ parsed
        ∙ >>=-done (read_file p sb (bytes "output.txt")) _ w₁
            (read_file-text_or (bytes "output.txt") w₁)
        ∙ >>=-done (read_file p sb (bytes "error.txt")) _ w₁
            (read_file-text_or (bytes "error.txt") w₁))

  -- A file that can be written is written.
  pub write_file-true :
      (filename content : Bytes) (w : p.World)
      → (p.write (sb.box_path ++ filename) content w).0 ≡ true
      → write_file p sb filename content w
        ≡ done true
            (p.chmod (sb.box_path ++ filename) (p.write (sb.box_path ++ filename) content w).1)
  unfolding write_file
  write_file-true filename content w e = simp e
