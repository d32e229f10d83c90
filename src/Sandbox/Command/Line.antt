-- ===== src/Sandbox/Command/Line.antt =====
-- The command line that `Sandbox::execute` of src/judge/sandbox.cpp builds, as one text.
use flowstudy_judge.Common.{
  Bytes, bytes, bytes_eq, bytes_eq_iff, true, false, ◌≡◌, ◌≢◌, ap, List, [], ◌∷◌, ◌++◌, All,
  append_assoc, append-nil, Bool-cases, inl, inr, ◌∙◌,
}
use flowstudy_judge.Sandbox.{Sandbox}
use flowstudy_judge.Sandbox.Command.{append_args, command_line}

-- The arguments, each behind a blank.
abbrev pub args_text : List Bytes → Bytes
args_text [] = []
args_text (a ∷ args) = (bytes " " ++ a) ++ args_text args

abbrev pub IsOption : Bytes → Type 0
IsOption a = a ≢ bytes "--run"

option_test : (a : Bytes) → IsOption a → bytes_eq a (bytes "--run") ≡ false
option_test a h = elim (Bool-cases (bytes_eq a (bytes "--run"))) [
  | inl e ↦ absurd (h ((bytes_eq_iff a (bytes "--run")).0 e))
  | inr e ↦ e
]

module _ (meta_path : Bytes) where
  append_args-added :
      (cmd : Bytes) (args : List Bytes)
      → append_args meta_path true cmd args ≡ cmd ++ args_text args
  append_args-added cmd [] = simp append-nil
  append_args-added cmd (a ∷ args) =
      append_args-added (cmd ++ (bytes " " ++ a)) args
      ∙ append_assoc cmd (bytes " " ++ a) (args_text args)

  append_args-option :
      (cmd a : Bytes) (args : List Bytes)
      → bytes_eq a (bytes "--run") ≡ false
      → append_args meta_path false cmd (a ∷ args)
        ≡ append_args meta_path false (cmd ++ (bytes " " ++ a)) args
  append_args-option cmd a args e = rw (e, append_args)

  append_args-options :
      (cmd : Bytes) (options rest : List Bytes)
      → All IsOption options
      → append_args meta_path false cmd (options ++ rest)
        ≡ append_args meta_path false (cmd ++ args_text options) rest
  append_args-options cmd [] rest h = simp append-nil
  append_args-options cmd (a ∷ options) rest h =
      append_args-option cmd a (options ++ rest) (option_test a h.0)
      ∙ append_args-options (cmd ++ (bytes " " ++ a)) options rest h.1
      ∙ ap (λ c. append_args meta_path false c rest)
          (append_assoc cmd (bytes " " ++ a) (args_text options))

-- The command line holds the `--meta` option once, however often `--run` occurs: right before the
-- first `--run`, with all options in their order before it and the rest in its order behind it.
pub command_line_lem :
    (sb : Sandbox) (options command : List Bytes) (meta_filename : Bytes)
    → All IsOption options
    → command_line sb (options ++ bytes "--run" ∷ command) meta_filename
      ≡ sb.isolate_bin
        ++ (args_text options
            ++ (bytes " --meta="
                ++ (sb.box_path ++ meta_filename)
                ++ args_text (bytes "--run" ∷ command)))
unfolding command_line bytes_eq
command_line_lem sb options command meta_filename h =
    let path = sb.box_path ++ meta_filename in
    append_args-options path sb.isolate_bin options (bytes "--run" ∷ command) h
    ∙ append_args-added path
        (((sb.isolate_bin ++ args_text options) ++ (bytes " --meta=" ++ path))
          ++ (bytes " " ++ bytes "--run"))
        command
    ∙ simp append_assoc
