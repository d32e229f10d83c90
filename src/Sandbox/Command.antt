-- ===== src/Sandbox/Command.antt =====
-- `Sandbox::init`, `cleanup`, `write_file`, `read_file` and `execute` of src/judge/sandbox.cpp: the
-- command lines and what is run.
pub mod Line
pub mod Executed
pub mod Reported
use flowstudy_judge.Common.{
  Bytes, bytes, bytes_eq, Bool, true, false, not, ◌&&◌, ◌||◌, pos, negsuc, eqb_ℤ, List, [], ◌∷◌,
  ◌++◌, none, some, if◌then◌else◌, to_string_ℤ, M, done, return, call, ◌>>=◌, ◌>>◌,
}
use flowstudy_judge.Platform.{Platform}
use flowstudy_judge.Sandbox.{Sandbox, SandboxResult, failed_result}
use flowstudy_judge.Sandbox.Meta.{parse_meta}

-- The loop over the arguments, with `meta_added` and the text of `cmd` so far.
abbrev pub append_args : Bytes → Bool → Bytes → List Bytes → Bytes
append_args meta_path meta_added cmd [] =
    if not meta_added then cmd ++ (bytes " --meta=" ++ meta_path) else cmd
append_args meta_path meta_added cmd (a ∷ args) =
    let add = not meta_added && bytes_eq a (bytes "--run") in
    let cmd' = if add then cmd ++ (bytes " --meta=" ++ meta_path) else cmd in
    append_args meta_path (meta_added || add) (cmd' ++ (bytes " " ++ a)) args

-- The command line that `execute` builds.
unfoldable pub command_line : Sandbox → List Bytes → Bytes → Bytes
unfolding bytes_eq
command_line sb args meta_filename =
    append_args (sb.box_path ++ meta_filename) false sb.isolate_bin args

module _ (p : Platform) where
  unfoldable pub init : Sandbox → M p.World Bool
  init sb = do
    ret ← call (p.system (sb.isolate_bin ++ (bytes " --init --box-id=" ++ to_string_ℤ sb.box_id)))
    if not (eqb_ℤ ret (pos 0)) then return false else (call (p.mkdir sb.box_path) >> return true)

  unfoldable pub cleanup : Sandbox → M p.World Bool
  cleanup sb = do
    ret ←
        call (p.system (sb.isolate_bin ++ (bytes " --cleanup --box-id=" ++ to_string_ℤ sb.box_id)))
    return (eqb_ℤ ret (pos 0))

  unfoldable pub write_file : Sandbox → Bytes → Bytes → M p.World Bool
  write_file sb filename content = do
    is_open ← call (p.write (sb.box_path ++ filename) content)
    if not is_open then return false else (λ w. done true (p.chmod (sb.box_path ++ filename) w))

  unfoldable pub read_file : Sandbox → Bytes → M p.World Bytes
  read_file sb filename w = elim (p.read (sb.box_path ++ filename) w) [
    | none ↦ done [] w
    | some content ↦ done content w
  ]

  unfoldable pub execute : Sandbox → List Bytes → Bytes → M p.World SandboxResult
  unfolding command_line parse_meta read_file
  execute sb args meta_filename = do
    ret ← call (p.system (command_line sb args meta_filename))
    if eqb_ℤ ret (negsuc 0)
        then return (failed_result (bytes "Failed to execute isolate binary"))
        else do
          result ← parse_meta p (sb.box_path ++ meta_filename)
          stdout_output ← read_file sb (bytes "output.txt")
          stderr_output ← read_file sb (bytes "error.txt")
          return (record result { stdout_output = stdout_output; stderr_output = stderr_output })
