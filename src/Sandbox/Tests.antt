-- ===== src/Sandbox/Tests.antt =====
-- Instances for src/judge/sandbox.cpp on a scripted machine.
use flowstudy_judge.Common.{
  Bytes, bytes, bytes_eq, stoi, to_string_ℤ, true, pos, ◌≡◌, ◌≢◌, refl, ◌↔◌, List, foldl, arith, [],
  ◌∷◌, ◌++◌, Outcome, done, threw, getlines,
}
use flowstudy_judge.Platform.Scripted.{Machine, scripted}
use flowstudy_judge.Sandbox.{Sandbox, SandboxResult, fresh_result}
use flowstudy_judge.Sandbox.Language.{java_class_name}
use flowstudy_judge.Sandbox.Meta.{meta_key, parse_meta}
use flowstudy_judge.Sandbox.Meta.Fields.{FieldsOf, text_or, parse_meta-FieldsOf}
use flowstudy_judge.Sandbox.Meta.RoundTrip.{
  Entry, cpu_time, exit_code, exit_status, peak_cgroup, unknown, print_meta, told,
  parse_meta-print_meta,
}
use flowstudy_judge.Sandbox.Meta.Bounds.{FitsInt}
use flowstudy_judge.Sandbox.Run.Bounds.{run-FitsInt}
use flowstudy_judge.Sandbox.Meta.Errors.{HasUnreadable, parse_meta-threw_iff}
use flowstudy_judge.Sandbox.Command.{command_line, execute}
use flowstudy_judge.Sandbox.Command.Executed.{executed, execute-FieldsOf}
use flowstudy_judge.Sandbox.Command.Line.{args_text, command_line_lem}
use flowstudy_judge.Sandbox.Compile.{cpp_args, java_args, python_args, go_args}
use flowstudy_judge.Sandbox.Run.{run, run_command, run_args}
use flowstudy_judge.Sandbox.Shell.{IsPlainLine, compile_lines-IsPlain, run_line-IsPlain}

class_names :
    (java_class_name (bytes "public class  Solution { }") ≡ bytes "Solution")
    × (java_class_name (bytes "class A { }") ≡ bytes "Main")
unfolding java_class_name
class_names = (refl, refl)

-- A compiler that was killed for its time: no exit code is written.
abbrev killed : Bytes
killed = bytes "time:30\nstatus:TO\nkilled:1\n"

abbrev box : Sandbox
box = record {
  box_id = pos 1;
  isolate_bin = bytes "isolate";
  box_path = bytes "/box/";
  java_main_class = bytes "Main";
}

abbrev disk : Machine
disk = record {
  files = (bytes "killed", killed) ∷ (bytes "bad", bytes "exitcode:x\n") ∷ [];
  script = (pos 0, (bytes "/box/run_meta.txt", killed) ∷ []) ∷ [];
  commands = [];
}

abbrev killed_result : SandboxResult
killed_result = record fresh_result {
  time_used_ms = pos 30000;
  timed_out = true;
  status = bytes "TO";
}

parse_meta-FieldsOf_example : FieldsOf (getlines killed) fresh_result killed_result × (disk ≡ disk)
unfolding parse_meta bytes_eq stoi
parse_meta-FieldsOf_example =
    parse_meta-FieldsOf scripted (bytes "killed") killed disk killed_result disk refl refl

parse_meta-threw_iff_example :
    (parse_meta scripted (bytes "bad") disk ≡ threw disk)
    ↔ HasUnreadable scripted (getlines (bytes "exitcode:x\n"))
unfolding bytes_eq
parse_meta-threw_iff_example =
    parse_meta-threw_iff scripted (bytes "bad") (bytes "exitcode:x\n") disk refl

abbrev report : List (Entry scripted)
report =
    cpu_time (bytes "30") (pos 30)
    ∷ exit_code (pos 11)
    ∷ exit_status (bytes "RE: no")
    ∷ peak_cgroup (pos 512)
    ∷ unknown (bytes "csw-forced") (bytes "3")
    ∷ []

abbrev reported : Machine
reported = record disk { files = (bytes "meta", print_meta scripted report) ∷ [] }

parse_meta-print_meta_example :
    parse_meta scripted (bytes "meta") reported
    ≡ done (foldl (told scripted) fresh_result report) reported
unfolding bytes_eq stoi meta_key
parse_meta-print_meta_example =
    parse_meta-print_meta scripted (bytes "meta") report reported
      ((refl, refl), (omega arith, (refl, (omega arith, ((refl, refl, refl, refl), tt))))) refl

bad_meta_throws : parse_meta scripted (bytes "bad") disk ≡ threw disk
unfolding parse_meta bytes_eq stoi
bad_meta_throws = refl

command_line_lem_example :
    command_line box (bytes "--mem=1" ∷ bytes "--run" ∷ bytes "--run" ∷ []) (bytes "meta.txt")
    ≡ bytes "isolate"
      ++ (args_text (bytes "--mem=1" ∷ [])
          ++ (bytes " --meta="
              ++ bytes "/box/meta.txt"
              ++ args_text (bytes "--run" ∷ bytes "--run" ∷ [])))
command_line_lem_example =
    command_line_lem box (bytes "--mem=1" ∷ []) (bytes "--run" ∷ []) (bytes "meta.txt") (other, tt)
  where
    other : bytes "--mem=1" ≢ bytes "--run"
    other e = cc

abbrev running : Outcome Machine SandboxResult
running = run scripted box (bytes "cpp") (pos 1000) (pos 262144) [] disk

abbrev result_of : Outcome Machine SandboxResult → SandboxResult
result_of (done r w) = r
result_of _ = fresh_result

abbrev world_of : Outcome Machine SandboxResult → Machine
world_of (done r w) = w
world_of _ = disk

run-FitsInt_example : FitsInt (result_of running)
unfolding run execute bytes_eq stoi to_string_ℤ run_command
run-FitsInt_example =
    run-FitsInt scripted box (bytes "cpp") (pos 1000) (pos 262144) [] disk (world_of running)
      (result_of running) refl

abbrev executing : Outcome Machine SandboxResult
executing = execute scripted box (bytes "--run" ∷ []) (bytes "run_meta.txt") disk

execute-FieldsOf_example :
    (world_of executing
      ≡ (executed scripted box (bytes "--run" ∷ []) (bytes "run_meta.txt") disk).1)
    × ((meta : SandboxResult) × FieldsOf (getlines killed) fresh_result meta
        × (result_of executing ≡ record meta {
          stdout_output = text_or [] (scripted.read (bytes "/box/output.txt") (world_of executing));
          stderr_output = text_or [] (scripted.read (bytes "/box/error.txt") (world_of executing));
        }))
unfolding execute bytes_eq stoi
execute-FieldsOf_example =
    execute-FieldsOf scripted box (bytes "--run" ∷ []) (bytes "run_meta.txt") killed disk
      (world_of executing) (result_of executing) refl refl refl

compile_lines-IsPlain_example :
    IsPlainLine box (cpp_args box) (bytes "compile_meta.txt")
    × IsPlainLine box
        (java_args box (java_class_name (bytes "public class ;rm") ++ bytes ".java"))
        (bytes "compile_meta.txt")
    × IsPlainLine box (python_args box) (bytes "compile_meta.txt")
    × IsPlainLine box (go_args box) (bytes "compile_meta.txt")
compile_lines-IsPlain_example = compile_lines-IsPlain box refl refl (bytes "public class ;rm")

run_line-IsPlain_example :
    IsPlainLine box
      (run_args box
        (bytes "python")
        (pos 262144)
        (bytes "5.000000")
        (bytes "/usr/bin/python3" ∷ bytes "solution.py" ∷ []))
      (bytes "run_meta.txt")
unfolding run_command bytes_eq
run_line-IsPlain_example =
    run_line-IsPlain box refl refl (bytes "python") (pos 262144) (bytes "5.000000")
      (bytes "/usr/bin/python3" ∷ bytes "solution.py" ∷ []) refl refl refl
