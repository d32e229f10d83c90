-- ===== src/Judge/Engine/Echo.antt =====
-- An instance for a whole call of `judge`, src/judge/judge_engine.cpp: a program that prints its input.
use flowstudy_judge.Common.{
  foldl, Bytes, bytes, bytes_eq, true, false, ℤ, pos, negsuc, eqb_ℤ, max_ℤ, ◌≡◌, refl, sym, subst,
  arith, List, [], ◌∷◌, All, Option, none, some, stoi, to_string_ℤ, if◌then◌else◌,
}
use flowstudy_judge.Platform.{Platform, created}
use flowstudy_judge.Sandbox.{new_sandbox, fresh_result}
use flowstudy_judge.Sandbox.Compile.{cpp_args}
use flowstudy_judge.Sandbox.Compile.Built.{Compiler}
use flowstudy_judge.Sandbox.Language.{normalize_language}
use flowstudy_judge.Sandbox.Run.{run_command}
use flowstudy_judge.Sandbox.Run.Program.{Program, ReportsSuccess}
use flowstudy_judge.Sandbox.Meta.RoundTrip.{IsEntry, told, Entry, exit_code, print_meta}
use flowstudy_judge.Judge.Data.{SubmissionMessage}
use flowstudy_judge.Judge.Engine.{judge}
use flowstudy_judge.Judge.Engine.Solved.{Judged}
use flowstudy_judge.Judge.Engine.Built.{judge-Built}
use flowstudy_judge.Judge.Engine.Tests.{isolate, submission, in_box, box, case_of}

abbrev Disk : Type 0
Disk = List (Bytes × Bytes)

abbrev find : Bytes → Disk → Option Bytes
find path [] = none
find path ((k, v) ∷ files) = if bytes_eq k path then some v else find path files

-- The compiler leaves its meta file; the program, which has an input, prints it.
abbrev respond : Option Bytes → Disk → ℤ × Disk
respond none files = (pos 0, (in_box (bytes "compile_meta.txt"), bytes "exitcode:0\n") ∷ files)
respond (some s) files = (
  pos 0,
  (in_box (bytes "output.txt"), s) ∷ (in_box (bytes "run_meta.txt"), bytes "exitcode:0\n") ∷ files,
)

abbrev echoing : Platform
echoing = record {
  World = Disk;
  system = λ cmd files. respond (find (in_box (bytes "input.txt")) files) files;
  mkdir = λ path files. (created, files);
  write = λ path content files. (true, (path, content) ∷ files);
  chmod = λ path files. files;
  read = find;
  Double = ℤ;
  of_int = λ n. n;
  times = λ a b. a;
  over = λ a b. a;
  larger = max_ℤ;
  truncate = λ d. d;
  stod = stoi;
  show = to_string_ℤ;
}

-- The second test case expects something else.
abbrev echo : SubmissionMessage
echo = record submission {
  testcases =
      case_of 11 (pos 1) (bytes "1 2") (bytes "1 2 \n")
      ∷ case_of 12 (pos 2) (bytes "5 7") (bytes "12")
      ∷ [];
}

abbrev command : List Bytes
command = bytes "./solution" ∷ []

abbrev Compiled : Disk → Type 0
Compiled files = find (in_box (bytes "compile_meta.txt")) files ≡ some (bytes "exitcode:0\n")

-- What the program leaves for this answer of `find`.
abbrev Answers : Bytes → Disk → Option Bytes → Type 0
Answers s files o =
    (eqb_ℤ (respond o files).0 (negsuc 0) ≡ false)
    × Compiled (respond o files).1
    × (find (in_box (bytes "output.txt")) (respond o files).1 ≡ some s)
    × ((es : List (Entry echoing)) × ReportsSuccess echoing box echo.language echo.time_limit_ms
          echo.memory_limit_kb command es
        × (find (in_box (bytes "run_meta.txt")) (respond o files).1 ≡ some (print_meta echoing es)))

success :
    ReportsSuccess echoing box echo.language echo.time_limit_ms echo.memory_limit_kb command
      (exit_code (pos 0) ∷ [])
success = record {
  entries = (omega arith, tt);
  code = refl;
  signal = refl;
  in_time = λ e. cc;
  fits = omega arith;
}

answers : (s : Bytes) (files : Disk) → Compiled files → Answers s files (some s)
unfolding bytes_eq print_meta to_string_ℤ
answers s files there = (refl, there, refl, (exit_code (pos 0) ∷ [], success, refl))

unfoldable program :
    Program echoing box echo.language echo.time_limit_ms echo.memory_limit_kb command (λ s. s)
unfolding bytes_eq
program = record {
  Ready = Compiled;
  takes_input = λ s w there. (refl, there, refl);
  answers = λ s w there e. subst (Answers s w) (sym e) (answers s w there);
}

-- What the compiler leaves for this answer of `find`.
abbrev Builds : Disk → Option Bytes → Type 0
Builds files o =
    (eqb_ℤ (respond o files).0 (negsuc 0) ≡ false)
    × Compiled (respond o files).1
    × ((es : List (Entry echoing)) × All (IsEntry echoing) es
        × ((foldl (told echoing) fresh_result es).exit_code ≡ pos 0)
        × (find (in_box (bytes "compile_meta.txt")) (respond o files).1
            ≡ some (print_meta echoing es)))

-- The compiler runs while there is no input.
unfoldable compiler :
    Compiler echoing box [] (bytes "solution.cpp") (cpp_args box) echo.code program.Ready
unfolding bytes_eq program print_meta to_string_ℤ
compiler = record {
  Fresh = λ files. find (in_box (bytes "input.txt")) files ≡ none;
  makes_dirs = tt;
  takes_source = λ files fresh. (refl, fresh, refl);
  builds = λ files fresh there.
      subst (Builds files) (sym fresh)
        (refl, refl, (exit_code (pos 0) ∷ [], (omega arith, tt), refl, refl));
}

judge-Built_example :
    Judged echoing echo
      (λ s. s)
      (judge echoing isolate echo
        (record { world = []; pool = record { available = pos 1 ∷ []; boxes = [] } }))
unfolding new_sandbox to_string_ℤ run_command bytes_eq compiler normalize_language
judge-Built_example =
    judge-Built echoing isolate echo (pos 1) [] [] [] box [] (bytes "solution.cpp") (cpp_args box)
      command (λ s. s) program compiler refl refl refl
