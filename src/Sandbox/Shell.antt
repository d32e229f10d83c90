-- ===== src/Sandbox/Shell.antt =====
-- What the shell gets to see of a submission: `std::system` hands the command line that
-- `Sandbox::execute` of src/judge/sandbox.cpp builds to a shell.
use flowstudy_judge.Common.{
  ℕ, Bytes, bytes, bytes_eq, Bool, true, false, not, ◌||◌, ◌&&◌, ◌==◌, ◌≡◌, refl, subst, arith, ℤ,
  pos, negsuc, List, [], ◌∷◌, ◌++◌, All, Option, none, some, if◌then◌else◌, if-elim, is_alnum,
  is_digit, one_of, all_of, all_of-append, to_string_ℤ, to_string_ℕ, to_string_ℕ-is_digit, suc,
  All-append,
}
use flowstudy_judge.Sandbox.{Sandbox}
use flowstudy_judge.Sandbox.Language.{java_class_name, java_class_name-IsWord, IsWordByte}
use flowstudy_judge.Sandbox.Command.{append_args, command_line}
use flowstudy_judge.Sandbox.Compile.{box_option, cpp_args, java_args, python_args, go_args}
use flowstudy_judge.Sandbox.Run.{java_command, run_command, java_dirs, run_args}

-- The bytes that a shell takes as they are.
abbrev pub is_plain : ℕ → Bool
is_plain c = is_alnum c || c == b'_' || one_of c (bytes "-/=.:+ ")

abbrev pub IsPlain : Bytes → Type 0
IsPlain s = all_of is_plain s ≡ true

digits-IsPlain : (s : Bytes) → all_of is_digit s ≡ true → IsPlain s
digits-IsPlain [] h = refl
digits-IsPlain (c ∷ s) h = ground (arith, digits-IsPlain s)

to_string_ℤ-IsPlain : (n : ℤ) → IsPlain (to_string_ℤ n)
unfolding to_string_ℤ
to_string_ℤ-IsPlain (pos n) = digits-IsPlain (to_string_ℕ n) (to_string_ℕ-is_digit n)
to_string_ℤ-IsPlain (negsuc n) = digits-IsPlain (to_string_ℕ (suc n)) (to_string_ℕ-is_digit (suc n))

word-IsPlain : (s : Bytes) → All IsWordByte s → IsPlain s
word-IsPlain [] h = refl
word-IsPlain (c ∷ s) h = ground (arith, word-IsPlain s)

abbrev all_plain : List Bytes → Bool
all_plain [] = true
all_plain (a ∷ args) = all_of is_plain a && all_plain args

all_plain-All : (args : List Bytes) → all_plain args ≡ true → All IsPlain args
all_plain-All [] h = tt
all_plain-All (a ∷ args) h = ground (arith, all_plain-All args)

abbrev rest_of : List Bytes → List Bytes
rest_of [] = []
rest_of (a ∷ args) = args

-- A command that there may be.
abbrev IsPlainCommand : Option (List Bytes) → Type 0
IsPlainCommand none = Unit
IsPlainCommand (some command) = All IsPlain command

append_args-IsPlain :
    (meta_path : Bytes) (added : Bool) (cmd : Bytes) (args : List Bytes)
    → IsPlain meta_path
    → IsPlain cmd
    → All IsPlain args
    → IsPlain (append_args meta_path added cmd args)
append_args-IsPlain meta_path added cmd [] hm hc ha =
    if-elim IsPlain (not added) (all_of-append is_plain cmd (bytes " --meta=" ++ meta_path) hc hm)
      hc
append_args-IsPlain meta_path added cmd (a ∷ args) hm hc ha =
    let add = not added && bytes_eq a (bytes "--run") in
    let cmd' = if add then cmd ++ (bytes " --meta=" ++ meta_path) else cmd in
    let hc' : IsPlain cmd' =
      if-elim IsPlain add (all_of-append is_plain cmd (bytes " --meta=" ++ meta_path) hc hm) hc in
    append_args-IsPlain meta_path (added || add) (cmd' ++ (bytes " " ++ a)) args hm
      (all_of-append is_plain cmd' (bytes " " ++ a) hc' ha.0) ha.1

module _ (sb : Sandbox) where
  -- The command line that runs with these arguments is plain.
  abbrev pub IsPlainLine : List Bytes → Bytes → Type 0
  IsPlainLine args meta_filename = IsPlain (command_line sb args meta_filename)

  box_option-IsPlain : IsPlain (box_option sb)
  box_option-IsPlain = to_string_ℤ-IsPlain sb.box_id

  module _ (bin : IsPlain sb.isolate_bin) (path : IsPlain sb.box_path) where
    line-IsPlain :
        (args : List Bytes) (meta_filename : Bytes)
        → IsPlain meta_filename
        → All IsPlain args
        → IsPlainLine args meta_filename
    unfolding command_line
    line-IsPlain args meta_filename hm ha =
        append_args-IsPlain (sb.box_path ++ meta_filename) false sb.isolate_bin args
          (all_of-append is_plain sb.box_path meta_filename path hm) bin ha

    -- If the configured path of isolate and the path of the box have only bytes that a shell takes
    -- as they are, then so have the command lines of the compilers, whatever the submitted source
    -- holds: also with the name of the Java class that is taken from it.
    pub compile_lines-IsPlain :
        (source_code : Bytes)
        → IsPlainLine (cpp_args sb) (bytes "compile_meta.txt")
          × IsPlainLine
              (java_args sb (java_class_name source_code ++ bytes ".java"))
              (bytes "compile_meta.txt")
          × IsPlainLine (python_args sb) (bytes "compile_meta.txt")
          × IsPlainLine (go_args sb) (bytes "compile_meta.txt")
    compile_lines-IsPlain source_code =
        let source_file = java_class_name source_code ++ bytes ".java" in
        let named =
          word-IsPlain (java_class_name source_code) (java_class_name-IsWord source_code).1 in
        let file =
          all_of-append is_plain (java_class_name source_code) (bytes ".java") named refl in
        (
          by_compiler (cpp_args sb)
              (box_option-IsPlain, all_plain-All (rest_of (cpp_args sb)) refl),
          by_compiler (java_args sb source_file) (
            box_option-IsPlain,
            all_plain-All (rest_of (java_args sb source_file)) (rw file refl),
          ),
          by_compiler (python_args sb)
              (box_option-IsPlain, all_plain-All (rest_of (python_args sb)) refl),
          by_compiler (go_args sb) (box_option-IsPlain, all_plain-All (rest_of (go_args sb)) refl),
        )
      where
        by_compiler :
            (args : List Bytes) → All IsPlain args → IsPlainLine args (bytes "compile_meta.txt")
        by_compiler args h = line-IsPlain args (bytes "compile_meta.txt") refl h

    run_command-IsPlainCommand :
        (normalized : Bytes)
        → IsPlain sb.java_main_class
        → IsPlainCommand (run_command sb normalized)
    unfolding run_command
    run_command-IsPlainCommand normalized main =
        if-elim IsPlainCommand
          (bytes_eq normalized (bytes "cpp") || bytes_eq normalized (bytes "go")) (refl, tt)
          (if-elim IsPlainCommand (bytes_eq normalized (bytes "java"))
            (all_plain-All (java_command sb) (rw main refl))
            (if-elim IsPlainCommand (bytes_eq normalized (bytes "python")) (refl, (refl, tt)) tt))

    -- If the configured path of isolate, the path of the box, the name of the Java class and the text
    -- of the wall time have only bytes that a shell takes as they are, then so has the command line
    -- that runs the program, in every language that there is a command for and whatever the memory
    -- limit is.
    pub run_line-IsPlain :
        (normalized : Bytes) (memory_limit_kb : ℤ) (wall : Bytes) (command : List Bytes)
        → IsPlain sb.java_main_class
        → IsPlain wall
        → run_command sb normalized ≡ some command
        → IsPlainLine (run_args sb normalized memory_limit_kb wall command) (bytes "run_meta.txt")
    unfolding run_args
    run_line-IsPlain normalized memory_limit_kb wall command main wall_plain e =
        let is_java = bytes_eq normalized (bytes "java") in
        let command_plain = subst IsPlainCommand e (run_command-IsPlainCommand normalized main) in
        let processes =
          if-elim IsPlain (bytes_eq normalized (bytes "cpp")) refl
            (if-elim IsPlain is_java refl refl) in
        let dirs = if-elim (All IsPlain) is_java (all_plain-All java_dirs refl) tt in
        line-IsPlain (run_args sb normalized memory_limit_kb wall command) (bytes "run_meta.txt")
          refl
          (
            box_option-IsPlain,
            (
              refl,
              (
                processes,
                All-append IsPlain (if is_java then java_dirs else []) _ dirs (
                  to_string_ℤ-IsPlain _,
                  (wall_plain, (refl, (refl, (refl, (refl, (refl, command_plain)))))),
                ),
              ),
            ),
          )
