-- ===== src/Platform/Scripted.antt =====
-- A platform to try the model of src/judge/sandbox.cpp on: files in a list, and system calls that
-- follow a script. An entry of the script is the return value and the files that the call writes.
use flowstudy_judge.Common.{
  Bytes, bytes_eq, true, ℤ, pos, max_ℤ, List, [], ◌∷◌, ◌++◌, Option, none, some, if◌then◌else◌,
  stoi, to_string_ℤ, ◌*◌, ◌/◌, pos_part,
}
use flowstudy_judge.Platform.{Platform, created}

abbrev pub Files : Type 0
Files = List (Bytes × Bytes)

pub record Machine : Type 0 where
  pub files : Files
  pub script : List (ℤ × Files)
  -- the command lines so far, the last first
  pub commands : List Bytes

abbrev lookup : Bytes → Files → Option Bytes
lookup path [] = none
lookup path ((k, v) ∷ fs) = if bytes_eq k path then some v else lookup path fs

-- A call past the end of the script fails.
abbrev run_script : Machine → List (ℤ × Files) → ℤ × Machine
run_script m [] = (pos 1, m)
run_script m ((ret, fs) ∷ rest) = (ret, record m { files = fs ++ m.files; script = rest })

-- Numbers of type `double` are whole here.
abbrev pub scripted : Platform
scripted = record {
  World = Machine;
  system = λ cmd m. run_script (record m { commands = cmd ∷ m.commands }) m.script;
  mkdir = λ path m. (created, m);
  write = λ path content m. (true, record m { files = (path, content) ∷ m.files });
  chmod = λ path m. m;
  read = λ path m. lookup path m.files;
  Double = ℤ;
  of_int = λ n. n;
  times = λ a b. pos (pos_part a * pos_part b);
  over = λ a b. pos (pos_part a / pos_part b);
  larger = max_ℤ;
  truncate = λ d. d;
  stod = stoi;
  show = to_string_ℤ;
}

abbrev pub machine : List (ℤ × Files) → Machine
machine script = record { files = []; script = script; commands = [] }
