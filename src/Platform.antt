-- ===== src/Platform.antt =====
-- What the sandbox wrapper of src/judge/sandbox.cpp calls of the operating system, and `double`.
-- The world is whatever the calls read and change; they are parameters of the model.
pub mod Scripted
use flowstudy_judge.Common.{Bytes, Bool, ℤ, Option}

-- `mkdir(path, 0755)`: it returns 0, or fails with `errno == EEXIST`, or fails otherwise.
pub data Mkdir : Type 0 where
  created exists failed : Mkdir

pub record Platform : Type 1 where
  pub World : Type 0
  -- `std::system`, with its return value
  pub system : Bytes → World → ℤ × World
  pub mkdir : Bytes → World → Mkdir × World
  -- opening a `std::ofstream` (the result is `is_open()`), writing the content and closing it
  pub write : Bytes → Bytes → World → Bool × World
  -- `chmod(path, 0644)`; the program ignores its result
  pub chmod : Bytes → World → World
  -- the content of a file that opens for reading
  pub read : Bytes → World → Option Bytes
  pub Double : Type 0
  pub of_int : ℤ → Double
  pub times : Double → Double → Double
  pub over : Double → Double → Double
  pub larger : Double → Double → Double
  -- `static_cast<int>`
  pub truncate : Double → ℤ
  -- `std::stod`; `none` is an exception
  pub stod : Bytes → Option Double
  -- `std::to_string(double)`
  pub show : Double → Bytes
