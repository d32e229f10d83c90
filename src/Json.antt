-- ===== src/Json.antt =====
-- What the program calls of nlohmann::json, as a parameter of the model. `none` is an exception of
-- the library, all of which derive from `nlohmann::json::exception`.
pub mod Scripted
use flowstudy_judge.Common.{ℕ, Bytes, Bool, ℤ, List, Option}

pub record JsonLib : Type 1 where
  pub Json : Type 0
  -- `json::parse`
  pub parse : Bytes → Option Json
  -- `j.contains(key)`; false where `j` is no object
  pub contains : Json → Bytes → Bool
  -- `j.at(key)`, and `j[key]` where the key is there
  pub at : Json → Bytes → Option Json
  pub is_null : Json → Bool
  -- the conversions to `uint64_t`, `int` and `std::string`
  pub get_uint64 : Json → Option ℕ
  pub get_int : Json → Option ℤ
  pub get_string : Json → Option Bytes
  -- `j.value(key, default)` at the two types that the program uses
  pub value_string : Json → Bytes → Bytes → Option Bytes
  pub value_int : Json → Bytes → ℤ → Option ℤ
  -- what a range-based `for` over `j` visits
  pub elements : Json → List Json
