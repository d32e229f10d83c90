-- ===== src/Json/Scripted.antt =====
-- A JSON library to try the models on: a text is looked up in a table of parsed texts.
use flowstudy_judge.Common.{
  Bytes, bytes_eq, Bool, true, false, ℤ, List, [], ◌∷◌, Option, none, some, if◌then◌else◌, and_then,
  pos_part,
}
use flowstudy_judge.Json.{JsonLib}

-- An object is a chain of entries, an array a chain of items.
pub data Json : Type 0 where
  null : Json
  number : ℤ → Json
  text : Bytes → Json
  object_end : Json
  entry : Bytes → Json → Json → Json
  array_end : Json
  item : Json → Json → Json

abbrev find : Bytes → Json → Option Json
find key (entry k v rest) = if bytes_eq k key then some v else find key rest
find key _ = none

abbrev is_some : {A : Type 0} → Option A → Bool
is_some none = false
is_some (some a) = true

abbrev is_null : Json → Bool
is_null null = true
is_null _ = false

abbrev get_int : Json → Option ℤ
get_int (number n) = some n
get_int _ = none

abbrev get_string : Json → Option Bytes
get_string (text s) = some s
get_string _ = none

abbrev value_or : {A : Type 0} → (Json → Option A) → A → Option Json → Option A
value_or get a none = some a
value_or get a (some v) = get v

abbrev items : Json → List Json
items (item v rest) = v ∷ items rest
items _ = []

abbrev lookup : Bytes → List (Bytes × Json) → Option Json
lookup s [] = none
lookup s ((k, j) ∷ rest) = if bytes_eq k s then some j else lookup s rest

abbrev pub scripted_json : List (Bytes × Json) → JsonLib
scripted_json table = record {
  Json = Json;
  parse = λ s. lookup s table;
  contains = λ j key. is_some (find key j);
  at = λ j key. find key j;
  is_null = is_null;
  get_uint64 = λ j. and_then (get_int j) (λ n. some (pos_part n));
  get_int = get_int;
  get_string = get_string;
  value_string = λ j key default. value_or get_string default (find key j);
  value_int = λ j key default. value_or get_int default (find key j);
  elements = items;
}
