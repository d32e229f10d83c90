-- ===== src/Common/Text.antt =====
-- `std::string` as a list of byte values, and the parts of `<string>` that the program calls.
use Prim.Native.Char.{code}
use Prim.Native.String.{String}
use Prim.Native.Nat.{ℕ, zero, suc, ◌+◌, ◌/◌, ◌%◌}
use mathlib.Core.Path.{◌≡◌, refl}
use mathlib.Core.Logic.{◌↔◌}
use mathlib.Core.Bool.{Bool, true, false, ◌&&◌, ◌||◌}
use mathlib.Core.List.{List, [], ◌∷◌, ◌++◌}
use mathlib.Core.Option.{Option, none, some}
use mathlib.Core.Option
use native.Mathlib.Omega.{arith}
use flowstudy_judge.Common.Tests.{◌==◌, leb, ltb, if◌then◌else◌, if-elim}
use flowstudy_judge.Common.Int.{ℤ, pos, negsuc}

abbrev pub Bytes : Type 0
Bytes = List ℕ

-- The bytes of a literal (the program's literals are ASCII).
abbrev pub bytes : String → Bytes
bytes String.[] = []
bytes (String.◌∷◌ c s) = code c ∷ bytes s

-- `operator==` of `std::string`
unfoldable pub bytes_eq : Bytes → Bytes → Bool
bytes_eq [] [] = true
bytes_eq (x ∷ xs) (y ∷ ys) = x == y && bytes_eq xs ys
bytes_eq _ _ = false

pub bytes_eq_iff : (a b : Bytes) → (bytes_eq a b ≡ true) ↔ (a ≡ b)
unfolding bytes_eq
bytes_eq_iff (x ∷ a) (y ∷ b) = ground (arith, bytes_eq_iff a b)
bytes_eq_iff _ _ = ground arith

-- `empty()`
abbrev pub is_empty : Bytes → Bool
is_empty [] = true
is_empty (x ∷ xs) = false

-- What a `std::ostringstream` holds after these texts.
abbrev pub concat : List Bytes → Bytes
concat [] = []
concat (s ∷ ss) = s ++ concat ss

-- Membership of a byte in a set that is given by a string.
abbrev pub one_of : ℕ → Bytes → Bool
one_of c [] = false
one_of c (x ∷ xs) = c == x || one_of c xs

-- The decimal digits of a number, before `acc`; `fuel` above the number is enough.
abbrev pub digits_fuel : ℕ → ℕ → Bytes → Bytes
digits_fuel zero n acc = acc
digits_fuel (suc f) n acc =
    let digit = b'0' + n % 10 in
    let rest = digits_fuel f (n / 10) (digit ∷ acc) in if ltb n 10 then digit ∷ acc else rest

-- `std::to_string` of an unsigned and of a signed integer
unfoldable pub to_string_ℕ : ℕ → Bytes
to_string_ℕ n = digits_fuel (suc n) n []

unfoldable pub to_string_ℤ : ℤ → Bytes
unfolding to_string_ℕ
to_string_ℤ (pos n) = to_string_ℕ n
to_string_ℤ (negsuc n) = b'-' ∷ to_string_ℕ (suc n)

to_string_ℤ_tests :
    (to_string_ℤ (pos 2097152) ≡ bytes "2097152")
    × (to_string_ℤ (negsuc 0) ≡ bytes "-1")
    × (to_string_ℤ (pos 0) ≡ bytes "0")
unfolding to_string_ℤ
to_string_ℤ_tests = (refl, refl, refl)

-- `s.find_last_not_of(set)`; `none` is `npos`.
unfoldable pub find_last_not_of : Bytes → Bytes → Option ℕ
find_last_not_of [] set = none
find_last_not_of (c ∷ cs) set = elim (find_last_not_of cs set) [
  | some i ↦ some (suc i)
  | none ↦ if one_of c set then none else some 0
]

-- What a byte that is no newline does to the lines behind it.
abbrev pub extend_first : ℕ → List Bytes → List Bytes
extend_first c [] = (c ∷ []) ∷ []
extend_first c (l ∷ ls) = (c ∷ l) ∷ ls

-- The lines that `while (std::getline(stream, line))` reads. A last line with no newline is read
-- if it is not empty.
unfoldable pub getlines : Bytes → List Bytes
getlines [] = []
getlines (c ∷ cs) = let rest = getlines cs in if c == b'\n' then [] ∷ rest else extend_first c rest

getlines_test : getlines (bytes "a\n\nb") ≡ bytes "a" ∷ [] ∷ bytes "b" ∷ []
unfolding getlines
getlines_test = refl

-- The classes of `<cctype>` in the "C" locale, which the program never changes.
abbrev pub is_space : ℕ → Bool
is_space c = c == b' ' || leb b'\t' c && leb c 13

abbrev pub is_digit : ℕ → Bool
is_digit c = leb b'0' c && leb c b'9'

abbrev pub is_alnum : ℕ → Bool
is_alnum c = is_digit c || leb b'a' c && leb c b'z' || leb b'A' c && leb c b'Z'

abbrev pub to_lower : ℕ → ℕ
to_lower c = if leb b'A' c && leb c b'Z' then c + 32 else c

-- `s.find(c)` for one character; `none` is `npos`.
unfoldable pub find_char : Bytes → ℕ → Option ℕ
find_char [] c = none
find_char (x ∷ xs) c = if x == c then some 0 else Option.map suc (find_char xs c)

-- The text behind the first place where `marker` stands: `s.find(marker)` and the step past it.
abbrev pub strip_prefix : Bytes → Bytes → Option Bytes
strip_prefix [] s = some s
strip_prefix (m ∷ ms) [] = none
strip_prefix (m ∷ ms) (c ∷ cs) = if m == c then strip_prefix ms cs else none

unfoldable pub find_after : Bytes → Bytes → Option Bytes
find_after marker [] = strip_prefix marker []
find_after marker (c ∷ cs) = elim (strip_prefix marker (c ∷ cs)) [
  | some rest ↦ some rest
  | none ↦ find_after marker cs
]

-- The bytes of `s` from the first that is no space; and the longest front part of alphanumeric
-- bytes and underscores.
abbrev pub skip_space : Bytes → Bytes
skip_space [] = []
skip_space (c ∷ cs) = if is_space c then skip_space cs else c ∷ cs

unfoldable pub take_word : Bytes → Bytes
take_word [] = []
take_word (c ∷ cs) = if is_alnum c || c == b'_' then c ∷ take_word cs else []

abbrev pub all_of : (ℕ → Bool) → Bytes → Bool
all_of test [] = true
all_of test (c ∷ s) = test c && all_of test s

pub all_of-append :
    (test : ℕ → Bool) (s t : Bytes)
    → all_of test s ≡ true
    → all_of test t ≡ true
    → all_of test (s ++ t) ≡ true
all_of-append test [] t h k = k
all_of-append test (c ∷ s) t h k = ground (arith, all_of-append test s t)

pub digit_is_digit : (n : ℕ) → is_digit (b'0' + n % 10) ≡ true
digit_is_digit n = ground arith

digits_fuel-is_digit :
    (f n : ℕ) (acc : Bytes)
    → all_of is_digit acc ≡ true
    → all_of is_digit (digits_fuel f n acc) ≡ true
digits_fuel-is_digit zero n acc h = h
digits_fuel-is_digit (suc f) n acc h =
    let here : all_of is_digit ((b'0' + n % 10) ∷ acc) ≡ true = rw (digit_is_digit n) h in
    let deeper = digits_fuel-is_digit f (n / 10) ((b'0' + n % 10) ∷ acc) here in
    if-elim (λ (s : Bytes). all_of is_digit s ≡ true) (ltb n 10) here deeper

-- A number is written in digits.
pub to_string_ℕ-is_digit : (n : ℕ) → all_of is_digit (to_string_ℕ n) ≡ true
unfolding to_string_ℕ
to_string_ℕ-is_digit n = digits_fuel-is_digit (suc n) n [] refl
