-- ===== src/Common/Stoi.antt =====
-- `std::stoi` of `<string>`.
use Prim.Native.Nat.{ℕ, zero, suc, ◌+◌, ◌-◌, ◌*◌, ◌^◌}
use mathlib.Core.Path.{◌≡◌, refl}
use mathlib.Core.Bool.{Bool, true, false}
use mathlib.Core.List.{[], ◌∷◌}
use mathlib.Core.Option.{Option, none, some, get_or}
use flowstudy_judge.Common.Tests.{◌==◌, ltb, if◌then◌else◌, and_then}
use flowstudy_judge.Common.Int.{ℤ, pos, negsuc}
use flowstudy_judge.Common.Text.{Bytes, bytes, is_digit, skip_space}

-- The value of the digits in front of `s`; `none` if there is none.
abbrev pub read_digits : Option ℕ → Bytes → Option ℕ
read_digits acc [] = acc
read_digits acc (c ∷ cs) =
    let rest = read_digits (some (get_or acc 0 * 10 + (c - b'0'))) cs in
    if is_digit c then rest else acc

-- The `int` range.
abbrev pub in_int : Bool → ℕ → Option ℤ
in_int false n = if ltb n (2 ^ 31) then some (pos n) else none
in_int true zero = some (pos 0)
in_int true (suc n) = if ltb n (2 ^ 31) then some (negsuc n) else none

abbrev pub signed : Bool → Bytes → Option ℤ
signed neg s = and_then (read_digits none s) (in_int neg)

abbrev pub after_space : Bytes → Option ℤ
after_space [] = none
after_space (c ∷ cs) =
    if c == b'-'
    then signed true cs
    else if c == b'+'
    then signed false cs
    else signed false (c ∷ cs)

-- `std::stoi`; `none` is the exception `invalid_argument` or `out_of_range`.
unfoldable pub stoi : Bytes → Option ℤ
stoi s = after_space (skip_space s)

stoi_tests :
    (stoi (bytes " -12x") ≡ some (negsuc 11))
    × (stoi (bytes "2147483647") ≡ some (pos 2147483647))
    × (stoi (bytes "2147483648") ≡ none)
    × (stoi (bytes "-2147483648") ≡ some (negsuc 2147483647))
    × (stoi (bytes "abc") ≡ none)
unfolding stoi
stoi_tests = (refl, refl, refl, refl, refl)
