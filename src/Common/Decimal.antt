-- ===== src/Common/Decimal.antt =====
-- `std::to_string` and `std::stoi` together, and the range of an `int`.
use Prim.Native.Nat.{ℕ, zero, suc, ◌+◌, ◌-◌, ◌*◌, ◌/◌, ◌%◌, ◌^◌, ◌<◌}
use mathlib.Core.Path.{◌≡◌, refl, ap, ◌∙◌}
use mathlib.Core.Logic.{inl, inr}
use mathlib.Core.Bool.{Bool, true, false}
use mathlib.Core.List.{[], ◌∷◌}
use mathlib.Core.Option.{Option, none, some, get_or}
use native.Mathlib.Omega.{arith}
use flowstudy_judge.Common.Tests.{if-elim, Option-cases, ◌==◌, ltb, and_then, Bool-cases}
use flowstudy_judge.Common.Int.{ℤ, pos, negsuc}
use flowstudy_judge.Common.Text.{
  skip_space, Bytes, is_digit, is_space, digit_is_digit, all_of, digits_fuel, to_string_ℕ,
  to_string_ℤ, to_string_ℕ-is_digit,
}
use flowstudy_judge.Common.Stoi.{after_space, read_digits, in_int, signed, stoi}

-- The numbers that an `int` holds.
abbrev pub IsInt : ℤ → Type 0
IsInt (pos n) = n < 2 ^ 31
IsInt (negsuc n) = n < 2 ^ 31

read_digits-digit :
    (o : Option ℕ) (n : ℕ) (s : Bytes)
    → read_digits o ((b'0' + n % 10) ∷ s) ≡ read_digits (some (get_or o 0 * 10 + n % 10)) s
read_digits-digit o n s =
    let yes : is_digit (b'0' + n % 10) ≡ true = digit_is_digit n in
    let back : b'0' + n % 10 - b'0' ≡ n % 10 = omega arith in rw (yes, back) refl

read_digits-digits_fuel :
    (f n : ℕ) (acc : Bytes)
    → n < f
    → read_digits none (digits_fuel f n acc) ≡ read_digits (some n) acc
read_digits-digits_fuel zero n acc h = absurd (omega arith)
read_digits-digits_fuel (suc f) n acc h = elim (Bool-cases (ltb n 10)) [
  | inl small ↦
      let same : 0 * 10 + n % 10 ≡ n = ground arith in
      rw small (read_digits-digit none n acc ∙ ap (λ x. read_digits (some x) acc) same)
  | inr large ↦
      let below : n / 10 < f = ground arith in
      let same : n / 10 * 10 + n % 10 ≡ n = omega arith in
      rw large (
        read_digits-digits_fuel f (n / 10) ((b'0' + n % 10) ∷ acc) below
        ∙ read_digits-digit (some (n / 10)) n acc
        ∙ ap (λ x. read_digits (some x) acc) same)
]

read_digits-to_string_ℕ : (n : ℕ) → read_digits none (to_string_ℕ n) ≡ some n
unfolding to_string_ℕ
read_digits-to_string_ℕ n = read_digits-digits_fuel (suc n) n [] (omega arith)

-- A text of digits with a value is read past no space and no sign.
stoi-digits :
    (s : Bytes) (n : ℕ)
    → all_of is_digit s ≡ true
    → read_digits none s ≡ some n
    → n < 2 ^ 31
    → stoi s ≡ some (pos n)
unfolding stoi
stoi-digits [] n h e b = absurd cc
stoi-digits (c ∷ s) n h e b =
    let here : is_digit c ≡ true = ground arith in
    let no_space : is_space c ≡ false = ground arith in
    let no_minus : c == b'-' ≡ false = ground arith in
    let no_plus : c == b'+' ≡ false = ground arith in
    let fits : ltb n (2 ^ 31) ≡ true = ground arith in simp (no_space, no_minus, no_plus, e, fits)

pub stoi-to_string_ℤ : (n : ℤ) → IsInt n → stoi (to_string_ℤ n) ≡ some n
unfolding to_string_ℤ stoi
stoi-to_string_ℤ (pos n) h =
    stoi-digits (to_string_ℕ n) n (to_string_ℕ-is_digit n) (read_digits-to_string_ℕ n) h
stoi-to_string_ℤ (negsuc n) h =
    let fits : ltb n (2 ^ 31) ≡ true = ground arith in
    ap (λ o. and_then o (in_int true)) (read_digits-to_string_ℕ (suc n)) ∙ simp fits

in_int-IsInt : (neg : Bool) (m : ℕ) (n : ℤ) → in_int neg m ≡ some n → IsInt n
in_int-IsInt false m n h = ground arith
in_int-IsInt true zero n h = ground arith
in_int-IsInt true (suc m) n h = ground arith

signed-IsInt : (neg : Bool) (s : Bytes) (n : ℤ) → signed neg s ≡ some n → IsInt n
signed-IsInt neg s n h = elim (Option-cases (read_digits none s)) [
  | inl e ↦ absurd (cc (rw e at h))
  | inr (m, e) ↦ in_int-IsInt neg m n (rw e at h)
]

after_space-IsInt : (s : Bytes) (n : ℤ) → after_space s ≡ some n → IsInt n
after_space-IsInt [] n h = absurd cc
after_space-IsInt (c ∷ s) n h =
    let Fits = λ (o : Option ℤ). o ≡ some n → IsInt n in
    if-elim Fits (c == b'-') (signed-IsInt true s n)
      (if-elim Fits (c == b'+') (signed-IsInt false s n) (signed-IsInt false (c ∷ s) n)) h

-- A number that `std::stoi` returns fits an `int`.
pub stoi-IsInt : (s : Bytes) (n : ℤ) → stoi s ≡ some n → IsInt n
unfolding stoi
stoi-IsInt s n h = after_space-IsInt (skip_space s) n h
