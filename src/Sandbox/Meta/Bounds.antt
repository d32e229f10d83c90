-- ===== src/Sandbox/Meta/Bounds.antt =====
-- The range of the numbers that `Sandbox::parse_meta` of src/judge/sandbox.cpp reads.
use flowstudy_judge.Common.{
  Bytes, bytes, ◌≡◌, subst, arith, ℤ, List, [], ◌∷◌, ◌++◌, some, and_then, stoi, Option-cases,
  some-injective, inl, inr, getlines, done, IsInt, stoi-IsInt,
}
use flowstudy_judge.Platform.{Platform}
use flowstudy_judge.Sandbox.{SandboxResult, fresh_result, failed_result}
use flowstudy_judge.Sandbox.Meta.{
  MetaKey, time, time_wall, max_rss, cg_mem, exitcode, status, exitsig, killed, other,
  split_meta_line, set_field, milliseconds, parse_line, parse_lines, parse_meta,
}

-- The three numbers that `std::stoi` reads.
pub record FitsInt (r : SandboxResult) : Type 0 where
  pub code : IsInt r.exit_code
  pub signal : IsInt r.signal_num
  pub memory : IsInt r.memory_used_kb

pub failed-FitsInt : (message : Bytes) → FitsInt (failed_result message)
failed-FitsInt message = record { code = omega arith; signal = omega arith; memory = omega arith }

fresh-FitsInt : FitsInt fresh_result
fresh-FitsInt = record { code = omega arith; signal = omega arith; memory = omega arith }

module _ (p : Platform) where
  -- A field that `std::stoi` reads is set to a number that fits.
  stoi-FitsInt :
      (set : ℤ → SandboxResult) (val : Bytes) (r' : SandboxResult)
      → ((n : ℤ) → IsInt n → FitsInt (set n))
      → and_then (stoi val) (λ n. some (set n)) ≡ some r'
      → FitsInt r'
  stoi-FitsInt set val r' keeps h = elim (Option-cases (stoi val)) [
    | inl e ↦ absurd (cc (rw e at h))
    | inr (n, e) ↦ subst FitsInt (some-injective (rw e at h)) (keeps n (stoi-IsInt val n e))
  ]

  set_field-FitsInt :
      (key : MetaKey) (val : Bytes) (r r' : SandboxResult)
      → FitsInt r
      → set_field p key val r ≡ some r'
      → FitsInt r'
  unfolding set_field milliseconds
  set_field-FitsInt max_rss val r r' f h =
      stoi-FitsInt _ val r' (λ n k. record { code = f.code; signal = f.signal; memory = k }) h
  set_field-FitsInt cg_mem val r r' f h =
      stoi-FitsInt _ val r' (λ n k. record { code = f.code; signal = f.signal; memory = k }) h
  set_field-FitsInt exitcode val r r' f h =
      stoi-FitsInt _ val r' (λ n k. record { code = k; signal = f.signal; memory = f.memory }) h
  set_field-FitsInt exitsig val r r' f h =
      stoi-FitsInt _ val r' (λ n k. record { code = f.code; signal = k; memory = f.memory }) h
  set_field-FitsInt time val r r' f h = ground arith
  set_field-FitsInt time_wall val r r' f h = ground arith
  set_field-FitsInt status val r r' f h = ground arith
  set_field-FitsInt killed val r r' f h = ground arith
  set_field-FitsInt other val r r' f h = ground arith

  parse_line-FitsInt :
      (l : Bytes) (r r' : SandboxResult) → FitsInt r → parse_line p l r ≡ some r' → FitsInt r'
  unfolding parse_line
  parse_line-FitsInt l r r' f h = elim (Option-cases (split_meta_line l)) [
    | inl e ↦ subst FitsInt (some-injective (rw (e, parse_line) at h)) f
    | inr ((key, val), e) ↦ set_field-FitsInt key val r r' f (rw (e, parse_line) at h)
  ]

  parse_lines-FitsInt :
      (ls : List Bytes) (r r' : SandboxResult)
      → FitsInt r
      → parse_lines p ls r ≡ some r'
      → FitsInt r'
  unfolding parse_lines
  parse_lines-FitsInt [] r r' f h = subst FitsInt (some-injective h) f
  parse_lines-FitsInt (l ∷ ls) r r' f h = elim (Option-cases (parse_line p l r)) [
    | inl e ↦ absurd (cc (rw e at h))
    | inr (q, e) ↦ parse_lines-FitsInt ls q r' (parse_line-FitsInt l r q f e) (rw e at h)
  ]

  pub parse_meta-FitsInt :
      (meta_path : Bytes) (w w' : p.World) (r : SandboxResult)
      → parse_meta p meta_path w ≡ done r w'
      → FitsInt r
  unfolding parse_meta
  parse_meta-FitsInt meta_path w w' r h = elim (Option-cases (p.read meta_path w)) [
    | inl e ↦
        let same : failed_result (bytes "Cannot read meta file: " ++ meta_path) ≡ r =
          ground arith in
        subst FitsInt same (failed-FitsInt _)
    | inr (content, e) ↦ elim (Option-cases (parse_lines p (getlines content) fresh_result)) [
      | inl bad ↦ absurd (ground arith)
      | inr (q, good) ↦
          let same : q ≡ r = ground arith in
          subst FitsInt same
            (parse_lines-FitsInt (getlines content) fresh_result q fresh-FitsInt good)
    ]
  ]
