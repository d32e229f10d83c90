-- ===== src/Sandbox/Meta/Fields.antt =====
-- What the result of `Sandbox::parse_meta` says of the file, field by field.
use flowstudy_judge.Common.{
  Bytes, some-injective, Bool, true, ◌≡◌, subst, ℤ, List, [], ◌∷◌, Option, none, some, and_then,
  stoi, arith, Option-cases, getlines, done, inl, inr,
}
use flowstudy_judge.Platform.{Platform}
use flowstudy_judge.Sandbox.{SandboxResult, fresh_result}
use flowstudy_judge.Sandbox.Meta.{
  MetaKey, time, split_meta_line, meta_key, set_field, milliseconds, parse_line, parse_lines,
  parse_meta,
}
use flowstudy_judge.Sandbox.Meta.Keys.{
  at_colon, exitcode_of, exitsig_of, status_of, memory_of, killed_of, split_meta_line-at_colon,
  Chosen, meta_key-Chosen, of_exitcode, of_exitsig, of_status, of_memory, of_killed,
}

-- The last value that `choose` finds among the lines.
abbrev pub last_value : (Bytes → Bytes → Option Bytes) → List Bytes → Option Bytes
last_value choose [] = none
last_value choose (l ∷ ls) = elim (last_value choose ls) [
  | some v ↦ some v
  | none ↦ and_then (at_colon l) λ kv. choose kv.0 kv.1
]

-- The number of a field: that of its last value, or `n` if no line has it.
abbrev pub number_or : ℤ → Option Bytes → Option ℤ
number_or n none = some n
number_or n (some v) = stoi v

abbrev pub true_if_some : Bool → Option Bytes → Bool
true_if_some b none = b
true_if_some b (some v) = true

abbrev pub text_or : Bytes → Option Bytes → Bytes
text_or t none = t
text_or t (some v) = v

-- The five fields of `r'` are those of the last lines that have them, and else those of `r`.
pub record FieldsOf (ls : List Bytes) (r r' : SandboxResult) : Type 0 where
  pub code : number_or r.exit_code (last_value exitcode_of ls) ≡ some r'.exit_code
  pub signal : number_or r.signal_num (last_value exitsig_of ls) ≡ some r'.signal_num
  pub memory : number_or r.memory_used_kb (last_value memory_of ls) ≡ some r'.memory_used_kb
  pub late : r'.timed_out ≡ true_if_some r.timed_out (last_value killed_of ls)
  pub text : r'.status ≡ text_or r.status (last_value status_of ls)

module _ (p : Platform) where
  set_field-FieldsOf :
      (k : MetaKey) (l key val : Bytes) (r r' : SandboxResult)
      → at_colon l ≡ some (key, val)
      → Chosen key val k
      → set_field p k val r ≡ some r'
      → FieldsOf (l ∷ []) r r'
  unfolding set_field milliseconds
  set_field-FieldsOf k l key val r r' e h set =
      let x = h.exitcode_is in
      let y = h.exitsig_is in
      let z = h.status_is in let u = h.memory_is in let v = h.killed_is in split k x y z u v set
    where
      split :
          (k : MetaKey)
          → exitcode_of key val ≡ of_exitcode k val
          → exitsig_of key val ≡ of_exitsig k val
          → status_of key val ≡ of_status k val
          → memory_of key val ≡ of_memory k val
          → killed_of key val ≡ of_killed k val
          → set_field p k val r ≡ some r'
          → FieldsOf (l ∷ []) r r'
      split time x y z u v set = ground arith
      split _ x y z u v set = ground arith

  parse_line-FieldsOf :
      (l : Bytes) (r r' : SandboxResult) → parse_line p l r ≡ some r' → FieldsOf (l ∷ []) r r'
  unfolding parse_line
  parse_line-FieldsOf l r r' h =
      let same = split_meta_line-at_colon l in
      elim (Option-cases (at_colon l)) [
        | inl e ↦
            let no_key : split_meta_line l ≡ none = rw e at same in
            let kept : r ≡ r' = some-injective (rw (no_key, parse_line) at h) in ground arith
        | inr ((key, val), e) ↦
            let keyed : split_meta_line l ≡ some (meta_key key, val) = rw e at same in
            set_field-FieldsOf (meta_key key) l key val r r' e (meta_key-Chosen key val)
              (rw (keyed, parse_line) at h)
      ]

  FieldsOf-cons :
      (l : Bytes) (ls : List Bytes) (r r' r'' : SandboxResult)
      → FieldsOf (l ∷ []) r r'
      → FieldsOf ls r' r''
      → FieldsOf (l ∷ ls) r r''
  FieldsOf-cons l ls r r' r'' f g = ground arith

  parse_lines-FieldsOf :
      (ls : List Bytes) (r r' : SandboxResult) → parse_lines p ls r ≡ some r' → FieldsOf ls r r'
  unfolding parse_lines
  parse_lines-FieldsOf [] r r' h = ground arith
  parse_lines-FieldsOf (l ∷ ls) r r' h = elim (Option-cases (parse_line p l r)) [
    | inl e ↦ absurd (cc (rw e at h))
    | inr (q, e) ↦
        FieldsOf-cons l ls r q r' (parse_line-FieldsOf l r q e)
          (parse_lines-FieldsOf ls q r' (rw e at h))
  ]

  -- If the meta file can be read and `parse_meta` returns, then the exit code, the signal number, the
  -- memory and the status are those of the last lines that have these keys (`max-rss` and `cg-mem`
  -- both stand for the memory), and 0, 0, 0 and the empty text where no line has the key; the run
  -- counts as timed out exactly if some line has the key `killed`; the world is as before.
  pub parse_meta-FieldsOf :
      (meta_path content : Bytes) (w : p.World) (r : SandboxResult) (w' : p.World)
      → p.read meta_path w ≡ some content
      → parse_meta p meta_path w ≡ done r w'
      → FieldsOf (getlines content) fresh_result r × (w' ≡ w)
  unfolding parse_meta
  parse_meta-FieldsOf meta_path content w r w' readable h =
      elim (Option-cases (parse_lines p (getlines content) fresh_result)) [
        | inl e ↦ absurd (ground arith)
        | inr (q, e) ↦
            let same : (q ≡ r) × (w' ≡ w) = (ground arith, ground arith) in
            (
              subst (FieldsOf (getlines content) fresh_result) same.0
                  (parse_lines-FieldsOf (getlines content) fresh_result q e),
              same.1,
            )
      ]
