-- ===== src/Sandbox/Meta/Keys.antt =====
-- The keys of isolate's meta file in `Sandbox::parse_meta` of src/judge/sandbox.cpp, by their texts.
use flowstudy_judge.Common.{
  Bytes, bytes, bytes_eq, bytes_eq_iff, ℕ, suc, ◌==◌, ◌||◌, true, refl, sym, ap, ◌∙◌, if◌then◌else◌,
  find_char, take, drop, Bool-cases, ◌≡◌, subst, [], ◌∷◌, Option, none, some, arith, inl, inr,
}
use mathlib.Core.Option
use flowstudy_judge.Sandbox.Meta.{
  MetaKey, max_rss, cg_mem, killed, exitcode, status, exitsig, split_meta_line, meta_key, other,
}

-- The text in front of the first colon, and the text behind it.
abbrev pub at_colon : Bytes → Option (Bytes × Bytes)
at_colon [] = none
at_colon (c ∷ s) =
    if c == b':' then some ([], s) else Option.map (λ (k, v). (c ∷ k, v)) (at_colon s)

-- The value of a line with this key.
abbrev pub value_of : Bytes → Bytes → Bytes → Option Bytes
value_of name key val = if bytes_eq key name then some val else none

abbrev pub exitcode_of : Bytes → Bytes → Option Bytes
exitcode_of = value_of (bytes "exitcode")

abbrev pub exitsig_of : Bytes → Bytes → Option Bytes
exitsig_of = value_of (bytes "exitsig")

abbrev pub status_of : Bytes → Bytes → Option Bytes
status_of = value_of (bytes "status")

-- Both keys set the memory.
abbrev pub memory_of : Bytes → Bytes → Option Bytes
memory_of key val =
    if bytes_eq key (bytes "max-rss") || bytes_eq key (bytes "cg-mem") then some val else none

abbrev pub killed_of : Bytes → Bytes → Option Bytes
killed_of = value_of (bytes "killed")

-- The code finds the same key and value.
find_char-at_colon :
    (l : Bytes)
    → (elim (find_char l b':') as (λ _. Option (Bytes × Bytes)) [
      | none ↦ none
      | some colon ↦ some (take colon l, drop (suc colon) l)
    ])
      ≡ at_colon l
unfolding find_char
find_char-at_colon [] = refl
find_char-at_colon (c ∷ s) = ground (arith, find_char-at_colon s)

pub split_meta_line-at_colon :
    (l : Bytes) → split_meta_line l ≡ Option.map (λ (k, v). (meta_key k, v)) (at_colon l)
unfolding split_meta_line
split_meta_line-at_colon l =
    go (find_char l b':') ∙ ap (Option.map (λ (k, v). (meta_key k, v))) (find_char-at_colon l)
  where
    go :
        (o : Option ℕ)
        → (elim o as (λ _. Option (MetaKey × Bytes)) [
          | none ↦ none
          | some colon ↦ some (meta_key (take colon l), drop (suc colon) l)
        ])
          ≡ Option.map
              (λ (k, v). (meta_key k, v))
              (elim o as (λ _. Option (Bytes × Bytes)) [
                | none ↦ none
                | some colon ↦ some (take colon l, drop (suc colon) l)
              ])
    go none = refl
    go (some colon) = refl

-- The value, if the code takes its key for this field.
abbrev pub of_exitcode : MetaKey → Bytes → Option Bytes
of_exitcode exitcode val = some val
of_exitcode _ val = none

abbrev pub of_exitsig : MetaKey → Bytes → Option Bytes
of_exitsig exitsig val = some val
of_exitsig _ val = none

abbrev pub of_status : MetaKey → Bytes → Option Bytes
of_status status val = some val
of_status _ val = none

abbrev pub of_memory : MetaKey → Bytes → Option Bytes
of_memory max_rss val = some val
of_memory cg_mem val = some val
of_memory _ val = none

abbrev pub of_killed : MetaKey → Bytes → Option Bytes
of_killed killed val = some val
of_killed _ val = none

-- The code takes this key for `k`, which is right.
pub record Chosen (key val : Bytes) (k : MetaKey) : Type 0 where
  pub exitcode_is : exitcode_of key val ≡ of_exitcode k val
  pub exitsig_is : exitsig_of key val ≡ of_exitsig k val
  pub status_is : status_of key val ≡ of_status k val
  pub memory_is : memory_of key val ≡ of_memory k val
  pub killed_is : killed_of key val ≡ of_killed k val

-- The code takes each key for the field of this name.
pub meta_key-Chosen : (key val : Bytes) → Chosen key val (meta_key key)
unfolding meta_key bytes_eq
meta_key-Chosen key val = elim (Bool-cases (bytes_eq key (bytes "time"))) [
  | inl e ↦ known (bytes "time") e (record {
    exitcode_is = refl;
    exitsig_is = refl;
    status_is = refl;
    memory_is = refl;
    killed_is = refl;
  })
  | inr e0 ↦ elim (Bool-cases (bytes_eq key (bytes "time-wall"))) [
    | inl e ↦ known (bytes "time-wall") e (record {
      exitcode_is = refl;
      exitsig_is = refl;
      status_is = refl;
      memory_is = refl;
      killed_is = refl;
    })
    | inr e1 ↦ elim (Bool-cases (bytes_eq key (bytes "max-rss"))) [
      | inl e ↦ known (bytes "max-rss") e (record {
        exitcode_is = refl;
        exitsig_is = refl;
        status_is = refl;
        memory_is = refl;
        killed_is = refl;
      })
      | inr e2 ↦ elim (Bool-cases (bytes_eq key (bytes "cg-mem"))) [
        | inl e ↦ known (bytes "cg-mem") e (record {
          exitcode_is = refl;
          exitsig_is = refl;
          status_is = refl;
          memory_is = refl;
          killed_is = refl;
        })
        | inr e3 ↦ elim (Bool-cases (bytes_eq key (bytes "exitcode"))) [
          | inl e ↦ known (bytes "exitcode") e (record {
            exitcode_is = refl;
            exitsig_is = refl;
            status_is = refl;
            memory_is = refl;
            killed_is = refl;
          })
          | inr e4 ↦ elim (Bool-cases (bytes_eq key (bytes "status"))) [
            | inl e ↦ known (bytes "status") e (record {
              exitcode_is = refl;
              exitsig_is = refl;
              status_is = refl;
              memory_is = refl;
              killed_is = refl;
            })
            | inr e5 ↦ elim (Bool-cases (bytes_eq key (bytes "exitsig"))) [
              | inl e ↦ known (bytes "exitsig") e (record {
                exitcode_is = refl;
                exitsig_is = refl;
                status_is = refl;
                memory_is = refl;
                killed_is = refl;
              })
              | inr e6 ↦ elim (Bool-cases (bytes_eq key (bytes "killed"))) [
                | inl e ↦ known (bytes "killed") e (record {
                  exitcode_is = refl;
                  exitsig_is = refl;
                  status_is = refl;
                  memory_is = refl;
                  killed_is = refl;
                })
                | inr e7 ↦
                    let k : meta_key key ≡ other = simp (e0, e1, e2, e3, e4, e5, e6, e7) in
                    subst (Chosen key val) (sym k) (record {
                      exitcode_is = simp (e4);
                      exitsig_is = simp (e6);
                      status_is = simp (e5);
                      memory_is = simp (e2, e3);
                      killed_is = simp (e7);
                    })
              ]
            ]
          ]
        ]
      ]
    ]
  ]
]
  where
    known :
        (name : Bytes)
        → bytes_eq key name ≡ true
        → Chosen name val (meta_key name)
        → Chosen key val (meta_key key)
    known name e h = subst (λ x. Chosen x val (meta_key x)) (sym ((bytes_eq_iff key name).0 e)) h
