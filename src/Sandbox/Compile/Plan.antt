-- ===== src/Sandbox/Compile/Plan.antt =====
-- What `Sandbox::compile` of src/judge/sandbox.cpp is to do for each language.
use flowstudy_judge.Common.{
  Bytes, bytes, bytes_eq, false, ◌≡◌, subst, ◌∙◌, List, [], ◌++◌, Option, some, none, M, ap, refl,
  ◌∷◌, if◌then◌else◌, Bool-cases, some-injective, inl, inr,
}
use flowstudy_judge.Platform.{Platform}
use flowstudy_judge.Sandbox.{Sandbox, SandboxResult}
use flowstudy_judge.Sandbox.Language.{normalize_language, java_class_name}
use flowstudy_judge.Sandbox.Compile.{
  compile, compile_source, compile_go, cpp_args, java_args, python_args, go_args, mkdir_failed,
}

-- The sandbox, the directories that are made first, the source file and the arguments of isolate.
abbrev pub Plan : Type 0
Plan = Sandbox × List Bytes × Bytes × List Bytes

abbrev go_dirs : Sandbox → List Bytes
go_dirs sb = (sb.box_path ++ bytes "tmp") ∷ (sb.box_path ++ bytes "tmp" ++ bytes "/go-cache") ∷ []

abbrev pub plan_of : Sandbox → Bytes → Bytes → Option Plan
plan_of sb normalized source_code =
    if bytes_eq normalized (bytes "cpp")
    then some (sb, [], bytes "solution.cpp", cpp_args sb)
    else if bytes_eq normalized (bytes "java")
    then (let class_name = java_class_name source_code in
        some (
          record sb { java_main_class = class_name },
          [],
          class_name ++ bytes ".java",
          java_args sb (class_name ++ bytes ".java"),
        ))
    else if bytes_eq normalized (bytes "python")
    then some (sb, [], bytes "solution.py", python_args sb)
    else if bytes_eq normalized (bytes "go")
    then some (sb, go_dirs sb, bytes "main.go", go_args sb)
    else none

module _ (p : Platform) where
  -- Each of the directories can be made, or is there, one after the other.
  abbrev pub Made : List Bytes → p.World → Type 0
  Made [] w = Unit
  Made (dir ∷ dirs) w = (mkdir_failed (p.mkdir dir w).0 ≡ false) × Made dirs (p.mkdir dir w).1

  abbrev pub with_dirs : List Bytes → p.World → p.World
  with_dirs [] w = w
  with_dirs (dir ∷ dirs) w = with_dirs dirs (p.mkdir dir w).1

  compile_go-Made :
      (sb : Sandbox) (source_code : Bytes) (w : p.World)
      → Made (go_dirs sb) w
      → compile_go p sb source_code w
        ≡ compile_source p sb (bytes "main.go") (go_args sb) source_code (with_dirs (go_dirs sb) w)
  unfolding compile_go
  compile_go-Made sb source_code w (tmp, (cache, _)) = rw (tmp, cache) refl

  -- The compilation goes as planned.
  abbrev Follows : Sandbox → Bytes → Bytes → Plan → Type 0
  Follows sb language source_code (sb', dirs, source_file, args) =
      (w : p.World)
      → Made dirs w
      → compile p sb language source_code w
        ≡ compile_source p sb' source_file args source_code (with_dirs dirs w)

  pub compile-plan :
      (sb : Sandbox) (language source_code : Bytes) (plan : Plan)
      → plan_of sb (normalize_language language) source_code ≡ some plan
      → Follows sb language source_code plan
  unfolding compile
  compile-plan sb language source_code plan e =
      let n = normalize_language language in
      let Goes = Follows sb language source_code in
      elim (Bool-cases (bytes_eq n (bytes "cpp"))) [
        | inl cpp ↦ subst Goes (some-injective (rw cpp at e)) (λ w made. simp cpp)
        | inr no_cpp ↦ elim (Bool-cases (bytes_eq n (bytes "java"))) [
          | inl java ↦
              subst Goes (some-injective (rw (no_cpp, java) at e)) (λ w made. simp (no_cpp, java))
          | inr no_java ↦ elim (Bool-cases (bytes_eq n (bytes "python"))) [
            | inl python ↦
                subst Goes (some-injective (rw (no_cpp, no_java, python) at e))
                  (λ w made. simp (no_cpp, no_java, python))
            | inr no_python ↦ elim (Bool-cases (bytes_eq n (bytes "go"))) [
              | inl go ↦
                  let same : compile p sb language source_code ≡ compile_go p sb source_code =
                    simp (no_cpp, no_java, no_python, go) in
                  subst Goes (some-injective (rw (no_cpp, no_java, no_python, go) at e)) (λ w made.
                    ap (λ (m : M p.World (SandboxResult × Sandbox)). m w) same
                    ∙ compile_go-Made sb source_code w made)
              | inr no_go ↦ absurd (cc (rw (no_cpp, no_java, no_python, no_go) at e))
            ]
          ]
        ]
      ]
