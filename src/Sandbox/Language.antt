-- ===== src/Sandbox/Language.antt =====
-- `Sandbox::normalize_language` and `Sandbox::java_class_name` of src/judge/sandbox.cpp.
use flowstudy_judge.Common.{
  Bytes, bytes, bytes_eq, is_empty, ◌≡◌, ◌≢◌, refl, true, ◌||◌, [], ◌∷◌, map, All, arith, ◌==◌,
  if◌then◌else◌, is_alnum, to_lower, find_after, skip_space, take_word, none, some, Option-cases,
  inl, inr, ℕ,
}

unfoldable pub normalize_language : Bytes → Bytes
unfolding bytes_eq
normalize_language language =
    let normalized = map to_lower language in
    if bytes_eq normalized (bytes "c++")
    then bytes "cpp"
    else if bytes_eq normalized (bytes "py")
    then bytes "python"
    else normalized

unfoldable pub java_class_name : Bytes → Bytes
unfolding find_after take_word
java_class_name source = elim (find_after (bytes "public class ") source) [
  | none ↦ bytes "Main"
  | some rest ↦
      let class_name = take_word (skip_space rest) in
      if is_empty class_name then bytes "Main" else class_name
]

to_lower_idem : (s : Bytes) → map to_lower (map to_lower s) ≡ map to_lower s
to_lower_idem [] = refl
to_lower_idem (c ∷ s) = ground (arith, to_lower_idem s)

-- A normalised language name is its own normal form, so that it does not matter how often a name
-- is normalised on its way.
pub normalize_language_idem :
    (l : Bytes) → normalize_language (normalize_language l) ≡ normalize_language l
unfolding normalize_language
normalize_language_idem l = ground (arith, to_lower_idem l)

-- A byte that a Java identifier of the program may hold.
abbrev pub IsWordByte : ℕ → Type 0
IsWordByte c = (is_alnum c || c == b'_') ≡ true

take_word-All : (s : Bytes) → All IsWordByte (take_word s)
unfolding take_word
take_word-All [] = tt
take_word-All (c ∷ s) = ground (arith, take_word-All s)

abbrev pub IsWord : Bytes → Type 0
IsWord s = (s ≢ []) × All IsWordByte s

main-IsWord : IsWord (bytes "Main")
main-IsWord = (λ e. cc, (refl, (refl, (refl, (refl, tt)))))

or_main-IsWord : (w : Bytes) → All IsWordByte w → IsWord (if is_empty w then bytes "Main" else w)
or_main-IsWord [] h = main-IsWord
or_main-IsWord (c ∷ cs) h = (λ e. cc, h)

-- Whatever the submitted source holds, the class name taken from it is not empty and has letters,
-- digits and underscores only.
pub java_class_name-IsWord : (source : Bytes) → IsWord (java_class_name source)
unfolding java_class_name
java_class_name-IsWord source = elim (Option-cases (find_after (bytes "public class ") source)) [
  | inl e ↦ rw (e, java_class_name) main-IsWord
  | inr (rest, e) ↦
      rw (e, java_class_name)
        (or_main-IsWord (take_word (skip_space rest)) (take_word-All (skip_space rest)))
]
