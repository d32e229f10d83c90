-- ===== src/Status/RoundTrip.antt =====
-- Printing a status and reading it back, src/judge/status.cpp.
use flowstudy_judge.Common.{
  Bytes, bytes_eq, bytes_eq_iff, ◌≡◌, refl, sym, ap, ◌∙◌, ◌⊎◌, inl, inr, List, [], ◌∷◌, All,
  Bool-cases,
}
use flowstudy_judge.Status.{
  JudgeStatus, pending, system_error, to_string, status_map, find_status, status_from_string,
}

-- Every status is read back from the text that it is printed as.
pub status_from_string-to_string : (st : JudgeStatus) → status_from_string (to_string st) ≡ st
unfolding status_from_string to_string bytes_eq
status_from_string-to_string pending = refl
status_from_string-to_string _ = refl

-- Two statuses that print alike are the same status.
pub to_string-injective : (a b : JudgeStatus) → to_string a ≡ to_string b → a ≡ b
to_string-injective a b e =
    sym (status_from_string-to_string a) ∙ ap status_from_string e ∙ status_from_string-to_string b

find_status-cases :
    (m : List (Bytes × JudgeStatus)) (s : Bytes)
    → All (λ (kv : Bytes × JudgeStatus). to_string kv.1 ≡ kv.0) m
    → (find_status m s system_error ≡ system_error) ⊎ (to_string (find_status m s system_error) ≡ s)
find_status-cases [] s h = inl refl
find_status-cases ((k, st) ∷ m) s h = elim (Bool-cases (bytes_eq k s)) [
  | inl hit ↦ rw hit (inr (h.0 ∙ (bytes_eq_iff k s).0 hit))
  | inr miss ↦ rw miss (find_status-cases m s h.1)
]

status_map-printed : All (λ (kv : Bytes × JudgeStatus). to_string kv.1 ≡ kv.0) status_map
unfolding to_string
status_map-printed =
    (refl, (refl, (refl, (refl, (refl, (refl, (refl, (refl, (refl, (refl, tt))))))))))

-- A text is read as a status that prints as this text, or else as `system_error`.
pub status_from_string-cases :
    (s : Bytes) → (status_from_string s ≡ system_error) ⊎ (to_string (status_from_string s) ≡ s)
unfolding status_from_string
status_from_string-cases s = find_status-cases status_map s status_map-printed
