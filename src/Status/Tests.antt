-- ===== src/Status/Tests.antt =====
-- Tests and instances for src/judge/status.cpp.
use flowstudy_judge.Common.{bytes, bytes_eq, ◌≡◌, refl}
use flowstudy_judge.Status.{
  accepted, wrong_answer, system_error, to_string, to_description, status_from_string,
}
use flowstudy_judge.Status.RoundTrip.{status_from_string-to_string}

unknown_text : status_from_string (bytes "NotAStatus") ≡ system_error
unfolding status_from_string bytes_eq
unknown_text = refl

accepted_description : to_description accepted ≡ bytes "All test cases passed"
unfolding to_description
accepted_description = refl

status_from_string-to_string_example : status_from_string (to_string wrong_answer) ≡ wrong_answer
status_from_string-to_string_example = status_from_string-to_string wrong_answer
