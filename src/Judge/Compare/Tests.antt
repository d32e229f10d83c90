-- ===== src/Judge/Compare/Tests.antt =====
-- Tests and instances for the comparison of outputs; the inputs of the tests are those of
-- test/integration_test.cpp.
use flowstudy_judge.Common.{ℕ, bytes, ◌≡◌, refl, ◌↔◌, true, false, []}
use flowstudy_judge.Judge.Compare.{compare_output}
use flowstudy_judge.Judge.Compare.Lines.{strip, line_at, compare_output_iff}

compare_output_tests :
    (compare_output (bytes "3  \n12\n") (bytes "3\n12  \n") ≡ true)
    × (compare_output (bytes "3\n12\n") (bytes "3\n12\n\n\n") ≡ true)
    × (compare_output (bytes "3\n") (bytes "4\n") ≡ false)
    × (compare_output (bytes "3\n12\n") (bytes "3\n") ≡ false)
    × (compare_output (bytes " 3") (bytes "3") ≡ false)
    × (compare_output [] [] ≡ true)
unfolding compare_output
compare_output_tests = (refl, refl, refl, refl, refl, refl)

compare_output_iff_example :
    (compare_output (bytes "3 \n") (bytes "3") ≡ true)
    ↔ ((i : ℕ) → strip (line_at (bytes "3 \n") i) ≡ strip (line_at (bytes "3") i))
compare_output_iff_example = compare_output_iff (bytes "3 \n") (bytes "3")
