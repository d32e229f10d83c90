-- ===== src/Worker/Recorded/Tests.antt =====
-- An instance for `on_message` of src/worker/worker.cpp on a server that keeps tables.
use flowstudy_judge.Common.{
  bytes, bytes_eq, refl, [], ◌∷◌, List, none, some, if◌then◌else◌, to_string_ℤ, to_string_ℕ, ◌==◌,
  pos,
}
use flowstudy_judge.Config.{default_config}
use flowstudy_judge.Status.{compilation_error, to_string}
use flowstudy_judge.Judge.Message.Tests.{parsed}
use flowstudy_judge.Judge.Data.{JudgeResultInternal, fresh_judge_result}
use flowstudy_judge.Judge.Engine.{JudgeState, judge}
use flowstudy_judge.Judge.Engine.Tests.{state_of}
use flowstudy_judge.Platform.Scripted.{Machine, scripted}
use flowstudy_judge.Db
use flowstudy_judge.Db.{JudgeResult}
use flowstudy_judge.Db.Atomic.{Transactions}
use flowstudy_judge.Db.Pieces.{Piece, tokens}
use flowstudy_judge.Db.Meaning.{update_submission_pieces, update_code_run_pieces, with_id_pieces}
use flowstudy_judge.Db.Recorded.{Performs}
use flowstudy_judge.Db.Recorded.Scripted.{Known, tables_of, does}
use flowstudy_judge.Db.Tables.{
  Tables, set_submission, set_run, clear_submission_cases, clear_run_cases, count_accepted,
}
use flowstudy_judge.Db.Scripted.{mysql, transactions}
use flowstudy_judge.Worker.{db_result}
use flowstudy_judge.Worker.Settle.{judged}
use flowstudy_judge.Worker.Tests.{libs, worker}
use flowstudy_judge.Worker.Recorded.{Recorded}

-- The compiler's error.
abbrev out : JudgeResultInternal
out = record fresh_judge_result {
  status = compilation_error;
  compiler_output = bytes "error";
  error_message = bytes "error";
}

abbrev row : JudgeResult
row = db_result parsed out

abbrev then_judging : JudgeState Machine
then_judging = state_of worker.judging (judge scripted default_config.isolate parsed worker.judging)

abbrev sets : List Piece
sets = update_submission_pieces row

abbrev sets_a_run : List Piece
sets_a_run = update_code_run_pieces row

abbrev clears : List Piece
clears = with_id_pieces (bytes "DELETE FROM fs_judge_case_result WHERE submission_id = ") 12345

abbrev clears_a_run : List Piece
clears_a_run = with_id_pieces (bytes "DELETE FROM fs_code_run_case_result WHERE run_id = ") 0

abbrev counts : List Piece
counts =
    with_id_pieces (bytes "UPDATE fs_problem SET accepted_count = accepted_count + 1 WHERE id = ")
      100

abbrev known : List Known
known =
    (sets, set_submission row)
    ∷ (sets_a_run, set_run row)
    ∷ (clears, clear_submission_cases 12345)
    ∷ (clears_a_run, clear_run_cases 0)
    ∷ (counts, count_accepted 100)
    ∷ []

-- The submission waits.
abbrev before : Tables
before = record {
  submissions = λ id.
      if id == 12345
      then some (record {
        status = bytes "PENDING";
        score = 0;
        time_used_ms = pos 0;
        memory_used_kb = pos 0;
        compile_message = none;
        runtime_message = none;
      })
      else none;
  runs = λ id. none;
  submission_cases = [];
  run_cases = [];
  accepted = λ id. if id == 100 then some 5 else none;
}

unfoldable performs : Performs mysql (some tt) transactions row
unfolding transactions tokens update_submission_pieces update_code_run_pieces with_id_pieces
    bytes_eq to_string_ℕ to_string_ℤ db_result to_string
performs = record {
  tables = tables_of known before;
  sets_submission = does known before sets (set_submission row) (λ x. refl);
  sets_run = does known before sets_a_run (set_run row) (λ x. refl);
  clears_submission = does known before clears (clear_submission_cases 12345) (λ x. refl);
  clears_run = does known before clears_a_run (clear_run_cases 0) (λ x. refl);
  adds_submission_cases = tt;
  adds_run_cases = tt;
  counts_accepted = does known before counts (count_accepted 100) (λ x. refl);
}

-- The connection is the same when it has been checked.
unfoldable checked : Transactions libs.mysql (judged libs worker then_judging).db.conn
unfolding Db.ping transactions
checked = transactions

unfoldable checked_performs :
    Performs libs.mysql (judged libs worker then_judging).db.conn checked (db_result parsed out)
unfolding Db.ping checked performs
checked_performs = performs
