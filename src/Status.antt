-- ===== src/Status.antt =====
-- The judge statuses of src/judge/status.h and src/judge/status.cpp.
pub mod RoundTrip
mod Tests
use flowstudy_judge.Common.{Bytes, bytes, bytes_eq, Bool, List, [], ◌∷◌, if◌then◌else◌}

pub data JudgeStatus : Type 0 where
  pending compiling running accepted wrong_answer : JudgeStatus
  time_limit_exceeded memory_limit_exceeded runtime_error : JudgeStatus
  compilation_error system_error : JudgeStatus

unfoldable pub to_string : JudgeStatus → Bytes
to_string pending = bytes "PENDING"
to_string compiling = bytes "COMPILING"
to_string running = bytes "RUNNING"
to_string accepted = bytes "ACCEPTED"
to_string wrong_answer = bytes "WRONG_ANSWER"
to_string time_limit_exceeded = bytes "TIME_LIMIT_EXCEEDED"
to_string memory_limit_exceeded = bytes "MEMORY_LIMIT_EXCEEDED"
to_string runtime_error = bytes "RUNTIME_ERROR"
to_string compilation_error = bytes "COMPILE_ERROR"
to_string system_error = bytes "SYSTEM_ERROR"

unfoldable pub to_description : JudgeStatus → Bytes
to_description pending = bytes "Waiting in queue"
to_description compiling = bytes "Compilation in progress"
to_description running = bytes "Execution in progress"
to_description accepted = bytes "All test cases passed"
to_description wrong_answer = bytes "Output does not match expected"
to_description time_limit_exceeded = bytes "Time limit exceeded"
to_description memory_limit_exceeded = bytes "Memory limit exceeded"
to_description runtime_error = bytes "Runtime error or non-zero exit"
to_description compilation_error = bytes "Compilation failed"
to_description system_error = bytes "Internal system error"

-- The static map of `status_from_string`.
abbrev pub status_map : List (Bytes × JudgeStatus)
status_map =
    (bytes "PENDING", pending)
    ∷ (bytes "COMPILING", compiling)
    ∷ (bytes "RUNNING", running)
    ∷ (bytes "ACCEPTED", accepted)
    ∷ (bytes "WRONG_ANSWER", wrong_answer)
    ∷ (bytes "TIME_LIMIT_EXCEEDED", time_limit_exceeded)
    ∷ (bytes "MEMORY_LIMIT_EXCEEDED", memory_limit_exceeded)
    ∷ (bytes "RUNTIME_ERROR", runtime_error)
    ∷ (bytes "COMPILE_ERROR", compilation_error)
    ∷ (bytes "SYSTEM_ERROR", system_error)
    ∷ []

-- `map.find(s)`, with the value for `map.end()` as `missing`.
abbrev pub find_status : List (Bytes × JudgeStatus) → Bytes → JudgeStatus → JudgeStatus
find_status [] s missing = missing
find_status ((k, st) ∷ m) s missing = if bytes_eq k s then st else find_status m s missing

unfoldable pub status_from_string : Bytes → JudgeStatus
status_from_string s = find_status status_map s system_error
