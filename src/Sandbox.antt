-- ===== src/Sandbox.antt =====
-- The wrapper of the isolate command line, src/judge/sandbox.h and src/judge/sandbox.cpp: the
-- data, and the operations by the children.
pub mod Language
pub mod Meta
pub mod Command
pub mod Blocking
pub mod Compile
pub mod Run
pub mod Shell
mod Tests
use flowstudy_judge.Common.{Bytes, bytes, Bool, false, ℤ, pos, negsuc, [], ◌++◌, to_string_ℤ}
use flowstudy_judge.Config.{IsolateConfig}

pub record SandboxResult : Type 0 where
  pub exit_code : ℤ
  pub signal_num : ℤ
  pub time_used_ms : ℤ
  pub memory_used_kb : ℤ
  pub stdout_output : Bytes
  pub stderr_output : Bytes
  pub timed_out : Bool
  pub status : Bytes

abbrev pub fresh_result : SandboxResult
fresh_result = record {
  exit_code = pos 0;
  signal_num = pos 0;
  time_used_ms = pos 0;
  memory_used_kb = pos 0;
  stdout_output = [];
  stderr_output = [];
  timed_out = false;
  status = [];
}

-- The result of each early return: exit code -1, a message, and the status "XX".
abbrev pub failed_result : Bytes → SandboxResult
failed_result message = record fresh_result {
  exit_code = negsuc 0;
  stderr_output = message;
  status = bytes "XX";
}

pub record Sandbox : Type 0 where
  pub box_id : ℤ
  pub isolate_bin : Bytes
  pub box_path : Bytes
  pub java_main_class : Bytes

-- The constructor.
unfoldable pub new_sandbox : ℤ → IsolateConfig → Sandbox
new_sandbox box_id cfg = record {
  box_id = box_id;
  isolate_bin = cfg.binary_path;
  box_path = bytes "/var/local/lib/isolate/" ++ (to_string_ℤ box_id ++ bytes "/box/");
  java_main_class = bytes "Main";
}
