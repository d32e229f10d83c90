-- ===== src/Sandbox/Meta.antt =====
-- `Sandbox::parse_meta` of src/judge/sandbox.cpp: the file of `key:value` lines that isolate writes.
pub mod Keys
pub mod Fields
pub mod Errors
pub mod RoundTrip
pub mod Bounds
use flowstudy_judge.Common.{
  Bytes, bytes, bytes_eq, true, ℤ, pos, ltb_ℤ, List, [], ◌∷◌, ◌++◌, take, drop, Option, none, some,
  suc, and_then, find_char, getlines, stoi, if◌then◌else◌, M, done, threw,
}
use flowstudy_judge.Platform.{Platform}
use flowstudy_judge.Sandbox.{SandboxResult, fresh_result, failed_result}

-- The keys that the chain of tests knows; `other` stands for all the rest.
pub data MetaKey : Type 0 where
  time time_wall max_rss cg_mem exitcode status exitsig killed other : MetaKey

unfoldable pub meta_key : Bytes → MetaKey
unfolding bytes_eq
meta_key key =
    if bytes_eq key (bytes "time")
    then time
    else if bytes_eq key (bytes "time-wall")
    then time_wall
    else if bytes_eq key (bytes "max-rss")
    then max_rss
    else if bytes_eq key (bytes "cg-mem")
    then cg_mem
    else if bytes_eq key (bytes "exitcode")
    then exitcode
    else if bytes_eq key (bytes "status")
    then status
    else if bytes_eq key (bytes "exitsig")
    then exitsig
    else if bytes_eq key (bytes "killed")
    then killed
    else other

-- The key and the value of a line; `none` if the line has no colon.
unfoldable pub split_meta_line : Bytes → Option (MetaKey × Bytes)
unfolding find_char meta_key
split_meta_line line = elim (find_char line b':') [
  | none ↦ none
  | some colon ↦ some (meta_key (take colon line), drop (suc colon) line)
]

module _ (p : Platform) where
  -- `static_cast<int>(std::stod(val) * 1000)`; `none` is the exception of `stod`.
  unfoldable pub milliseconds : Bytes → Option ℤ
  milliseconds val =
      and_then (p.stod val) λ seconds. some (p.truncate (p.times seconds (p.of_int (pos 1000))))

  -- What a line with this key does to the result; `none` is an exception.
  unfoldable pub set_field : MetaKey → Bytes → SandboxResult → Option SandboxResult
  set_field time val r = and_then (milliseconds val) λ ms. some (record r { time_used_ms = ms })
  set_field time_wall val r = and_then (milliseconds val) λ wall_ms.
      some (if ltb_ℤ r.time_used_ms wall_ms then record r { time_used_ms = wall_ms } else r)
  set_field max_rss val r = and_then (stoi val) λ kb. some (record r { memory_used_kb = kb })
  set_field cg_mem val r = and_then (stoi val) λ kb. some (record r { memory_used_kb = kb })
  set_field exitcode val r = and_then (stoi val) λ n. some (record r { exit_code = n })
  set_field status val r = some (record r { status = val })
  set_field exitsig val r = and_then (stoi val) λ n. some (record r { signal_num = n })
  set_field killed val r = some (record r { timed_out = true })
  set_field other val r = some r

  unfoldable pub parse_line : Bytes → SandboxResult → Option SandboxResult
  unfolding split_meta_line set_field milliseconds
  parse_line line r = elim (split_meta_line line) [
    | none ↦ some r
    | some (key, val) ↦ set_field key val r
  ]

  -- The loop over the lines of the file.
  unfoldable pub parse_lines : List Bytes → SandboxResult → Option SandboxResult
  parse_lines [] r = some r
  parse_lines (l ∷ ls) r = and_then (parse_line l r) (parse_lines ls)

  unfoldable pub parse_meta : Bytes → M p.World SandboxResult
  unfolding parse_lines parse_line getlines
  parse_meta meta_path w = elim (p.read meta_path w) [
    | none ↦ done (failed_result (bytes "Cannot read meta file: " ++ meta_path)) w
    | some content ↦ elim (parse_lines (getlines content) fresh_result) [
      | none ↦ threw w
      | some r ↦ done r w
    ]
  ]
