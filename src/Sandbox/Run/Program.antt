-- ===== src/Sandbox/Run/Program.antt =====
-- What `Sandbox::run` of src/judge/sandbox.cpp returns for a program that isolate runs to its end.
use flowstudy_judge.Common.{
  ap, Bytes, bytes, bytes_eq, bytes_eq_iff, true, false, ◌≡◌, ◌≢◌, ◌∙◌, arith, ℤ, pos, negsuc,
  eqb_ℤ, ◌≤ℤ◌, List, [], foldl, All, ◌++◌, some, done, >>=-done,
}
use flowstudy_judge.Platform.{Platform}
use flowstudy_judge.Sandbox.{Sandbox, SandboxResult, fresh_result}
use flowstudy_judge.Sandbox.Language.{normalize_language}
use flowstudy_judge.Sandbox.Meta.Fields.{text_or}
use flowstudy_judge.Sandbox.Meta.RoundTrip.{Entry, IsEntry, print_meta, told}
use flowstudy_judge.Sandbox.Command.{command_line, write_file, execute}
use flowstudy_judge.Sandbox.Command.Reported.{execute-reported, write_file-true}
use flowstudy_judge.Sandbox.Run.{run, run_command, run_args, wall_time}

other_status : (st : Bytes) → st ≢ bytes "TO" → bytes_eq st (bytes "TO") ≡ false
other_status st ne = ground (arith, bytes_eq_iff st (bytes "TO"))

module _ (p : Platform) (sb : Sandbox) (language : Bytes) (time_limit_ms memory_limit_kb : ℤ)
    (command : List Bytes) where
  abbrev in_box : Bytes → Bytes
  in_box filename = sb.box_path ++ filename

  abbrev args : List Bytes
  args =
      run_args sb (normalize_language language) memory_limit_kb (p.show (wall_time p time_limit_ms))
        command

  -- The call of isolate in this world.
  abbrev call_isolate : p.World → ℤ × p.World
  call_isolate w = p.system (command_line sb args (bytes "run_meta.txt")) w

  -- `input.txt`, with this text.
  abbrev with_input : Bytes → p.World → p.World
  with_input s w = p.chmod (in_box (bytes "input.txt")) (p.write (in_box (bytes "input.txt")) s w).1

  -- The file that isolate writes in the end: the program has exited with 0 within its limits.
  pub record ReportsSuccess (es : List (Entry p)) : Type 0 where
    pub entries : All (IsEntry p) es
    pub code : (foldl (told p) fresh_result es).exit_code ≡ pos 0
    pub signal : (foldl (told p) fresh_result es).signal_num ≡ pos 0
    pub in_time : (foldl (told p) fresh_result es).status ≢ bytes "TO"
    pub fits : (foldl (told p) fresh_result es).memory_used_kb ≤ℤ memory_limit_kb

  -- Isolate runs a program in this box that prints `f s` on the input `s` and exits. `Ready` says of a
  -- world that the program is there.
  pub record Program (f : Bytes → Bytes) : Type 1 where
    pub Ready : p.World → Type 0
    -- The input can be written and is read back, and the program stays.
    pub takes_input :
        (s : Bytes) (w : p.World)
        → Ready w
        → ((p.write (in_box (bytes "input.txt")) s w).0 ≡ true)
          × Ready (with_input s w)
          × (p.read (in_box (bytes "input.txt")) (with_input s w) ≡ some s)
    -- Isolate can be run, leaves what the program prints, and reports success.
    pub answers :
        (s : Bytes) (w : p.World)
        → Ready w
        → p.read (in_box (bytes "input.txt")) w ≡ some s
        → (eqb_ℤ (call_isolate w).0 (negsuc 0) ≡ false)
          × Ready (call_isolate w).1
          × (p.read (in_box (bytes "output.txt")) (call_isolate w).1 ≡ some (f s))
          × ((es : List (Entry p)) × ReportsSuccess es
              × (p.read (in_box (bytes "run_meta.txt")) (call_isolate w).1
                  ≡ some (print_meta p es)))

  -- A run that has printed this text within its limits.
  pub record Succeeds (text : Bytes) (r : SandboxResult) : Type 0 where
    pub prints : r.stdout_output ≡ text
    pub code : r.exit_code ≡ pos 0
    pub signal : r.signal_num ≡ pos 0
    pub not_late : r.timed_out ≡ false
    pub in_time : r.status ≢ bytes "TO"
    pub fits : r.memory_used_kb ≤ℤ memory_limit_kb

  run-execute :
      (s : Bytes) (w w' : p.World) (r : SandboxResult)
      → run_command sb (normalize_language language) ≡ some command
      → (p.write (in_box (bytes "input.txt")) s w).0 ≡ true
      → execute p sb args (bytes "run_meta.txt") (with_input s w) ≡ done r w'
      → run p sb language time_limit_ms memory_limit_kb s w
        ≡ done (record r { timed_out = bytes_eq r.status (bytes "TO") }) w'
  unfolding run
  run-execute s w w' r supported written executed =
      >>=-done (write_file p sb (bytes "input.txt") s) _ w
        (write_file-true p sb (bytes "input.txt") s w written)
      ∙ simp supported
          (>>=-done (execute p sb args (bytes "run_meta.txt")) _ (with_input s w) executed)

  -- The run of a program in the box that works.
  pub run-Succeeds :
      (f : Bytes → Bytes) (prog : Program f) (s : Bytes) (w : p.World)
      → run_command sb (normalize_language language) ≡ some command
      → prog.Ready w
      → (r : SandboxResult) × (w' : p.World) × (run p sb language time_limit_ms memory_limit_kb s w
          ≡ done r w')
        × prog.Ready w'
        × Succeeds (f s) r
  run-Succeeds f prog s w supported ready =
      let (written, there, back) = prog.takes_input s w ready in
      let (ran, still, out, (es, reports, meta)) = prog.answers s (with_input s w) there back in
      let ends =
        execute-reported p sb args (bytes "run_meta.txt") es (with_input s w) ran reports.entries
          meta in
      (
        _,
        _,
        run-execute s w _ _ supported written ends,
        still,
        record {
          prints = ap (text_or []) out;
          code = reports.code;
          signal = reports.signal;
          not_late = other_status (foldl (told p) fresh_result es).status reports.in_time;
          in_time = reports.in_time;
          fits = reports.fits;
        },
      )
