-- ===== src/Sandbox/Meta/RoundTrip.antt =====
-- Meta files written as isolate's manual says, a line `key:value` for each entry, in any order, and
-- `Sandbox::parse_meta` of src/judge/sandbox.cpp on them.
use flowstudy_judge.Common.{
  ℕ, suc, Bytes, bytes, bytes_eq, true, false, not, ◌==◌, ◌≡◌, refl, sym, ap, ap₂, ◌∙◌, arith, ℤ,
  pos, negsuc, ltb_ℤ, List, [], ◌∷◌, ◌++◌, foldl, length, take, drop, All, some, and_then,
  find_char, getlines, is_digit, all_of, all_of-append, to_string_ℕ, to_string_ℤ,
  to_string_ℕ-is_digit, IsInt, stoi-to_string_ℤ, if◌then◌else◌, done, append_assoc,
}
use flowstudy_judge.Platform.{Platform}
use flowstudy_judge.Sandbox.{SandboxResult, fresh_result}
use flowstudy_judge.Sandbox.Meta.{
  other, meta_key, split_meta_line, set_field, milliseconds, parse_line, parse_lines, parse_meta,
}

-- The text does not have this byte.
abbrev pub Lacks : ℕ → Bytes → Type 0
Lacks c s = all_of (λ x. not (x == c)) s ≡ true

digits-Lacks : (c : ℕ) (s : Bytes) → is_digit c ≡ false → all_of is_digit s ≡ true → Lacks c s
digits-Lacks c [] n h = refl
digits-Lacks c (x ∷ s) n h = ground (arith, digits-Lacks c s)

to_string_ℤ-Lacks : (n : ℤ) → Lacks b'\n' (to_string_ℤ n)
unfolding to_string_ℤ
to_string_ℤ-Lacks (pos n) = digits-Lacks b'\n' (to_string_ℕ n) refl (to_string_ℕ-is_digit n)
to_string_ℤ-Lacks (negsuc n) =
    digits-Lacks b'\n' (to_string_ℕ (suc n)) refl (to_string_ℕ-is_digit (suc n))

-- A line in front of others is read as itself.
getlines-line : (l rest : Bytes) → Lacks b'\n' l → getlines (l ++ b'\n' ∷ rest) ≡ l ∷ getlines rest
unfolding getlines
getlines-line [] rest h = refl
getlines-line (c ∷ l) rest h = ground (arith, getlines-line l rest)

find_char-first : (k v : Bytes) (c : ℕ) → Lacks c k → find_char (k ++ c ∷ v) c ≡ some (length k)
unfolding find_char
find_char-first [] v c h = ground arith
find_char-first (x ∷ k) v c h = ground (arith, find_char-first k v c)

take-length : (k v : Bytes) → take (length k) (k ++ v) ≡ k
take-length [] v = refl
take-length (x ∷ k) v = ap (λ s. x ∷ s) (take-length k v)

drop-length : (k v : Bytes) (c : ℕ) → drop (suc (length k)) (k ++ c ∷ v) ≡ v
drop-length [] v c = refl
drop-length (x ∷ k) v c = drop-length k v c

split_meta_line-colon :
    (k v : Bytes) → Lacks b':' k → split_meta_line (k ++ b':' ∷ v) ≡ some (meta_key k, v)
unfolding split_meta_line
split_meta_line-colon k v h =
    rw (find_char-first k v b':' h, split_meta_line)
      (ap₂ (λ a b. some (meta_key a, b)) (take-length k (b':' ∷ v)) (drop-length k v b':'))

module _ (p : Platform) where
  -- What a line says; a time goes with its text.
  pub data Entry : Type 0 where
    cpu_time wall_time : Bytes → p.Double → Entry
    peak_rss peak_cgroup : ℤ → Entry
    exit_code exit_signal : ℤ → Entry
    exit_status : Bytes → Entry
    killed : Entry
    -- a key that the program does not look for
    unknown : Bytes → Bytes → Entry

  abbrev key_of : Entry → Bytes
  key_of (cpu_time s x) = bytes "time"
  key_of (wall_time s x) = bytes "time-wall"
  key_of (peak_rss n) = bytes "max-rss"
  key_of (peak_cgroup n) = bytes "cg-mem"
  key_of (exit_code n) = bytes "exitcode"
  key_of (exit_signal n) = bytes "exitsig"
  key_of (exit_status s) = bytes "status"
  key_of killed = bytes "killed"
  key_of (unknown k s) = k

  abbrev text_of : Entry → Bytes
  text_of (cpu_time s x) = s
  text_of (wall_time s x) = s
  text_of (peak_rss n) = to_string_ℤ n
  text_of (peak_cgroup n) = to_string_ℤ n
  text_of (exit_code n) = to_string_ℤ n
  text_of (exit_signal n) = to_string_ℤ n
  text_of (exit_status s) = s
  text_of killed = bytes "1"
  text_of (unknown k s) = s

  unfoldable pub print_meta : List Entry → Bytes
  print_meta [] = []
  print_meta (e ∷ es) = key_of e ++ (b':' ∷ (text_of e ++ (b'\n' ∷ print_meta es)))

  -- The numbers fit, the times are read as these numbers, and no text runs over its line.
  abbrev pub IsEntry : Entry → Type 0
  IsEntry (cpu_time s x) = (p.stod s ≡ some x) × Lacks b'\n' s
  IsEntry (wall_time s x) = (p.stod s ≡ some x) × Lacks b'\n' s
  IsEntry (peak_rss n) = IsInt n
  IsEntry (peak_cgroup n) = IsInt n
  IsEntry (exit_code n) = IsInt n
  IsEntry (exit_signal n) = IsInt n
  IsEntry (exit_status s) = Lacks b'\n' s
  IsEntry killed = Unit
  IsEntry (unknown k s) = (meta_key k ≡ other) × Lacks b':' k × Lacks b'\n' k × Lacks b'\n' s

  abbrev in_ms : p.Double → ℤ
  in_ms x = p.truncate (p.times x (p.of_int (pos 1000)))

  -- What the program is to make of it: the time used is the longer of the wall time and what it was.
  abbrev pub told : SandboxResult → Entry → SandboxResult
  told r (cpu_time s x) = record r { time_used_ms = in_ms x }
  told r (wall_time s x) =
      if ltb_ℤ r.time_used_ms (in_ms x) then record r { time_used_ms = in_ms x } else r
  told r (peak_rss n) = record r { memory_used_kb = n }
  told r (peak_cgroup n) = record r { memory_used_kb = n }
  told r (exit_code n) = record r { exit_code = n }
  told r (exit_signal n) = record r { signal_num = n }
  told r (exit_status s) = record r { status = s }
  told r killed = record r { timed_out = true }
  told r (unknown k s) = r

  key_of-Lacks : (e : Entry) → IsEntry e → Lacks b':' (key_of e) × Lacks b'\n' (key_of e)
  key_of-Lacks (unknown k s) h = (h.1, h.2)
  key_of-Lacks _ h = (refl, refl)

  text_of-Lacks : (e : Entry) → IsEntry e → Lacks b'\n' (text_of e)
  text_of-Lacks (cpu_time s x) h = h.1
  text_of-Lacks (wall_time s x) h = h.1
  text_of-Lacks (peak_rss n) h = to_string_ℤ-Lacks n
  text_of-Lacks (peak_cgroup n) h = to_string_ℤ-Lacks n
  text_of-Lacks (exit_code n) h = to_string_ℤ-Lacks n
  text_of-Lacks (exit_signal n) h = to_string_ℤ-Lacks n
  text_of-Lacks (exit_status s) h = h
  text_of-Lacks killed h = refl
  text_of-Lacks (unknown k s) h = h.3

  set_field-told :
      (e : Entry) (r : SandboxResult)
      → IsEntry e
      → set_field p (meta_key (key_of e)) (text_of e) r ≡ some (told r e)
  unfolding set_field milliseconds meta_key bytes_eq
  set_field-told (cpu_time s x) r h = rw h.0 refl
  set_field-told (wall_time s x) r h = rw h.0 refl
  set_field-told (peak_rss n) r h = rw (stoi-to_string_ℤ n h) refl
  set_field-told (peak_cgroup n) r h = rw (stoi-to_string_ℤ n h) refl
  set_field-told (exit_code n) r h = rw (stoi-to_string_ℤ n h) refl
  set_field-told (exit_signal n) r h = rw (stoi-to_string_ℤ n h) refl
  set_field-told (exit_status s) r h = refl
  set_field-told killed r h = refl
  set_field-told (unknown k s) r h = ap (λ key. set_field p key s r) h.0

  parse_line-told :
      (e : Entry) (r : SandboxResult)
      → IsEntry e
      → parse_line p (key_of e ++ b':' ∷ text_of e) r ≡ some (told r e)
  unfolding parse_line
  parse_line-told e r h =
      rw (split_meta_line-colon (key_of e) (text_of e) (key_of-Lacks e h).0, parse_line)
        (set_field-told e r h)

  getlines-entry :
      (e : Entry) (es : List Entry)
      → IsEntry e
      → getlines (print_meta (e ∷ es)) ≡ (key_of e ++ b':' ∷ text_of e) ∷ getlines (print_meta es)
  unfolding print_meta
  getlines-entry e es h =
      ap getlines (sym (append_assoc (key_of e) (b':' ∷ text_of e) (b'\n' ∷ print_meta es)))
      ∙ getlines-line (key_of e ++ b':' ∷ text_of e) (print_meta es)
          (all_of-append _ (key_of e) (b':' ∷ text_of e) (key_of-Lacks e h).1 (text_of-Lacks e h))

  parse_lines-told :
      (es : List Entry) (r : SandboxResult)
      → All IsEntry es
      → parse_lines p (getlines (print_meta es)) r ≡ some (foldl told r es)
  unfolding parse_lines print_meta getlines
  parse_lines-told [] r h = refl
  parse_lines-told (e ∷ es) r h =
      ap (λ ls. parse_lines p ls r) (getlines-entry e es h.0)
      ∙ ap (λ o. and_then o (parse_lines p (getlines (print_meta es)))) (parse_line-told e r h.0)
      ∙ parse_lines-told es (told r e) h.1

  -- If the file can be read and is written as isolate writes it, a line for each entry in any order, with
  -- numbers that fit an `int` and times that `std::stod` reads, then `parse_meta` returns what the
  -- entries say one after the other, and changes nothing.
  pub parse_meta-print_meta :
      (meta_path : Bytes) (es : List Entry) (w : p.World)
      → All IsEntry es
      → p.read meta_path w ≡ some (print_meta es)
      → parse_meta p meta_path w ≡ done (foldl told fresh_result es) w
  unfolding parse_meta
  parse_meta-print_meta meta_path es w h readable =
      rw (readable, parse_lines-told es fresh_result h, parse_meta) refl
