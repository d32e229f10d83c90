-- ===== src/Sandbox/Meta/Errors.antt =====
-- When `Sandbox::parse_meta` of src/judge/sandbox.cpp lets an exception out.
use flowstudy_judge.Common.{
  Bytes, ◌≡◌, ◌⊎◌, ◌↔◌, inl, inr, List, [], ◌∷◌, Option, none, some, stoi, arith, Option-cases,
  getlines, threw,
}
use flowstudy_judge.Platform.{Platform}
use flowstudy_judge.Sandbox.{SandboxResult, fresh_result}
use flowstudy_judge.Sandbox.Meta.{
  MetaKey, time, time_wall, max_rss, cg_mem, exitcode, status, exitsig, killed, other,
  split_meta_line, set_field, milliseconds, parse_line, parse_lines, parse_meta,
}

module _ (p : Platform) where
  -- The key wants a number, and the value does not begin with one that fits.
  abbrev pub Unreadable : MetaKey → Bytes → Type 0
  Unreadable time val = p.stod val ≡ none
  Unreadable time_wall val = p.stod val ≡ none
  Unreadable max_rss val = stoi val ≡ none
  Unreadable cg_mem val = stoi val ≡ none
  Unreadable exitcode val = stoi val ≡ none
  Unreadable status val = ⊥
  Unreadable exitsig val = stoi val ≡ none
  Unreadable killed val = ⊥
  Unreadable other val = ⊥

  abbrev pub BadLine : Option (MetaKey × Bytes) → Type 0
  BadLine none = ⊥
  BadLine (some (key, val)) = Unreadable key val

  -- Some line of the file is such a line.
  abbrev pub HasUnreadable : List Bytes → Type 0
  HasUnreadable [] = ⊥
  HasUnreadable (l ∷ ls) = BadLine (split_meta_line l) ⊎ HasUnreadable ls

  set_field-eq-none :
      (key : MetaKey) (val : Bytes) (r : SandboxResult)
      → (set_field p key val r ≡ none) ↔ Unreadable key val
  unfolding set_field milliseconds
  set_field-eq-none time val r = ground arith
  set_field-eq-none _ val r = ground arith

  parse_line-eq-none :
      (l : Bytes) (r : SandboxResult) → (parse_line p l r ≡ none) ↔ BadLine (split_meta_line l)
  unfolding parse_line
  parse_line-eq-none l r = elim (Option-cases (split_meta_line l)) [
    | inl e ↦ ground arith
    | inr ((key, val), e) ↦ ground (arith, set_field-eq-none key val r)
  ]

  parse_lines-eq-none :
      (ls : List Bytes) (r : SandboxResult) → (parse_lines p ls r ≡ none) ↔ HasUnreadable ls
  unfolding parse_lines
  parse_lines-eq-none [] r = ground arith
  parse_lines-eq-none (l ∷ ls) r =
      let (to, from) = parse_line-eq-none l r in
      elim (Option-cases (parse_line p l r)) [
        | inl e ↦ (λ _. inl (to e), λ _. rw e)
        | inr (q, e) ↦
            let ih = parse_lines-eq-none ls q in
            rw e (λ h. inr (ih.0 h), elim [ inl bad ↦ absurd (cc (from bad)) | inr bad ↦ ih.1 bad ])
      ]

  -- If the meta file can be read, then an exception leaves `parse_meta` exactly if the file has a
  -- line with a key that wants a number and a value that `std::stod` or `std::stoi` refuses; the
  -- world is as before.
  pub parse_meta-threw_iff :
      (meta_path content : Bytes) (w : p.World)
      → p.read meta_path w ≡ some content
      → (parse_meta p meta_path w ≡ threw w) ↔ HasUnreadable (getlines content)
  unfolding parse_meta
  parse_meta-threw_iff meta_path content w readable =
      ground (arith, parse_lines-eq-none (getlines content) fresh_result)
