-- ===== src/Config/Fields.antt =====
-- One setting of src/config/config.cpp, as it is read from the file.
use flowstudy_judge.Common.{
  Bytes, Bool, true, false, ℤ, ◌≡◌, refl, sym, subst, ap, ◌⊎◌, inl, inr, ◌↔◌, arith, Option, none,
  some, and_then, if◌then◌else◌,
}
use flowstudy_judge.Config.Load.{string_field, int_field}
use flowstudy_judge.Json.{JsonLib}
use flowstudy_judge.Config.Settings.{Under, StringUnder, IntUnder}

pub and_then_iff :
    {A B : Type 0} (o : Option A) (f : A → Option B) (b : B)
    → (and_then o f ≡ some b) ↔ ((a : A) × (o ≡ some a) × (f a ≡ some b))
and_then_iff none f b = (λ e. absurd cc, λ (a, e, h). absurd cc)
and_then_iff (some a) f b = (λ e. (a, refl, e), λ (x, e, h). ground (arith, h))

module _ (l : JsonLib) where
  pub field-Under :
      {A : Type 0} (load : l.Json → Option A) (Reads : l.Json → A → Type 0)
      → ((v : l.Json) (a : A) → (load v ≡ some a) ↔ Reads v a)
      → (j : l.Json) (key : Bytes) (old new : A)
      → ((if l.contains j key then and_then (l.at j key) load else some old) ≡ some new)
        ↔ Under l Reads j key old new
  field-Under {A} load Reads iff j key old new = go (l.contains j key) (l.at j key)
    where
      go :
          (b : Bool) (o : Option l.Json)
          → ((if b then and_then o load else some old) ≡ some new) ↔ (
              ((b ≡ false) × (new ≡ old))
              ⊎ ((v : l.Json) × (b ≡ true) × (o ≡ some v) × Reads v new))
      go false o = (
        λ e. inl (refl, ground arith),
        elim [ inl (_, e) ↦ ap some (sym e) | inr (v, t, _, _) ↦ absurd cc ],
      )
      go true none =
          (λ e. absurd cc, elim [ inl (t, _) ↦ absurd cc | inr (v, _, t, _) ↦ absurd cc ])
      go true (some u) = (
        λ e. inr (u, refl, refl, (iff u new).0 e),
        elim [
          | inl (t, _) ↦ absurd cc
          | inr (v, _, e, reads) ↦
              let same : v ≡ u = ground arith in (iff u new).1 (subst (λ x. Reads x new) same reads)
        ],
      )

  itself :
      {A : Type 0} (get : l.Json → Option A) (v : l.Json) (a : A)
      → (get v ≡ some a) ↔ (get v ≡ some a)
  itself get v a = (λ e. e, λ e. e)

  pub string_field-Under :
      (j : l.Json) (key old new : Bytes)
      → (string_field l j key old ≡ some new) ↔ StringUnder l j key old new
  unfolding string_field
  string_field-Under =
      field-Under l.get_string (λ v s. l.get_string v ≡ some s) (itself l.get_string)

  pub int_field-Under :
      (j : l.Json) (key : Bytes) (old new : ℤ)
      → (int_field l j key old ≡ some new) ↔ IntUnder l j key old new
  unfolding int_field
  int_field-Under = field-Under l.get_int (λ v n. l.get_int v ≡ some n) (itself l.get_int)
