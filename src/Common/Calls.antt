-- ===== src/Common/Calls.antt =====
-- Sequences of calls that return, or that do not block.
use mathlib.Core.Path.{◌≡◌, refl}
use mathlib.Core.Logic.{◌≢◌}
use mathlib.Core.Bool.{Bool, true, false}
use flowstudy_judge.Common.Tests.{if◌then◌else◌}
use flowstudy_judge.Common.Effects.{Outcome, done, threw, hung, M, ◌>>=◌}

-- The call returned.
abbrev pub IsDone : {S A : Type 0} → Outcome S A → Type 0
IsDone (done a s) = Unit
IsDone (threw s) = ⊥
IsDone (hung s) = ⊥

-- The call returned, or an exception left it.
abbrev pub NotHung : {S A : Type 0} → Outcome S A → Type 0
NotHung (done a s) = Unit
NotHung (threw s) = Unit
NotHung (hung s) = ⊥

module _ {S A : Type 0} where
  pub IsDone-done : (o : Outcome S A) → IsDone o → (a : A) × (t : S) × (o ≡ done a t)
  IsDone-done (done a t) h = (a, t, refl)
  IsDone-done (threw t) h = absurd h
  IsDone-done (hung t) h = absurd h

  pub not_hung : (o : Outcome S A) → ((t : S) → o ≢ hung t) → NotHung o
  not_hung (done a t) h = tt
  not_hung (threw t) h = tt
  not_hung (hung t) h = h t refl

  pub if-IsDone :
      (b : Bool) (m k : M S A) (s : S)
      → IsDone (m s)
      → IsDone (k s)
      → IsDone ((if b then m else k) s)
  if-IsDone true m k s h h' = h
  if-IsDone false m k s h h' = h'

  pub >>=-IsDone :
      {B : Type 0} (m : M S A) (f : A → M S B) (s : S)
      → IsDone (m s)
      → ((a : A) (t : S) → IsDone (f a t))
      → IsDone (◌>>=◌ m f s)
  >>=-IsDone {B} m f s h k = go (m s) h
    where
      go : (o : Outcome S A) → IsDone o → IsDone (◌>>=◌ (λ _. o) f s)
      go (done a t) h = k a t
      go (threw t) h = h
      go (hung t) h = h

  pub if-NotHung :
      (b : Bool) (m k : M S A) (s : S)
      → NotHung (m s)
      → NotHung (k s)
      → NotHung ((if b then m else k) s)
  if-NotHung true m k s h h' = h
  if-NotHung false m k s h h' = h'

  pub >>=-NotHung :
      {B : Type 0} (m : M S A) (f : A → M S B) (s : S)
      → NotHung (m s)
      → ((a : A) (t : S) → NotHung (f a t))
      → NotHung (◌>>=◌ m f s)
  >>=-NotHung {B} m f s h k = go (m s) h
    where
      go : (o : Outcome S A) → NotHung o → NotHung (◌>>=◌ (λ _. o) f s)
      go (done a t) h = k a t
      go (threw t) h = tt
      go (hung t) h = h
