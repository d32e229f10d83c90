-- ===== src/Judge/BoxPool/Kept.antt =====
-- What calls that end leave of the pool of src/judge/judge_engine.cpp.
use mathlib.Core.List.{Perm}
use mathlib.Core.List.Perm
use flowstudy_judge.Common.{
  ℤ, ◌⊎◌, inl, inr, ◌≡◌, refl, sym, ◌∙◌, subst, [], ◌∷◌, M, ◌>>=◌, Outcome, done, threw, hung,
}
use flowstudy_judge.Judge.BoxPool.{BoxPool}

module _ {S : Type 0} (pool_of : S → BoxPool) where
  -- From the pool `q`: a call that returns leaves the same free boxes, in some order; an exception that
  -- leaves it has lost one of them, or none; and it only blocks where no box was free. The sandboxes stay.
  abbrev pub Kept : {A : Type 0} → BoxPool → Outcome S A → Type 0
  Kept q (done a s) = ((pool_of s).boxes ≡ q.boxes) × Perm q.available (pool_of s).available
  Kept q (threw s) =
      ((pool_of s).boxes ≡ q.boxes)
      × (Perm q.available (pool_of s).available
          ⊎ ((lost : ℤ) × Perm q.available (lost ∷ (pool_of s).available)))
  Kept q (hung s) =
      ((pool_of s).boxes ≡ q.boxes) × (q.available ≡ []) × ((pool_of s).available ≡ [])

  Kept-trans :
      {A : Type 0} (q q' : BoxPool) (o : Outcome S A)
      → q'.boxes ≡ q.boxes
      → Perm q.available q'.available
      → Kept q' o
      → Kept q o
  Kept-trans q q' (done a s) e p (b, h) = (b ∙ e, Perm.trans p h)
  Kept-trans q q' (threw s) e p (b, inl h) = (b ∙ e, inl (Perm.trans p h))
  Kept-trans q q' (threw s) e p (b, inr (lost, h)) = (b ∙ e, inr (lost, Perm.trans p h))
  Kept-trans q q' (hung s) e p (b, h, h') = (b ∙ e, Perm.eq-nil (subst (Perm q.available) h p), h')

  pub >>=-Kept :
      {A B : Type 0} (q : BoxPool) (m : M S A) (f : A → M S B) (s : S)
      → Kept q (m s)
      → ((a : A) (t : S) → Kept (pool_of t) (f a t))
      → Kept q (◌>>=◌ m f s)
  >>=-Kept {A} {B} q m f s h k = go (m s) h
    where
      go : (o : Outcome S A) → Kept q o → Kept q (◌>>=◌ (λ _. o) f s)
      go (done a t) (e, p) = Kept-trans q (pool_of t) (f a t) e p (k a t)
      go (threw t) h = h
      go (hung t) h = h

  -- A call that returns with the pool as it was.
  pub same-Kept :
      {A : Type 0} (q : BoxPool) (o : Outcome S A) (a : A) (t : S)
      → o ≡ done a t
      → pool_of t ≡ q
      → Kept q o
  same-Kept q o a t e same = subst (Kept q) (sym e) (
      subst (λ (x : BoxPool). (x.boxes ≡ q.boxes) × Perm q.available x.available) (sym same)
        (refl, Perm.refl q.available))

  -- An exception that leaves the pool as it was.
  pub thrown-Kept : (A : Type 0) (q : BoxPool) (t : S) → pool_of t ≡ q → Kept {A = A} q (threw t)
  thrown-Kept A q t same =
      subst
        (λ (x : BoxPool).
          (x.boxes ≡ q.boxes)
          × (Perm q.available x.available ⊎ ((lost : ℤ) × Perm q.available (lost ∷ x.available))))
        (sym same) (refl, inl (Perm.refl q.available))
