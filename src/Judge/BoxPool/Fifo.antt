-- ===== src/Judge/BoxPool/Fifo.antt =====
-- The pool of src/judge/judge_engine.cpp as a queue.
use flowstudy_judge.Common.{
  ℤ, ◌≡◌, refl, sym, ap, ◌∙◌, arith, List, [], ◌∷◌, ◌++◌, append_assoc, append-nil, done,
}
use flowstudy_judge.Judge.BoxPool.{BoxPool, acquire, release}
use flowstudy_judge.Judge.BoxPool.Sharing.{Shared, Step, takes, gives_back, Steps, stay, next}

-- The boxes that the calls take, and those that they give back, in the order of the calls.
abbrev taken_by : {s t : Shared} → Step s t → List ℤ
taken_by (takes {id = id} e) = id ∷ []
taken_by (gives_back before after id e) = []

abbrev given_by : {s t : Shared} → Step s t → List ℤ
given_by (takes e) = []
given_by (gives_back before after id e) = id ∷ []

abbrev pub taken : {s t : Shared} → Steps s t → List ℤ
taken stay = []
taken (next step steps) = taken_by step ++ taken steps

abbrev pub given : {s t : Shared} → Steps s t → List ℤ
given stay = []
given (next step steps) = given_by step ++ given steps

acquire-front :
    (pool pool' : BoxPool) (id : ℤ)
    → acquire pool ≡ done id pool'
    → pool.available ≡ id ∷ pool'.available
unfolding acquire
acquire-front pool pool' id e = go pool.available refl
  where
    go : (av : List ℤ) → pool.available ≡ av → pool.available ≡ id ∷ pool'.available
    go [] a = absurd (cc (rw a at e))
    go (y ∷ ys) a = ground arith

release-back :
    (pool pool' : BoxPool) (id : ℤ)
    → release id pool ≡ done tt pool'
    → pool'.available ≡ pool.available ++ id ∷ []
unfolding release
release-back pool pool' id e = ground arith

Step-fifo :
    {s t : Shared} (step : Step s t)
    → s.pool.available ++ given_by step ≡ taken_by step ++ t.pool.available
Step-fifo (takes {pool = pool} {pool' = pool'} {id = id} e) =
    append-nil pool.available ∙ acquire-front pool pool' id e
Step-fifo (gives_back {pool = pool} {pool' = pool'} before after id e) =
    sym (release-back pool pool' id e)

-- However the calls interleave, the boxes that were free at the start, followed by those that have been given
-- back, are the boxes that have been taken, followed by those that are free at the end, in this order:
-- a box that is given back is taken again only after every box that was free before it.
pub Steps-fifo :
    (s t : Shared) (steps : Steps s t)
    → s.pool.available ++ given steps ≡ taken steps ++ t.pool.available
Steps-fifo s t steps = go steps
  where
    go :
        {s t : Shared} (steps : Steps s t)
        → s.pool.available ++ given steps ≡ taken steps ++ t.pool.available
    go {s} stay = append-nil s.pool.available
    go {s} {t = u} (next {t = t} step steps) =
        sym (append_assoc s.pool.available (given_by step) (given steps))
        ∙ ap (λ x. x ++ given steps) (Step-fifo step)
        ∙ append_assoc (taken_by step) t.pool.available (given steps)
        ∙ ap (λ x. taken_by step ++ x) (go steps)
        ∙ sym (append_assoc (taken_by step) (taken steps) u.pool.available)
