-- ===== src/Judge/BoxPool/Sharing.antt =====
-- Calls of `JudgeEngine::judge` in several threads that share the pool of
-- src/judge/judge_engine.cpp: every `acquire` and `release` holds the mutex, so the calls are
-- sequences of such steps, in any order.
use flowstudy_judge.Common.{
  ℕ, ◌+◌, ◌≤◌, ℤ, eqb_ℤ, ◌≡◌, refl, sym, ap, ◌∙◌, subst, arith, List, [], ◌∷◌, ◌++◌, if◌then◌else◌,
  done,
}
use flowstudy_judge.Judge.BoxPool.{BoxPool, acquire, release}

-- The pool, and the boxes that the threads hold.
pub record Shared : Type 0 where
  pub pool : BoxPool
  pub held : List ℤ

abbrev with_held : BoxPool → List ℤ → Shared
with_held pool held = record { pool = pool; held = held }

-- One thread takes a box, or gives back a box that it holds.
pub data Step : Shared → Shared → Type 0 where
  takes :
      {pool pool' : BoxPool} {held : List ℤ} {id : ℤ}
      → acquire pool ≡ done id pool'
      → Step (with_held pool held) (with_held pool' (id ∷ held))
  gives_back :
      {pool pool' : BoxPool} (before after : List ℤ) (id : ℤ)
      → release id pool ≡ done tt pool'
      → Step (with_held pool (before ++ id ∷ after)) (with_held pool' (before ++ after))

pub data Steps : Shared → Shared → Type 0 where
  stay : {s : Shared} → Steps s s
  next : {s t u : Shared} → Step s t → Steps t u → Steps s u

-- How often the id occurs.
abbrev pub count : ℤ → List ℤ → ℕ
count id [] = 0
count id (x ∷ xs) = (if eqb_ℤ id x then 1 else 0) + count id xs

pub count-append : (id : ℤ) (xs ys : List ℤ) → count id (xs ++ ys) ≡ count id xs + count id ys
count-append id [] ys = omega arith
count-append id (x ∷ xs) ys = ground (arith, count-append id xs ys)

abbrev pub total : ℤ → Shared → ℕ
total id s = count id s.pool.available + count id s.held

-- Every box is at one place at most: no box is held by two threads, or held and free.
abbrev pub IsExclusive : Shared → Type 0
IsExclusive s = (id : ℤ) → total id s ≤ 1

total-takes :
    (id x : ℤ) (pool pool' : BoxPool) (held : List ℤ)
    → acquire pool ≡ done x pool'
    → total id (with_held pool held) ≡ total id (with_held pool' (x ∷ held))
unfolding acquire
total-takes id x pool pool' held e = go pool.available refl
  where
    go :
        (av : List ℤ)
        → pool.available ≡ av
        → total id (with_held pool held) ≡ total id (with_held pool' (x ∷ held))
    go [] a = absurd (cc (rw a at e))
    go (y ∷ ys) a = ground arith

total-gives_back :
    (id x : ℤ) (pool pool' : BoxPool) (before after : List ℤ)
    → release x pool ≡ done tt pool'
    → total id (with_held pool (before ++ x ∷ after)) ≡ total id (with_held pool' (before ++ after))
unfolding release
total-gives_back id x pool pool' before after e =
    let same : pool.available ++ x ∷ [] ≡ pool'.available = ground arith in
    let there = count-append id pool.available (x ∷ []) in
    let old = count-append id before (x ∷ after) in
    let new = count-append id before after in let k = ap (count id) same in ground arith

Step-total : (id : ℤ) {s t : Shared} → Step s t → total id s ≡ total id t
Step-total id (takes {pool = pool} {pool' = pool'} {held = held} {id = x} e) =
    total-takes id x pool pool' held e
Step-total id (gives_back {pool = pool} {pool' = pool'} before after x e) =
    total-gives_back id x pool pool' before after e

-- However the calls interleave, no box is lost or made, and boxes that were exclusive stay so: a
-- box is never held by two calls, or held and free.
pub Steps-IsExclusive :
    (s t : Shared)
    → Steps s t
    → ((id : ℤ) → total id t ≡ total id s) × (IsExclusive s → IsExclusive t)
Steps-IsExclusive s t steps =
    (λ id. sym (same id steps), λ h id. subst (λ n. n ≤ 1) (same id steps) (h id))
  where
    same : (id : ℤ) {s t : Shared} → Steps s t → total id s ≡ total id t
    same id stay = refl
    same id (next step steps) = Step-total id step ∙ same id steps
