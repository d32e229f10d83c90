-- ===== src/Judge/BoxPool/Waiting.antt =====
-- Threads that wait for a box of the pool of src/judge/judge_engine.cpp: the condition variable of
-- `acquire`, and `notify_one` of `release`.
use flowstudy_judge.Common.{
  ℕ, suc, ◌+◌, ◌-◌, ◌≤◌, ◌==◌, ℤ, ◌≡◌, ◌≢◌, ◌⊎◌, inl, inr, refl, ap, ◌∙◌, arith, List, [], ◌∷◌,
  ◌++◌, length, if◌then◌else◌, done, hung, append-nil,
}
use flowstudy_judge.Judge.BoxPool.{BoxPool, acquire, release}

-- The pool, the boxes that threads hold, the number of threads that sleep on the condition variable,
-- and of those that have been woken and do not have the mutex yet.
pub record Threads : Type 0 where
  pub pool : BoxPool
  pub held : List ℤ
  pub sleeping : ℕ
  pub woken : ℕ

abbrev threads : BoxPool → List ℤ → ℕ → ℕ → Threads
threads pool held sleeping woken = record {
  pool = pool;
  held = held;
  sleeping = sleeping;
  woken = woken;
}

-- What one thread does while it has the mutex.
pub data Turn : Threads → Threads → Type 0 where
  -- A call of `acquire` finds a box, or none.
  takes :
      {pool pool' : BoxPool} {held : List ℤ} {sleeping woken : ℕ} {id : ℤ}
      → acquire pool ≡ done id pool'
      → Turn (threads pool held sleeping woken) (threads pool' (id ∷ held) sleeping woken)
  sleeps :
      {pool : BoxPool} {held : List ℤ} {sleeping woken : ℕ}
      → acquire pool ≡ hung pool
      → Turn (threads pool held sleeping woken) (threads pool held (suc sleeping) woken)
  -- A thread that has been woken looks again.
  takes_now :
      {pool pool' : BoxPool} {held : List ℤ} {sleeping woken : ℕ} {id : ℤ}
      → acquire pool ≡ done id pool'
      → Turn (threads pool held sleeping (suc woken)) (threads pool' (id ∷ held) sleeping woken)
  sleeps_again :
      {pool : BoxPool} {held : List ℤ} {sleeping woken : ℕ}
      → acquire pool ≡ hung pool
      → Turn (threads pool held sleeping (suc woken)) (threads pool held (suc sleeping) woken)
  -- A condition variable may wake a thread for no reason.
  stirs :
      {pool : BoxPool} {held : List ℤ} {sleeping woken : ℕ}
      → Turn (threads pool held (suc sleeping) woken) (threads pool held sleeping (suc woken))
  -- A call of `release` wakes one of the threads that sleep.
  gives_back :
      {pool pool' : BoxPool} {sleeping woken : ℕ} (before after : List ℤ) (id : ℤ)
      → release id pool ≡ done tt pool'
      → Turn (threads pool (before ++ id ∷ after) sleeping woken) (
          threads pool'
            (before ++ after)
            (sleeping - 1)
            (if sleeping == 0 then woken else suc woken))

pub data Turns : Threads → Threads → Type 0 where
  stay : {s : Threads} → Turns s s
  next : {s t u : Threads} → Turn s t → Turns t u → Turns s u

-- While a thread sleeps, a woken thread is on its way to every free box.
abbrev IsAwake : Threads → Type 0
IsAwake s = 1 ≤ s.sleeping → length s.pool.available ≤ s.woken

abbrev total : Threads → ℕ
total s = length s.pool.available + length s.held

acquire-done :
    (pool pool' : BoxPool) (id : ℤ)
    → acquire pool ≡ done id pool'
    → pool.available ≡ id ∷ pool'.available
unfolding acquire
acquire-done pool pool' id e = go pool.available refl
  where
    go : (av : List ℤ) → pool.available ≡ av → pool.available ≡ id ∷ pool'.available
    go [] a = absurd (cc (rw a at e))
    go (x ∷ xs) a = ground arith

acquire-hung : (pool : BoxPool) → acquire pool ≡ hung pool → pool.available ≡ []
unfolding acquire
acquire-hung pool e = go pool.available refl
  where
    go : (av : List ℤ) → pool.available ≡ av → pool.available ≡ []
    go [] a = a
    go (x ∷ xs) a = absurd (cc (rw a at e))

length-append_one : (xs ys : List ℤ) (x : ℤ) → length (xs ++ x ∷ ys) ≡ suc (length (xs ++ ys))
length-append_one [] ys x = refl
length-append_one (z ∷ zs) ys x = ap suc (length-append_one zs ys x)

release-done :
    (pool pool' : BoxPool) (id : ℤ)
    → release id pool ≡ done tt pool'
    → length pool'.available ≡ suc (length pool.available)
unfolding release
release-done pool pool' id e =
    let same : pool'.available ≡ pool.available ++ id ∷ [] = ground arith in
    ap length same
    ∙ length-append_one pool.available [] id
    ∙ ap (λ xs. suc (length xs)) (append-nil _)

Turn-IsAwake : {s t : Threads} → Turn s t → IsAwake s → IsAwake t
Turn-IsAwake (takes {pool} {pool'} {id = id} e) h one =
    let k = ap length (acquire-done pool pool' id e) in let few = h one in omega arith
Turn-IsAwake (sleeps {pool} e) h one = let k = ap length (acquire-hung pool e) in omega arith
Turn-IsAwake (takes_now {pool} {pool'} {id = id} e) h one =
    let k = ap length (acquire-done pool pool' id e) in let few = h one in omega arith
Turn-IsAwake (sleeps_again {pool} e) h one = let k = ap length (acquire-hung pool e) in omega arith
Turn-IsAwake stirs h one = let few = h (omega arith) in omega arith
Turn-IsAwake (gives_back {pool} {pool'} before after id e) h one =
    let k = release-done pool pool' id e in let few = h (omega arith) in ground arith

-- No box is lost or made.
Turn-total : {s t : Threads} → Turn s t → total t ≡ total s
Turn-total (takes {pool} {pool'} {id = id} e) =
    let k = ap length (acquire-done pool pool' id e) in omega arith
Turn-total (sleeps e) = refl
Turn-total (takes_now {pool} {pool'} {id = id} e) =
    let k = ap length (acquire-done pool pool' id e) in omega arith
Turn-total (sleeps_again e) = refl
Turn-total stirs = refl
Turn-total (gives_back {pool} {pool'} before after id e) =
    let k = release-done pool pool' id e in
    let k' = length-append_one before after id in omega arith

Turns-kept : {s t : Threads} → Turns s t → IsAwake s → IsAwake t × (total t ≡ total s)
Turns-kept stay h = (h, refl)
Turns-kept (next turn turns) h =
    let (awake, same) = Turns-kept turns (Turn-IsAwake turn h) in (awake, same ∙ Turn-total turn)

nonempty : (xs : List ℤ) → 1 ≤ length xs → xs ≢ []
nonempty [] h e = absurd (omega arith)
nonempty (x ∷ xs) h e = absurd (cc e)

-- No wake-up is lost. However the calls of any number of threads interleave from a time at which no
-- thread sleeps and there is a box, free or held: if a thread sleeps, then either a box is free, and at
-- least as many threads as there are free boxes have been woken to take one, or some thread holds a box
-- and will wake a sleeper when it gives it back.
pub Turns-progress :
    (s t : Threads)
    → Turns s t
    → s.sleeping ≡ 0
    → 1 ≤ total s
    → 1 ≤ t.sleeping
    → ((t.pool.available ≢ []) × (length t.pool.available ≤ t.woken)) ⊎ (t.held ≢ [])
Turns-progress s t turns none_sleeps some_box one =
    let (awake, same) = Turns-kept turns (λ one. absurd (omega arith)) in
    go t.pool.available (awake one) (omega arith)
  where
    go :
        (av : List ℤ)
        → length av ≤ t.woken
        → 1 ≤ length av + length t.held
        → ((av ≢ []) × (length av ≤ t.woken)) ⊎ (t.held ≢ [])
    go [] few some_left = inr (nonempty t.held (omega arith))
    go (x ∷ xs) few some_left = inl ((λ e. absurd (cc e)), few)
