-- ===== src/Worker/Attempts.antt =====
-- The connection loops of `Worker::run` of src/worker/worker.cpp, and what each attempt keeps.
use flowstudy_judge.Common.{
  ℕ, zero, suc, ◌≤◌, ◌+◌, ◌==◌, ◌⊎◌, inl, arith, ap₂, if◌then◌else◌, All, some, none, Bool, true,
  false, ◌≡◌, refl, ap, ◌∙◌, List, [], ◌∷◌, Option, M, done, return, >>=-done,
}
use flowstudy_judge.Worker.Loops.{schedule}
use flowstudy_judge.Worker.Run.{retry, after_attempt, retry_delay}

-- What the readings of `running_` have been where a loop ends so: none of them was false if it still
-- tries.
abbrev pub Read : List Bool → Option Bool → Type 0
Read readings none = All (λ b. b ≡ true) readings
Read readings (some _) = Unit

later-Read : (readings : List Bool) (r : Option Bool) → Read readings r → Read (true ∷ readings) r
later-Read readings none h = (refl, h)
later-Read readings (some _) h = tt

-- A loop of attempts ends, and keeps what each attempt keeps.
module _ {S : Type 0} (P : S → Type 0) (connect : M S Bool)
    (attempts : (s : S) → P s → (b : Bool) × (t : S) × (connect s ≡ done b t) × P t) where
  pub retry_keeps :
      (readings : List Bool) (retries : ℕ) (s : S)
      → P s
      → (r : Option Bool × List ℕ) × (t : S) × (retry connect readings retries s ≡ done r t)
        × P t
        × Read readings r.0
  unfolding retry
  retry_keeps [] retries s k = (_, s, refl, k, tt)
  retry_keeps (false ∷ readings) retries s k = (_, s, refl, k, tt)
  retry_keeps (true ∷ readings) retries s k =
      let (b, t, e, k') = attempts s k in
      attempted b t e k' (λ t k. retry_keeps readings (suc retries) t k)
    where
      more : M S (Option Bool × List ℕ)
      more = retry connect readings (suc retries)

      attempted :
          (b : Bool) (t : S)
          → connect s ≡ done b t
          → P t
          → ((t : S)
              → P t
              → (r : Option Bool × List ℕ) × (u : S) × (more t ≡ done r u)
                × P u
                × Read readings r.0)
          → (r : Option Bool × List ℕ) × (u : S) × (after_attempt more
                (retry_delay (suc retries))
                (connect s)
              ≡ done r u)
            × P u
            × Read (true ∷ readings) r.0
      attempted true t e k' ih =
          (_, t, ap (after_attempt more (retry_delay (suc retries))) e, k', tt)
      attempted false t e k' ih =
          let delay = retry_delay (suc retries) in
          let (r, u, ends, kept, read) = ih t k' in
          (
            _,
            u,
            ap (after_attempt more delay) e ∙ >>=-done more (λ r. return (r.0, delay ∷ r.1)) t ends,
            kept,
            later-Read readings r.0 read,
          )

-- `running_` is read as true this often, and then so.
abbrev pub running_for : ℕ → List Bool → List Bool
running_for zero readings = readings
running_for (suc n) readings = true ∷ running_for n readings

-- `n` delays from `delay` on: each is 2 seconds longer than the one before, until 30 is reached.
abbrev pub backoff : ℕ → ℕ → List ℕ
backoff delay zero = []
backoff delay (suc n) = delay ∷ backoff (if delay == 30 then 30 else delay + 2) n

schedule-backoff :
    (n retries delay : ℕ)
    → (delay ≡ retries + retries + 2) ⊎ ((delay ≡ 30) × (14 ≤ retries))
    → (delay ≤ 30)
    → schedule retries n ≡ backoff delay n
unfolding retry_delay
schedule-backoff zero retries delay h bound = refl
schedule-backoff (suc n) retries delay h bound =
    let this : retry_delay (suc retries) ≡ delay = ground arith in
    ap₂ ◌∷◌ this (
      schedule-backoff n (suc retries) (if delay == 30 then 30 else delay + 2) (ground arith)
        (ground arith))

module _ {S : Type 0} (connect : M S Bool) where
  -- From `s`, this many attempts fail, and the next one connects and ends in `t`.
  pub data ConnectsAfter : ℕ → S → S → Type 0 where
    at_once : {s t : S} → connect s ≡ done true t → ConnectsAfter zero s t
    fails_first :
        {n : ℕ} {s u t : S}
        → connect s ≡ done false u
        → ConnectsAfter n u t
        → ConnectsAfter (suc n) s t

  retry-connects_from :
      (n : ℕ) {s t : S} (readings : List Bool) (retries : ℕ)
      → ConnectsAfter n s t
      → retry connect (running_for (suc n) readings) retries s
        ≡ done (some true, schedule retries n) t
  unfolding retry
  retry-connects_from zero {s} {t} readings retries (at_once e) =
      ap (after_attempt (retry connect readings (suc retries)) (retry_delay (suc retries))) e
  retry-connects_from (suc n) {s} {t} readings retries (fails_first {u = u} e later) =
      let more = retry connect (running_for (suc n) readings) (suc retries) in
      let delay = retry_delay (suc retries) in
      ap (after_attempt more delay) e
      ∙ >>=-done more (λ r. return (r.0, delay ∷ r.1)) u
          (retry-connects_from n readings (suc retries) later)

  -- If `n` attempts fail, the next one connects, and the worker is not told to stop before, then the
  -- connection loop ends connected, after the first `n` of the delays 2, 4, 6, and so on by 2 up to 30,
  -- and 30 seconds each from then on.
  pub retry-connects :
      (n : ℕ) (s t : S) (readings : List Bool)
      → ConnectsAfter n s t
      → retry connect (running_for (suc n) readings) 0 s ≡ done (some true, backoff 2 n) t
  retry-connects n s t readings h =
      retry-connects_from n readings 0 h
      ∙ ap (λ ds. done (some true, ds) t) (schedule-backoff n 0 2 (inl refl) (omega arith))
