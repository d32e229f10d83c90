-- ===== src/Judge/BoxPool/Tests.antt =====
-- Instances for the pool of src/judge/judge_engine.cpp: two threads, two boxes.
use flowstudy_judge.Common.{
  ℤ, pos, ◌≡◌, refl, List, [], ◌∷◌, ◌++◌, done, Outcome, ◌≢◌, ◌≤◌, ◌⊎◌, length, arith,
}
use flowstudy_judge.Config.{default_config}
use flowstudy_judge.Platform.Scripted.{Machine, scripted, machine}
use flowstudy_judge.Judge.BoxPool.{BoxPool, acquire, release, new_box_pool}
use flowstudy_judge.Judge.BoxPool.Sharing.{
  Shared, Steps, stay, next, takes, gives_back, total, IsExclusive, Steps-IsExclusive,
}
use flowstudy_judge.Judge.BoxPool.Fifo.{taken, given, Steps-fifo}
use flowstudy_judge.Judge.BoxPool.Waiting.{Threads, Turn, sleeps, Turns, Turns-progress}
use flowstudy_judge.Judge.BoxPool.Fresh.{new_box_pool-IsExclusive}

abbrev shared : List ℤ → List ℤ → Shared
shared available held = record { pool = record { available = available; boxes = [] }; held = held }

abbrev before : Shared
before = shared (pos 1 ∷ pos 2 ∷ []) []

abbrev after : Shared
after = shared (pos 1 ∷ []) (pos 2 ∷ [])

interleaving : Steps before after
unfolding acquire release
interleaving =
    next (takes {id = pos 1} refl)
      (next (takes {id = pos 2} refl) (next (gives_back (pos 2 ∷ []) [] (pos 1) refl) stay))

Steps-IsExclusive_example :
    ((id : ℤ) → total id after ≡ total id before) × (IsExclusive before → IsExclusive after)
Steps-IsExclusive_example = Steps-IsExclusive before after interleaving

Steps-fifo_example :
    before.pool.available ++ given interleaving ≡ taken interleaving ++ after.pool.available
Steps-fifo_example = Steps-fifo before after interleaving

abbrev pool_of : Outcome Machine BoxPool → BoxPool
pool_of (done q w) = q
pool_of _ = record { available = []; boxes = [] }

abbrev world_of : Outcome Machine BoxPool → Machine
world_of (done q w) = w
world_of _ = machine []

-- Of three boxes the second cannot be initialised.
abbrev opening : Outcome Machine BoxPool
opening =
    new_box_pool scripted default_config.isolate (pos 3)
      (machine ((pos 0, []) ∷ (pos 1, []) ∷ (pos 0, []) ∷ []))

two_are_ready : (pool_of opening).available ≡ pos 1 ∷ pos 3 ∷ []
unfolding new_box_pool
two_are_ready = refl

new_box_pool-IsExclusive_example : IsExclusive (record { pool = pool_of opening; held = [] })
unfolding new_box_pool
new_box_pool-IsExclusive_example =
    new_box_pool-IsExclusive scripted default_config.isolate (pos 3)
      (machine ((pos 0, []) ∷ (pos 1, []) ∷ (pos 0, []) ∷ [])) (world_of opening) (pool_of opening)
      refl

-- One thread takes the only box, and another one sleeps.
abbrev idle : Threads
idle = record {
  pool = record { available = pos 1 ∷ []; boxes = [] };
  held = [];
  sleeping = 0;
  woken = 0;
}

abbrev waiting : Threads
waiting = record {
  pool = record { available = []; boxes = [] };
  held = pos 1 ∷ [];
  sleeping = 1;
  woken = 0;
}

comes_to_wait : Turns idle waiting
unfolding acquire
comes_to_wait = Turns.next (Turn.takes refl) (Turns.next (sleeps refl) Turns.stay)

Turns-progress_example :
    ((waiting.pool.available ≢ []) × (length waiting.pool.available ≤ waiting.woken))
    ⊎ (waiting.held ≢ [])
Turns-progress_example = Turns-progress idle waiting comes_to_wait refl (omega arith) (omega arith)
