-- ===== src/Judge/BoxPool.antt =====
-- The pool of sandboxes, `JudgeEngine::BoxPool` of src/judge/judge_engine.cpp. The calls of
-- `acquire` and `release` hold the mutex, so each is one step on the queue.
pub mod Sharing
pub mod Fresh
pub mod Fifo
pub mod Waiting
pub mod Kept
pub mod Opened
mod Tests
use flowstudy_judge.Common.{
  ℕ, zero, suc, ℤ, pos, pos_part, ◌+ℤ◌, Bool, List, [], ◌∷◌, ◌++◌, if◌then◌else◌, M, done, hung,
  return, ◌>>=◌, ◌>>◌,
}
use flowstudy_judge.Config.{IsolateConfig}
use flowstudy_judge.Platform.{Platform}
use flowstudy_judge.Sandbox.{Sandbox, new_sandbox}
use flowstudy_judge.Sandbox.Command.{init, cleanup}

-- The front of the queue is the head of `available`.
pub record BoxPool : Type 0 where
  pub available : List ℤ
  pub boxes : List Sandbox

-- The wait on the condition variable never ends where nobody else releases a box.
unfoldable pub acquire : M BoxPool ℤ
acquire pool = elim pool.available [
  | [] ↦ hung pool
  | id ∷ rest ↦ done id (record pool { available = rest })
]

unfoldable pub release : ℤ → M BoxPool (Unit {0})
release box_id pool = done tt (record pool { available = pool.available ++ box_id ∷ [] })

module _ (p : Platform) where
  abbrev add_box : Sandbox → BoxPool → Bool → BoxPool
  add_box box pool ready =
      if ready
      then (record {
        available = pool.available ++ box.box_id ∷ [];
        boxes = pool.boxes ++ box ∷ [];
      })
      else pool

  -- The constructor's loop, with `n` rounds left.
  unfoldable pub open_boxes : IsolateConfig → ℕ → ℕ → BoxPool → M p.World BoxPool
  open_boxes cfg zero i pool = return pool
  open_boxes cfg (suc n) i pool =
      let box = new_sandbox (cfg.box_id_start +ℤ pos i) cfg in
      ◌>>=◌ (init p box) λ ready. open_boxes cfg n (suc i) (add_box box pool ready)

  unfoldable pub new_box_pool : IsolateConfig → ℤ → M p.World BoxPool
  unfolding open_boxes init new_sandbox ◌+ℤ◌
  new_box_pool cfg count = open_boxes cfg (pos_part count) 0 (record { available = []; boxes = [] })

  -- The destructor's loop over `boxes_`.
  unfoldable pub close_boxes : List Sandbox → M p.World (Unit {0})
  close_boxes [] = return tt
  close_boxes (box ∷ boxes) = cleanup p box >> close_boxes boxes
