-- ===== src/Judge/BoxPool/Opened.antt =====
-- The constructor and the destructor of `JudgeEngine::BoxPool` in src/judge/judge_engine.cpp: they
-- return, and the free boxes of a new pool are its sandboxes.
use flowstudy_judge.Common.{
  ℕ, zero, suc, ℤ, pos, pos_part, ◌+ℤ◌, Bool, true, false, ◌≡◌, refl, sym, ap, ◌∙◌, List, [], ◌∷◌,
  ◌++◌, ◌>>=◌, subst, append-nil, append_assoc, map, map-append, done, IsDone, IsDone-done,
  if-IsDone, bytes, to_string_ℤ, eqb_ℤ, not, return, call, ◌>>◌, >>=-done,
}
use flowstudy_judge.Config.{IsolateConfig}
use flowstudy_judge.Platform.{Platform}
use flowstudy_judge.Sandbox.{Sandbox, new_sandbox}
use flowstudy_judge.Sandbox.Command.{init, cleanup}
use flowstudy_judge.Judge.BoxPool.{BoxPool, add_box, open_boxes, new_box_pool, close_boxes}

-- The free boxes are the sandboxes of the pool, in their order.
abbrev pub IsAllFree : BoxPool → Type 0
IsAllFree pool = pool.available ≡ map (λ box. box.box_id) pool.boxes

module _ (p : Platform) (cfg : IsolateConfig) where
  -- The `n` sandboxes with the ids from the `i`-th on are initialised one after the other, from the world
  -- `w` to `w'`; these are the ones whose initialisation succeeds.
  pub data Initialises : ℕ → ℕ → p.World → p.World → List Sandbox → Type 0 where
    all_tried : {i : ℕ} {w : p.World} → Initialises zero i w w []
    succeeds :
        {n i : ℕ} {w u w' : p.World} {ready : List Sandbox}
        → init p (new_sandbox (cfg.box_id_start +ℤ pos i) cfg) w ≡ done true u
        → Initialises n (suc i) u w' ready
        → Initialises (suc n) i w w' (new_sandbox (cfg.box_id_start +ℤ pos i) cfg ∷ ready)
    fails :
        {n i : ℕ} {w u w' : p.World} {ready : List Sandbox}
        → init p (new_sandbox (cfg.box_id_start +ℤ pos i) cfg) w ≡ done false u
        → Initialises n (suc i) u w' ready
        → Initialises (suc n) i w w' ready

  add_box-IsAllFree :
      (box : Sandbox) (pool : BoxPool) (ready : Bool)
      → IsAllFree pool
      → IsAllFree (add_box p box pool ready)
  add_box-IsAllFree box pool false h = h
  add_box-IsAllFree box pool true h =
      ap (λ ids. ids ++ box.box_id ∷ []) h
      ∙ sym (map-append (λ (b : Sandbox). b.box_id) pool.boxes (box ∷ []))

  init-done :
      (sb : Sandbox) (w : p.World) → (ready : Bool) × (w' : p.World) × (init p sb w ≡ done ready w')
  unfolding init
  init-done sb w =
      let command = sb.isolate_bin ++ (bytes " --init --box-id=" ++ to_string_ℤ sb.box_id) in
      let (ret, u) = p.system command w in
      IsDone-done (init p sb w) (
        if-IsDone (not (eqb_ℤ ret (pos 0))) (return false)
          (call (p.mkdir sb.box_path) >> return true) u tt tt)

  -- What the loop adds to this pool.
  abbrev Opens : ℕ → ℕ → BoxPool → p.World → Type 0
  Opens n i pool w =
      (pool' : BoxPool) × (w' : p.World) × (open_boxes p cfg n i pool w ≡ done pool' w')
      × IsAllFree pool'
      × ((ready : List Sandbox) × (pool'.boxes ≡ pool.boxes ++ ready) × Initialises n i w w' ready)

  open_boxes-Opens : (n i : ℕ) (pool : BoxPool) (w : p.World) → IsAllFree pool → Opens n i pool w
  unfolding open_boxes
  open_boxes-Opens zero i pool w h =
      (pool, w, refl, h, ([], sym (append-nil pool.boxes), all_tried))
  open_boxes-Opens (suc n) i pool w h =
      let box = new_sandbox (cfg.box_id_start +ℤ pos i) cfg in
      let (ready, u, made) = init-done box w in
      added ready u made (
        open_boxes-Opens n (suc i) (add_box p box pool ready) u
          (add_box-IsAllFree box pool ready h))
    where
      box : Sandbox
      box = new_sandbox (cfg.box_id_start +ℤ pos i) cfg

      added :
          (ready : Bool) (u : p.World)
          → init p box w ≡ done ready u
          → Opens n (suc i) (add_box p box pool ready) u
          → (pool' : BoxPool) × (w' : p.World) × (◌>>=◌
                (init p box)
                (λ ready. open_boxes p cfg n (suc i) (add_box p box pool ready))
                w
              ≡ done pool' w')
            × IsAllFree pool'
            × ((ready : List Sandbox) × (pool'.boxes ≡ pool.boxes ++ ready)
                × Initialises (suc n) i w w' ready)
      added true u made (pool', w', ends, free, (ready, boxes, rest)) = (
        pool',
        w',
        >>=-done (init p box) _ w made ∙ ends,
        free,
        (box ∷ ready, boxes ∙ append_assoc pool.boxes (box ∷ []) ready, succeeds made rest),
      )
      added false u made (pool', w', ends, free, (ready, boxes, rest)) =
          (pool', w', >>=-done (init p box) _ w made ∙ ends, free, (ready, boxes, fails made rest))

  -- The constructor returns a pool of the boxes that it could initialise, all free.
  pub new_box_pool-Initialises :
      (count : ℤ) (w : p.World)
      → (pool : BoxPool) × (w' : p.World) × (new_box_pool p cfg count w ≡ done pool w')
        × IsAllFree pool
        × Initialises (pos_part count) 0 w w' pool.boxes
  unfolding new_box_pool
  new_box_pool-Initialises count w =
      let (pool, w', ends, free, (ready, boxes, rest)) =
        open_boxes-Opens (pos_part count) 0 (record { available = []; boxes = [] }) w refl in
      (pool, w', ends, free, subst (Initialises (pos_part count) 0 w w') (sym boxes) rest)

module _ (p : Platform) where
  pub close_boxes-IsDone : (boxes : List Sandbox) (w : p.World) → IsDone (close_boxes p boxes w)
  unfolding close_boxes cleanup
  close_boxes-IsDone [] w = tt
  close_boxes-IsDone (box ∷ boxes) w = close_boxes-IsDone boxes _
