-- ===== src/Judge/BoxPool/Fresh.antt =====
-- The pool that the constructor of `JudgeEngine::BoxPool` in src/judge/judge_engine.cpp makes.
use flowstudy_judge.Common.{
  ℕ, suc, zero, ◌≤◌, Bool, true, false, ℤ, pos, negsuc, eqb_ℤ, eqb_ℤ_iff, ◌+ℤ◌, pos_part, ◌≡◌, refl,
  sym, ◌∙◌, subst, arith, List, [], ◌∷◌, ◌++◌, done, >>=-eq-done, Bool-cases, inl, inr,
}
use flowstudy_judge.Config.{IsolateConfig}
use flowstudy_judge.Platform.{Platform}
use flowstudy_judge.Sandbox.{Sandbox, new_sandbox}
use flowstudy_judge.Sandbox.Command.{init}
use flowstudy_judge.Judge.BoxPool.{BoxPool, add_box, open_boxes, new_box_pool}
use flowstudy_judge.Judge.BoxPool.Sharing.{count, count-append, IsExclusive}

add_pos-injective : (a : ℤ) (i j : ℕ) → a +ℤ pos i ≡ a +ℤ pos j → i ≡ j
unfolding ◌+ℤ◌
add_pos-injective (pos a) i j h = ground arith
add_pos-injective (negsuc a) i j h = ground arith

count_new :
    (id x : ℤ) (xs : List ℤ) → eqb_ℤ id x ≡ true → count id (xs ++ x ∷ []) ≡ suc (count id xs)
count_new id x xs e = count-append id xs (x ∷ []) ∙ ground arith

count_other : (id x : ℤ) (xs : List ℤ) → eqb_ℤ id x ≡ false → count id (xs ++ x ∷ []) ≡ count id xs
count_other id x xs e = count-append id xs (x ∷ []) ∙ ground arith

module _ (p : Platform) (cfg : IsolateConfig) where
  -- The free ids are all different, and none of them stands for this round or a later one.
  abbrev Below : ℕ → BoxPool → Type 0
  Below i pool =
      ((id : ℤ) → count id pool.available ≤ 1)
      × ((j : ℕ) → i ≤ j → count (cfg.box_id_start +ℤ pos j) pool.available ≡ 0)

  abbrev box_of : ℕ → Sandbox
  box_of i = new_sandbox (cfg.box_id_start +ℤ pos i) cfg

  add_box-Below :
      (i : ℕ) (pool : BoxPool) (ready : Bool)
      → Below i pool
      → Below (suc i) (add_box p (box_of i) pool ready)
  unfolding new_sandbox
  add_box-Below i pool false (once, later) = (once, λ j h. later j (omega arith))
  add_box-Below i pool true (once, later) =
      let x = cfg.box_id_start +ℤ pos i in
      let none_yet = later i (omega arith) in
      (
        λ id. elim (Bool-cases (eqb_ℤ id x)) [
          | inl e ↦
              let free : count id pool.available ≡ 0 =
                subst (λ y. count y pool.available ≡ 0) (sym ((eqb_ℤ_iff id x).0 e)) none_yet in
              subst (λ n. n ≤ 1) (sym (count_new id x pool.available e)) (omega arith)
          | inr e ↦ subst (λ n. n ≤ 1) (sym (count_other id x pool.available e)) (once id)
        ],
        λ j h.
            count_other (cfg.box_id_start +ℤ pos j) x pool.available (other j h)
            ∙ later j (omega arith),
      )
    where
      other :
          (j : ℕ)
          → suc i ≤ j
          → eqb_ℤ (cfg.box_id_start +ℤ pos j) (cfg.box_id_start +ℤ pos i) ≡ false
      other j h =
          elim (Bool-cases (eqb_ℤ (cfg.box_id_start +ℤ pos j) (cfg.box_id_start +ℤ pos i))) [
            | inl e ↦
                let same =
                  add_pos-injective cfg.box_id_start j i
                    ((eqb_ℤ_iff (cfg.box_id_start +ℤ pos j) (cfg.box_id_start +ℤ pos i)).0 e) in
                absurd (omega arith)
            | inr e ↦ e
          ]

  open_boxes-Below :
      (n i : ℕ) (pool pool' : BoxPool) (w w' : p.World)
      → Below i pool
      → open_boxes p cfg n i pool w ≡ done pool' w'
      → (id : ℤ) → count id pool'.available ≤ 1
  unfolding open_boxes
  open_boxes-Below zero i pool pool' w w' h e id =
      let same : pool ≡ pool' = ground arith in
      subst (λ (q : BoxPool). count id q.available ≤ 1) same (h.0 id)
  open_boxes-Below (suc n) i pool pool' w w' h e id =
      let (ready, u, _, rest) = >>=-eq-done (init p (box_of i)) _ w e in
      open_boxes-Below n (suc i) (add_box p (box_of i) pool ready) pool' u w'
        (add_box-Below i pool ready h) rest id

  -- The constructor's pool holds every box once at most, whichever boxes could be initialised: so
  -- the boxes are exclusive when no call has begun.
  pub new_box_pool-IsExclusive :
      (n : ℤ) (w w' : p.World) (pool : BoxPool)
      → new_box_pool p cfg n w ≡ done pool w'
      → IsExclusive (record { pool = pool; held = [] })
  unfolding new_box_pool
  new_box_pool-IsExclusive n w w' pool e id =
      let free =
        open_boxes-Below (pos_part n) 0 (record { available = []; boxes = [] }) pool w w'
          ((λ id. omega arith), (λ j h. refl)) e id in
      omega arith
