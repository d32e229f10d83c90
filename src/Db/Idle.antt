-- ===== src/Db/Idle.antt =====
-- Open transactions on the connection of src/db/mysql_client.cpp, after each of its operations.
use flowstudy_judge.Common.{
  Bytes, bytes, Bool, true, false, ◌≡◌, refl, sym, subst, ap, ◌∙◌, arith, inl, inr, List, [], ◌∷◌,
  All, Bool-cases, M, Outcome, done, threw, hung, ◌>>=◌, Option, none, some,
}
use flowstudy_judge.Db.{
  MySqlLib, MySqlClient, JudgeResult, connected_by, connect_with, connect, ping_with, ping_handle,
  ping,
}
use flowstudy_judge.Db.Connection.{ping-connected, ping_lost}
use flowstudy_judge.Db.Builds.{
  AllBuild, BuiltAs, submission_builds-AllBuild, code_run_builds-AllBuild,
}
use flowstudy_judge.Db.Update.{
  or_rollback, build_or_rollback, in_transaction, update_submission, update_code_run,
}
use flowstudy_judge.Db.Transaction.{
  submission_statements, code_run_statements, submission_builds, code_run_builds, run_statements,
  update_submission-run_statements, update_code_run-run_statements,
}
use flowstudy_judge.Db.Atomic.{
  in_transaction_lost, in_transaction_refused, or_rollback-true, or_rollback-false,
  in_transaction-started,
}
use flowstudy_judge.Db.RowChange.{IsRowChange, submission_statements-All, code_run_statements-All}
use flowstudy_judge.Db.Server.{Server, session, IsIdle}

module _ (l : MySqlLib) (v : Server l) where
  module _ (c : MySqlClient l) where
    -- Of two descriptions of one call, both end in the same world.
    same_end :
        (m : M l.World Bool) (w x w' : l.World) (a b : Bool)
        → m w ≡ done a x
        → m w ≡ done b w'
        → v.is_open c.conn x ≡ false
        → v.is_open c.conn w' ≡ false
    same_end m w x w' a b d e closed =
        let same : x ≡ w' = ground arith in subst (λ y. v.is_open c.conn y ≡ false) same closed

    -- A statement that has been built, and what follows.
    sent-closes :
        (s : Bytes) (next : M l.World Bool) (w w' : l.World) (b : Bool)
        → IsRowChange s
        → v.is_open c.conn w ≡ true
        → ((u : l.World)
            → v.is_open c.conn u ≡ true
            → next u ≡ done b w'
            → v.is_open c.conn w' ≡ false)
        → or_rollback l c s next w ≡ done b w'
        → v.is_open c.conn w' ≡ false
    unfolding session
    sent-closes s next w w' b change o ih e = elim (Bool-cases (l.query c.conn s w).0) [
      | inl changed ↦
          ih (l.query c.conn s w).1 (v.change_pends c.conn s w change o changed).0
            (sym (or_rollback-true l c (session l v c.conn) s next w changed) ∙ e)
      | inr refused ↦
          same_end (or_rollback l c s next) w
            (l.query c.conn (bytes "ROLLBACK") (l.query c.conn s w).1).1 w' false b
            (or_rollback-false l c (session l v c.conn) s next w refused) e
            (v.rollback_closes c.conn _)
    ]

    run_statements-closes :
        (ms : List (M l.World Bytes)) (ss : List Bytes) (w w' : l.World) (b : Bool)
        → AllBuild l c.conn ms ss
        → All IsRowChange ss
        → v.is_open c.conn w ≡ true
        → run_statements l c ms w ≡ done b w'
        → v.is_open c.conn w' ≡ false
    unfolding run_statements session build_or_rollback
    run_statements-closes [] ss w w' b built h o e =
        let sql = bytes "COMMIT" in
        let m = run_statements l c [] in
        elim (Bool-cases (l.query c.conn sql w).0) [
          | inl committed ↦
              same_end m w (l.query c.conn sql w).1 w' true b
                (or_rollback-true l c (session l v c.conn) sql _ w committed) e
                (v.commit_closes c.conn w committed)
          | inr refused ↦
              same_end m w (l.query c.conn (bytes "ROLLBACK") (l.query c.conn sql w).1).1 w' false b
                (or_rollback-false l c (session l v c.conn) sql _ w refused) e
                (v.rollback_closes c.conn _)
        ]
    run_statements-closes (m ∷ ms) [] w w' b built h o e = absurd built
    run_statements-closes (m ∷ ms) (s ∷ ss) w w' b (built, rest) h o e =
        go (m w) (built w) (λ u. run_statements-closes ms ss u w' b rest h.1) e
      where
        go :
            (x : Outcome l.World Bytes)
            → BuiltAs l c.conn s w x
            → ((u : l.World)
                → v.is_open c.conn u ≡ true
                → run_statements l c ms u ≡ done b w'
                → v.is_open c.conn w' ≡ false)
            → ◌>>=◌ (λ _. x) (λ sql. or_rollback l c sql (run_statements l c ms)) w ≡ done b w'
            → v.is_open c.conn w' ≡ false
        go (done a u) (text, same) ih e' =
            sent-closes s (run_statements l c ms) w w' b h.0 o ih (rw (text, same) at e')
        go (threw u) k ih e' = absurd cc
        go (hung u) k ih e' = absurd k

    in_transaction-closes :
        (ms : List (M l.World Bytes)) (ss : List Bytes) (w w' : l.World) (b : Bool)
        → AllBuild l c.conn ms ss
        → All IsRowChange ss
        → v.is_open c.conn w ≡ false
        → in_transaction l c (run_statements l c ms) w ≡ done b w'
        → v.is_open c.conn w' ≡ false
    unfolding session
    in_transaction-closes ms ss w w' b built h o e =
        let body = run_statements l c ms in
        let sql = bytes "START TRANSACTION" in
        let m = in_transaction l c body in
        elim (Bool-cases c.connected) [
          | inr lost ↦
              same_end m w w w' false b (in_transaction_lost l c (session l v c.conn) body w lost) e
                o
          | inl there ↦ elim (Bool-cases (l.query c.conn sql w).0) [
            | inr refused ↦
                same_end m w (l.query c.conn sql w).1 w' false b
                  (in_transaction_refused l c (session l v c.conn) body w there refused) e
                  (v.start_refused c.conn w o refused)
            | inl started ↦
                run_statements-closes ms ss (l.query c.conn sql w).1 w' b built h
                  (v.start_opens c.conn w o started).0
                  (sym (in_transaction-started l c (session l v c.conn) body w there started) ∙ e)
          ]
        ]

    -- After either update, whatever it returns, no transaction is open.
    pub update_submission-closes :
        (r : JudgeResult) (w w' : l.World) (b : Bool)
        → v.is_open c.conn w ≡ false
        → update_submission l c r w ≡ done b w'
        → v.is_open c.conn w' ≡ false
    update_submission-closes r w w' b o e =
        in_transaction-closes (submission_builds l c r) (submission_statements l c r) w w' b
          (submission_builds-AllBuild l c r) (submission_statements-All l c r) o
          (ap (λ (m : M l.World Bool). m w) (sym (update_submission-run_statements l c r)) ∙ e)

    pub update_code_run-closes :
        (r : JudgeResult) (w w' : l.World) (b : Bool)
        → v.is_open c.conn w ≡ false
        → update_code_run l c r w ≡ done b w'
        → v.is_open c.conn w' ≡ false
    update_code_run-closes r w w' b o e =
        in_transaction-closes (code_run_builds l c r) (code_run_statements l c r) w w' b
          (code_run_builds-AllBuild l c r) (code_run_statements-All l c r) o
          (ap (λ (m : M l.World Bool). m w) (sym (update_code_run-run_statements l c r)) ∙ e)

  -- After this call nothing more is committed, and no transaction is open.
  abbrev pub Rests : MySqlClient l → MySqlClient l → Type 0
  Rests c c' = (v.committed c'.world ≡ v.committed c.world) × IsIdle l v c'

  connected_by-Rests :
      (c : MySqlClient l) (h : l.Handle) (w : l.World) (r : Bool × l.World)
      → v.committed r.1 ≡ v.committed c.world
      → v.is_open (some h) r.1 ≡ false
      → Rests c (connected_by l c h w r).0
  connected_by-Rests c h w (true, w') e o = (e, o)
  connected_by-Rests c h w (false, w') e o = (e, o)

  connect_with-Rests :
      (c : MySqlClient l) (r : Option l.Handle × l.World)
      → v.committed r.1 ≡ v.committed c.world
      → Rests c (connect_with l c r).0
  connect_with-Rests c (none, w) e = (e, v.null_closes w)
  connect_with-Rests c (some h, w) e =
      let w' = l.set_reconnect h w in
      connected_by-Rests c h w' (l.real_connect h c.config w')
        (v.connect_keeps h c.config w' ∙ v.option_keeps h w ∙ e) (v.connect_closes h c.config w')

  pub connect-Rests : (c : MySqlClient l) → Rests c (connect l c).0
  unfolding connect
  connect-Rests c = connect_with-Rests c (l.mysql_init c.world) (v.init_keeps c.world)

  ping_handle-Rests :
      (c : MySqlClient l) (conn : Option l.Handle)
      → c.conn ≡ conn
      → IsIdle l v c
      → Rests c (ping_handle l c conn).0
  ping_handle-Rests c none k o = connect-Rests c
  ping_handle-Rests c (some h) k o =
      pinged (l.mysql_ping h c.world) (v.ping_keeps h c.world)
        (v.ping_closes h c.world (subst (λ x. v.is_open x c.world ≡ false) k o))
    where
      pinged :
          (r : Bool × l.World)
          → v.committed r.1 ≡ v.committed c.world
          → v.is_open (some h) r.1 ≡ false
          → Rests c (ping_with l c r).0
      pinged (true, w) e f = (e, subst (λ x. v.is_open x w ≡ false) (sym k) f)
      pinged (false, w) e f =
          let (kept, idle) = connect-Rests (record c { world = w }) in (kept ∙ e, idle)

  -- On an idle connection, `ping` commits nothing and leaves no transaction open, also if it connects
  -- again.
  pub ping-Rests : (c : MySqlClient l) → IsIdle l v c → Rests c (ping l c).0
  ping-Rests c o = elim (Bool-cases c.connected) [
    | inl e ↦
        subst (λ (r : MySqlClient l × Bool). Rests c r.0) (sym (ping-connected l c e))
          (ping_handle-Rests c c.conn refl o)
    | inr e ↦
        subst (λ (r : MySqlClient l × Bool). Rests c r.0) (sym (ping_lost l c e)) (connect-Rests c)
  ]
