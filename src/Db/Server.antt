-- ===== src/Db/Server.antt =====
-- A MySQL server over all connections of src/db/mysql_client.cpp, with its documented behaviour; and
-- what the calls of the client leave of it.
use flowstudy_judge.Common.{
  Bytes, bytes, Bool, true, false, ◌≡◌, ◌⊎◌, List, [], ◌∷◌, ◌++◌, foldl, Option, none, some,
}
use flowstudy_judge.Config.{MySqlConfig}
use flowstudy_judge.Db.{MySqlLib, MySqlClient}
use flowstudy_judge.Db.Atomic.{Transactions}
use flowstudy_judge.Db.RowChange.{IsRowChange}

pub record Server (l : MySqlLib) : Type 1 where
  pub Data : Type 0
  pub apply : Data → Bytes → Data
  pub committed : l.World → Data
  -- of the connection with this handle
  pub is_open : Option l.Handle → l.World → Bool
  pub pending : Option l.Handle → l.World → List Bytes
  -- the laws of `Transactions`, for every connection
  pub start_opens :
      (conn : Option l.Handle) (w : l.World)
      → is_open conn w ≡ false
      → (l.query conn (bytes "START TRANSACTION") w).0 ≡ true
      → (is_open conn (l.query conn (bytes "START TRANSACTION") w).1 ≡ true)
        × (pending conn (l.query conn (bytes "START TRANSACTION") w).1 ≡ [])
  pub start_keeps :
      (conn : Option l.Handle) (w : l.World)
      → is_open conn w ≡ false
      → committed (l.query conn (bytes "START TRANSACTION") w).1 ≡ committed w
  pub change_keeps :
      (conn : Option l.Handle) (s : Bytes) (w : l.World)
      → IsRowChange s
      → is_open conn w ≡ true
      → committed (l.query conn s w).1 ≡ committed w
  pub change_pends :
      (conn : Option l.Handle) (s : Bytes) (w : l.World)
      → IsRowChange s
      → is_open conn w ≡ true
      → (l.query conn s w).0 ≡ true
      → (is_open conn (l.query conn s w).1 ≡ true)
        × (pending conn (l.query conn s w).1 ≡ pending conn w ++ s ∷ [])
  pub rollback_keeps :
      (conn : Option l.Handle) (w : l.World)
      → committed (l.query conn (bytes "ROLLBACK") w).1 ≡ committed w
  pub commit_applies :
      (conn : Option l.Handle) (w : l.World)
      → is_open conn w ≡ true
      → (l.query conn (bytes "COMMIT") w).0 ≡ true
      → committed (l.query conn (bytes "COMMIT") w).1 ≡ foldl apply (committed w) (pending conn w)
  pub commit_fails :
      (conn : Option l.Handle) (w : l.World)
      → is_open conn w ≡ true
      → (l.query conn (bytes "COMMIT") w).0 ≡ false
      → (committed (l.query conn (bytes "COMMIT") w).1 ≡ committed w)
        ⊎ (committed (l.query conn (bytes "COMMIT") w).1
            ≡ foldl apply (committed w) (pending conn w))
  -- No transaction is open where none could be started, after a COMMIT, or after a ROLLBACK, also
  -- if it fails, since the server rolls back where it loses a connection.
  pub start_refused :
      (conn : Option l.Handle) (w : l.World)
      → is_open conn w ≡ false
      → (l.query conn (bytes "START TRANSACTION") w).0 ≡ false
      → is_open conn (l.query conn (bytes "START TRANSACTION") w).1 ≡ false
  pub commit_closes :
      (conn : Option l.Handle) (w : l.World)
      → (l.query conn (bytes "COMMIT") w).0 ≡ true
      → is_open conn (l.query conn (bytes "COMMIT") w).1 ≡ false
  pub rollback_closes :
      (conn : Option l.Handle) (w : l.World)
      → is_open conn (l.query conn (bytes "ROLLBACK") w).1 ≡ false
  -- A connection that is made, checked or closed commits nothing and opens no transaction.
  pub init_keeps : (w : l.World) → committed (l.mysql_init w).1 ≡ committed w
  pub option_keeps : (h : l.Handle) (w : l.World) → committed (l.set_reconnect h w) ≡ committed w
  pub connect_keeps :
      (h : l.Handle) (cfg : MySqlConfig) (w : l.World)
      → committed (l.real_connect h cfg w).1 ≡ committed w
  pub connect_closes :
      (h : l.Handle) (cfg : MySqlConfig) (w : l.World)
      → is_open (some h) (l.real_connect h cfg w).1 ≡ false
  pub ping_keeps : (h : l.Handle) (w : l.World) → committed (l.mysql_ping h w).1 ≡ committed w
  pub ping_closes :
      (h : l.Handle) (w : l.World)
      → is_open (some h) w ≡ false
      → is_open (some h) (l.mysql_ping h w).1 ≡ false
  pub close_keeps : (h : l.Handle) (w : l.World) → committed (l.mysql_close h w) ≡ committed w
  pub null_closes : (w : l.World) → is_open none w ≡ false

module _ (l : MySqlLib) (v : Server l) where
  -- What one connection sees.
  unfoldable pub session : (conn : Option l.Handle) → Transactions l conn
  session conn = record {
    Data = v.Data;
    apply = v.apply;
    committed = v.committed;
    is_open = v.is_open conn;
    pending = v.pending conn;
    start_opens = v.start_opens conn;
    start_keeps = v.start_keeps conn;
    change_keeps = v.change_keeps conn;
    change_pends = v.change_pends conn;
    rollback_keeps = v.rollback_keeps conn;
    commit_applies = v.commit_applies conn;
    commit_fails = v.commit_fails conn;
  }

  -- No transaction is open on the client's connection.
  abbrev pub IsIdle : MySqlClient l → Type 0
  IsIdle c = v.is_open c.conn c.world ≡ false
