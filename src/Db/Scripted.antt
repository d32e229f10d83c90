-- ===== src/Db/Scripted.antt =====
-- A server to try the model of src/db/mysql_client.cpp on: it applies a statement by adding its
-- text to the committed data.
use flowstudy_judge.Common.{
  Bytes, bytes, bytes_eq, Bool, true, false, ◌≡◌, refl, arith, List, [], ◌∷◌, ◌++◌, foldl, Option,
  none, some, if◌then◌else◌,
}
use flowstudy_judge.Config.{default_config}
use flowstudy_judge.Db.{MySqlLib, MySqlClient}
use flowstudy_judge.Db.Lexer.{escape_bytes}
use flowstudy_judge.Db.Atomic.{Transactions}
use flowstudy_judge.Db.RowChange.{IsRowChange, is_row_change}
use flowstudy_judge.Db.Server.{Server}

pub record Store : Type 0 where
  pub committed : List Bytes
  pub pending : List Bytes
  pub is_open : Bool
  -- statements that this server refuses
  pub refused : Bytes

pub data Kind : Type 0 where
  starts commits rolls_back changes unknown : Kind

abbrev kind_of_other : Bytes → Kind
kind_of_other s =
    if bytes_eq s (bytes "START TRANSACTION")
    then starts
    else if bytes_eq s (bytes "COMMIT")
    then commits
    else if bytes_eq s (bytes "ROLLBACK")
    then rolls_back
    else unknown

abbrev add : List Bytes → Bytes → List Bytes
add rows s = rows ++ s ∷ []

abbrev by_kind : Kind → Bytes → Store → Bool × Store
by_kind starts s v = (true, record v { pending = []; is_open = true })
by_kind commits s v =
    (true, record v { committed = foldl add v.committed v.pending; pending = []; is_open = false })
by_kind rolls_back s v = (true, record v { pending = []; is_open = false })
by_kind changes s v =
    if bytes_eq s v.refused
    then (false, v)
    else if v.is_open
    then (true, record v { pending = v.pending ++ s ∷ [] })
    else (true, record v { committed = v.committed ++ s ∷ [] })
by_kind unknown s v = (false, v)

abbrev query : Bytes → Store → Bool × Store
query s v = by_kind (if is_row_change s then changes else kind_of_other s) s v

-- The null handle reaches no server.
abbrev query_at : Option (Unit {0}) → Bytes → Store → Bool × Store
query_at none s w = (false, w)
query_at (some h) s w = query s w

abbrev pub mysql : MySqlLib
mysql = record {
  World = Store;
  Handle = Unit {0};
  mysql_init = λ w. (some tt, w);
  set_reconnect = λ h w. w;
  real_connect = λ h cfg w. (true, record w { pending = []; is_open = false });
  mysql_close = λ h w. w;
  query = query_at;
  mysql_ping = λ h w. (true, w);
  escape_fails = λ conn s w. false;
  escape = λ conn s. escape_bytes s;
}

abbrev pub server : Store
server = record { committed = []; pending = []; is_open = false; refused = [] }

abbrev pub client : Store → MySqlClient mysql
client w = record { conn = some tt; config = default_config.mysql; connected = true; world = w }

pub changes_kept :
    (s : Bytes) (b : Bool) (v : Store)
    → b ≡ true
    → v.is_open ≡ true
    → (by_kind (if b then changes else kind_of_other s) s v).1.committed ≡ v.committed
changes_kept s b v h o = ground arith

pub changes_pend :
    (s : Bytes) (b : Bool) (v : Store)
    → b ≡ true
    → v.is_open ≡ true
    → (by_kind (if b then changes else kind_of_other s) s v).0 ≡ true
    → ((by_kind (if b then changes else kind_of_other s) s v).1.is_open ≡ true)
      × ((by_kind (if b then changes else kind_of_other s) s v).1.pending ≡ v.pending ++ s ∷ [])
changes_pend s b v h o e = ground arith

unfoldable pub transactions : Transactions mysql (some tt)
unfolding bytes_eq
transactions = record {
  Data = List Bytes;
  apply = add;
  committed = λ v. v.committed;
  is_open = λ v. v.is_open;
  pending = λ v. v.pending;
  start_opens = λ w o e. (refl, refl);
  start_keeps = λ w o. refl;
  change_keeps = λ s w h o. changes_kept s (is_row_change s) w h o;
  change_pends = λ s w h o e. changes_pend s (is_row_change s) w h o e;
  rollback_keeps = λ w. refl;
  commit_applies = λ w o e. refl;
  commit_fails = λ w o e. absurd cc;
}

abbrev open_at : Option (Unit {0}) → Store → Bool
open_at none w = false
open_at (some h) w = w.is_open

pub start_opens :
    (conn : Option (Unit {0})) (w : Store)
    → (query_at conn (bytes "START TRANSACTION") w).0 ≡ true
    → (open_at conn (query_at conn (bytes "START TRANSACTION") w).1 ≡ true)
      × ((query_at conn (bytes "START TRANSACTION") w).1.pending ≡ [])
unfolding bytes_eq
start_opens none w e = absurd cc
start_opens (some h) w e = (refl, refl)

pub start_keeps :
    (conn : Option (Unit {0})) (w : Store)
    → (query_at conn (bytes "START TRANSACTION") w).1.committed ≡ w.committed
unfolding bytes_eq
start_keeps none w = refl
start_keeps (some h) w = refl

pub change_keeps :
    (conn : Option (Unit {0})) (s : Bytes) (w : Store)
    → IsRowChange s
    → open_at conn w ≡ true
    → (query_at conn s w).1.committed ≡ w.committed
change_keeps none s w r o = refl
change_keeps (some h) s w r o = changes_kept s (is_row_change s) w r o

pub change_pends :
    (conn : Option (Unit {0})) (s : Bytes) (w : Store)
    → IsRowChange s
    → open_at conn w ≡ true
    → (query_at conn s w).0 ≡ true
    → (open_at conn (query_at conn s w).1 ≡ true)
      × ((query_at conn s w).1.pending ≡ w.pending ++ s ∷ [])
change_pends none s w r o e = absurd cc
change_pends (some h) s w r o e = changes_pend s (is_row_change s) w r o e

pub rollback_keeps :
    (conn : Option (Unit {0})) (w : Store)
    → (query_at conn (bytes "ROLLBACK") w).1.committed ≡ w.committed
unfolding bytes_eq
rollback_keeps none w = refl
rollback_keeps (some h) w = refl

pub commit_applies :
    (conn : Option (Unit {0})) (w : Store)
    → open_at conn w ≡ true
    → (query_at conn (bytes "COMMIT") w).1.committed ≡ foldl add w.committed w.pending
unfolding bytes_eq
commit_applies none w o = absurd cc
commit_applies (some h) w o = refl

-- This server's COMMIT only fails without a connection.
pub commit_done :
    (conn : Option (Unit {0})) (w : Store)
    → open_at conn w ≡ true
    → (query_at conn (bytes "COMMIT") w).0 ≡ true
unfolding bytes_eq
commit_done none w o = absurd cc
commit_done (some h) w o = refl

pub start_refused :
    (conn : Option (Unit {0})) (w : Store)
    → (query_at conn (bytes "START TRANSACTION") w).0 ≡ false
    → open_at conn (query_at conn (bytes "START TRANSACTION") w).1 ≡ false
unfolding bytes_eq
start_refused none w e = refl
start_refused (some h) w e = absurd cc

pub commit_closes :
    (conn : Option (Unit {0})) (w : Store)
    → open_at conn (query_at conn (bytes "COMMIT") w).1 ≡ false
unfolding bytes_eq
commit_closes none w = refl
commit_closes (some h) w = refl

pub rollback_closes :
    (conn : Option (Unit {0})) (w : Store)
    → open_at conn (query_at conn (bytes "ROLLBACK") w).1 ≡ false
unfolding bytes_eq
rollback_closes none w = refl
rollback_closes (some h) w = refl

-- The same server, seen over all connections.
unfoldable pub mysql_server : Server mysql
mysql_server = record {
  Data = List Bytes;
  apply = add;
  committed = λ w. w.committed;
  is_open = open_at;
  pending = λ conn w. w.pending;
  start_opens = λ conn w o e. start_opens conn w e;
  start_keeps = λ conn w o. start_keeps conn w;
  change_keeps = change_keeps;
  change_pends = change_pends;
  rollback_keeps = rollback_keeps;
  commit_applies = λ conn w o e. commit_applies conn w o;
  commit_fails = λ conn w o e. absurd (cc (commit_done conn w o, e));
  start_refused = λ conn w o e. start_refused conn w e;
  commit_closes = λ conn w e. commit_closes conn w;
  rollback_closes = rollback_closes;
  init_keeps = λ w. refl;
  option_keeps = λ h w. refl;
  connect_keeps = λ h cfg w. refl;
  connect_closes = λ h cfg w. refl;
  ping_keeps = λ h w. refl;
  ping_closes = λ h w o. o;
  close_keeps = λ h w. refl;
  null_closes = λ w. refl;
}
