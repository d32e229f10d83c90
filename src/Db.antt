-- ===== src/Db.antt =====
-- The MySQL client, src/db/mysql_client.h and src/db/mysql_client.cpp: the data, the connection,
-- and the operations by the children. libmysqlclient is a parameter.
pub mod Returns
pub mod Sql
pub mod Update
pub mod Transaction
pub mod Builds
pub mod RowChange
pub mod Atomic
pub mod Connection
pub mod Server
pub mod Idle
pub mod Lexer
pub mod Pieces
pub mod Meaning
pub mod Tables
pub mod Recorded
pub mod Twice
pub mod Injection
pub mod Scripted
pub mod Tests
use flowstudy_judge.Common.{
  ℕ, Bytes, Bool, true, false, not, ◌||◌, ℤ, List, Option, none, some, if◌then◌else◌, M, done,
  ◌>>=◌, ◌>>◌, return,
}
use flowstudy_judge.Config.{MySqlConfig}

pub record JudgeCaseResult : Type 0 where
  pub testcase_id : ℕ
  pub case_index : ℤ
  pub status : Bytes
  pub time_used_ms : ℤ
  pub memory_used_kb : ℤ
  pub input_text : Bytes
  pub actual_output : Bytes
  pub expected_output : Bytes
  pub error_message : Bytes

pub record JudgeResult : Type 0 where
  pub run_id : ℕ
  pub submission_id : ℕ
  pub problem_id : ℕ
  pub status : Bytes
  pub time_used_ms : ℤ
  pub memory_used_kb : ℤ
  pub error_message : Bytes
  pub compiler_output : Bytes
  pub failed_testcase : ℤ
  pub case_results : List JudgeCaseResult

-- libmysqlclient, and the world behind it. A `MYSQL*` is an `Option Handle`; a call's Boolean says
-- that it reports success.
pub record MySqlLib : Type 1 where
  pub World : Type 0
  pub Handle : Type 0
  -- `mysql_init(nullptr)`
  pub mysql_init : World → Option Handle × World
  -- `mysql_options` with `MYSQL_OPT_RECONNECT`
  pub set_reconnect : Handle → World → World
  -- `mysql_real_connect`
  pub real_connect : Handle → MySqlConfig → World → Bool × World
  pub mysql_close : Handle → World → World
  -- `mysql_query`
  pub query : Option Handle → Bytes → World → Bool × World
  pub mysql_ping : Handle → World → Bool × World
  -- `mysql_real_escape_string` reports an error: it returns the length `(unsigned long)-1`
  pub escape_fails : Option Handle → Bytes → World → Bool
  -- what it writes otherwise, as long as it returns
  pub escape : Option Handle → Bytes → Bytes

-- The members of `MySQLClient::Impl`, and the world.
pub record MySqlClient (l : MySqlLib) : Type 0 where
  pub conn : Option l.Handle
  pub config : MySqlConfig
  pub connected : Bool
  pub world : l.World

module _ (l : MySqlLib) where
  unfoldable pub new_client : MySqlConfig → l.World → MySqlClient l
  new_client cfg w = record { conn = none; config = cfg; connected = false; world = w }

  abbrev connected_by : MySqlClient l → l.Handle → l.World → Bool × l.World → MySqlClient l × Bool
  connected_by c h w (success, w') =
      if success
      then (record c { conn = some h; connected = true; world = w' }, true)
      else (record c { conn = some h; world = w' }, false)

  abbrev connect_with : MySqlClient l → Option l.Handle × l.World → MySqlClient l × Bool
  connect_with c (none, w) = (record c { conn = none; world = w }, false)
  connect_with c (some h, w) =
      let w' = l.set_reconnect h w in connected_by c h w' (l.real_connect h c.config w')

  -- The old `conn` is overwritten, and `connected` is written on success only.
  unfoldable pub connect : MySqlClient l → MySqlClient l × Bool
  connect c = connect_with c (l.mysql_init c.world)

  abbrev ping_with : MySqlClient l → Bool × l.World → MySqlClient l × Bool
  ping_with c (alive, w) =
      let reconnected = connect (record c { world = w }) in
      if not alive then reconnected else (record c { world = w }, true)

  abbrev ping_handle : MySqlClient l → Option l.Handle → MySqlClient l × Bool
  ping_handle c none = connect c
  ping_handle c (some h) = ping_with c (l.mysql_ping h c.world)

  unfoldable pub ping : MySqlClient l → MySqlClient l × Bool
  unfolding connect
  ping c = if not c.connected then connect c else ping_handle c c.conn

  -- The destructor.
  unfoldable pub close_client : MySqlClient l → l.World
  close_client c = elim c.conn [ none ↦ c.world | some h ↦ l.mysql_close h c.world ]
