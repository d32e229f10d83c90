-- ===== src/Db/Connection.antt =====
-- What `MySQLClient::connect` and `MySQLClient::ping` of src/db/mysql_client.cpp leave in the client.
use flowstudy_judge.Common.{
  Bool, true, false, ◌≡◌, refl, sym, subst, inl, inr, Option, none, some, Bool-cases,
}
use flowstudy_judge.Db.{
  MySqlLib, MySqlClient, connected_by, connect_with, connect, ping_with, ping_handle, ping,
}

module _ (l : MySqlLib) where
  -- The client has a connection, and says so.
  abbrev pub IsReady : MySqlClient l → Type 0
  IsReady c = (c.connected ≡ true) × ((h : l.Handle) × (c.conn ≡ some h))

  -- A call on `c` has this end: on success the client is ready; on failure it says of itself what
  -- it said before.
  abbrev pub Reports : MySqlClient l → MySqlClient l × Bool → Type 0
  Reports c (c', success) =
      ((success ≡ true) → IsReady c') × ((success ≡ false) → c'.connected ≡ c.connected)

  connected_by-Reports :
      (c : MySqlClient l) (h : l.Handle) (w : l.World) (r : Bool × l.World)
      → Reports c (connected_by l c h w r)
  connected_by-Reports c h w (true, w') = (λ e. (refl, (h, refl)), λ e. absurd cc)
  connected_by-Reports c h w (false, w') = (λ e. absurd cc, λ e. refl)

  connect_with-Reports :
      (c : MySqlClient l) (r : Option l.Handle × l.World) → Reports c (connect_with l c r)
  connect_with-Reports c (none, w) = (λ e. absurd cc, λ e. refl)
  connect_with-Reports c (some h, w) =
      let w' = l.set_reconnect h w in connected_by-Reports c h w' (l.real_connect h c.config w')

  connect_lem : (c : MySqlClient l) → Reports c (connect l c)
  unfolding connect
  connect_lem c = connect_with-Reports c (l.mysql_init c.world)

  ping_handle-Reports :
      (c : MySqlClient l) (conn : Option l.Handle)
      → c.connected ≡ true
      → c.conn ≡ conn
      → Reports c (ping_handle l c conn)
  ping_handle-Reports c none e k = connect_lem c
  ping_handle-Reports c (some h) e k = pinged (l.mysql_ping h c.world)
    where
      pinged : (r : Bool × l.World) → Reports c (ping_with l c r)
      pinged (true, w) = (λ _. (e, (h, k)), λ f. absurd cc)
      pinged (false, w) = connect_lem (record c { world = w })

  pub ping-connected : (c : MySqlClient l) → c.connected ≡ true → ping l c ≡ ping_handle l c c.conn
  unfolding ping
  ping-connected c e = simp e

  pub ping_lost : (c : MySqlClient l) → c.connected ≡ false → ping l c ≡ connect l c
  unfolding ping connect
  ping_lost c e = simp e

  -- Whatever state the client is in: if `connect` or `ping` returns true, then the client says that
  -- it is connected, and has a connection; if it returns false, then the client says what it said
  -- before, although its connection may be another one or none.
  pub connect-ping-Reports : (c : MySqlClient l) → Reports c (connect l c) × Reports c (ping l c)
  connect-ping-Reports c = (connect_lem c, pings)
    where
      pings : Reports c (ping l c)
      pings = elim (Bool-cases c.connected) [
        | inl e ↦ subst (Reports c) (sym (ping-connected c e)) (ping_handle-Reports c c.conn e refl)
        | inr e ↦ subst (Reports c) (sym (ping_lost c e)) (connect_lem c)
      ]
