-- ===== src/Client/Read.antt =====
-- The events of a client session: its connection has messages or is gone, and the timer
-- (client/session.cpp).
use roq_fix_proxy.Prelude.{ℕ, ◌+◌, Bool, true, false, List, [], ◌∷◌, ltb, if◌then◌else◌}
use roq_fix_proxy.Prelude.Text.{codes}
use roq_fix_proxy.Prelude.Effect.{◌>>=◌, ◌>>◌, gets, skip}
use roq_fix_proxy.Externals.{Externals}
use roq_fix_proxy.Message.Response.{Admin}
use roq_fix_proxy.World.{World, ClientState, ClientSession, Header}
use roq_fix_proxy.World.Access.{Method, session_at, modify_session, try_catch}
use roq_fix_proxy.Client.Connection.{make_zombie, close, send_and_close, send_admin}
use roq_fix_proxy.Client.Inbound.{ClientMessage, parse}

unfoldable pub is_zombie : ClientState → Bool
is_zombie ClientState.zombie = true
is_zombie _ = false

-- A gap or a replay is logged only.
unfoldable pub check : ℕ → Header → Method
unfolding modify_session
check id header = modify_session id (λ c. record c { inbound_msg_seq_num = header.msg_seq_num })

module _ ⦃ext : Externals⦄ where
  -- The loop over the messages of the buffer, until the session is a zombie.
  unfoldable pub read_messages : ℕ → List (Header × ClientMessage) → Method
  unfolding check session_at parse is_zombie
  read_messages id [] = skip
  read_messages id ((header, m) ∷ rest) = do
    check id header
    parse id header m
    c ← session_at id
    if is_zombie c.state then skip else read_messages id rest

  unfoldable pub read_from : ClientState → ℕ → List (Header × ClientMessage) → Method
  unfolding read_messages try_catch close
  read_from ClientState.zombie id messages = skip
  read_from _ id messages = try_catch (read_messages id messages) (close id)

  unfoldable pub on_read : ℕ → List (Header × ClientMessage) → Method
  unfolding session_at read_from
  on_read id messages = do c ← session_at id; read_from c.state id messages

  -- The connection is gone.
  unfoldable pub on_disconnected : ℕ → Method
  unfolding make_zombie
  on_disconnected id = make_zombie id

  unfoldable pub timed_out : ℕ → ℕ → ClientSession → Method
  unfolding send_and_close
  timed_out id now c =
      if ltb c.user_response_timeout now
      then send_and_close id (Admin.logout (codes "USER_RESPONSE_TIMEOUT"))
      else skip

  unfoldable pub probe : ℕ → ℕ → ClientSession → Method
  unfolding send_and_close send_admin modify_session
  probe id now c =
      if c.waiting_for_heartbeat
      then send_and_close id (Admin.logout (codes "MISSING HEARTBEAT"))
      else (send_admin id (Admin.test_request (ext.format_nanoseconds now))
          >> modify_session id (λ s. record s { waiting_for_heartbeat = true }))

  unfoldable pub ping : ℕ → ℕ → ClientSession → Method
  unfolding modify_session probe
  ping id now c =
      if ltb c.next_heartbeat now
      then (do
        freq ← gets (λ (w : World). w.shared.settings.client.heartbeat_freq)
        modify_session id (λ s. record s { next_heartbeat = now + freq })
        probe id now c)
      else skip

  unfoldable pub timer_from : ClientState → ℕ → ℕ → ClientSession → Method
  unfolding timed_out ping close
  timer_from ClientState.waiting_logon id now c = if ltb c.logon_timeout now then close id else skip
  timer_from ClientState.waiting_create_route id now c = timed_out id now c
  timer_from ClientState.ready id now c = ping id now c
  timer_from ClientState.waiting_remove_route id now c = timed_out id now c
  timer_from ClientState.zombie id now c = skip

  unfoldable pub on_timer : ℕ → ℕ → Method
  unfolding session_at timer_from
  on_timer now id = do c ← session_at id; timer_from c.state id now c
