-- ===== src/Server/Inbound.antt =====
-- The events of the server session: its connection is up, down or has messages, and the timer
-- (server/session.cpp), with the controller's handlers of Ready and Disconnected.
use roq_fix_proxy.Prelude.{ℕ, ◌+◌, Bool, true, false, List, [], ◌∷◌, leb, if◌then◌else◌}
use roq_fix_proxy.Prelude.Text.{Text, codes}
use roq_fix_proxy.Prelude.Map.{Map}
use roq_fix_proxy.Prelude.Effect.{ok, malformed, ◌>>=◌, ◌>>◌, throw, gets, skip, for_each}
use roq_fix_proxy.Externals.{Externals}
use roq_fix_proxy.Message.Response.{Response, Admin}
use roq_fix_proxy.World.{World, ServerState, ServerSession, ClientSession, Header, Output}
use roq_fix_proxy.World.Access.{Method, emit}
use roq_fix_proxy.Server.Send.{send_logon, send_logout, send_heartbeat, send_test_request}
use roq_fix_proxy.Client.Connection.{force_disconnect}
use roq_fix_proxy.Controller.Responses.{
  on_business_message_reject, on_user_response, on_security_list, on_security_definition,
  on_security_status, on_market_data_request_reject, on_market_data_snapshot_full_refresh,
  on_market_data_incremental_refresh, on_request_for_positions_ack, on_position_report,
  on_trade_capture_report_request_ack, on_trade_capture_report,
}
use roq_fix_proxy.Controller.Reports.{
  on_order_cancel_reject, on_order_mass_cancel_report, on_execution_report,
}

-- A message of the server's, decoded. `undecodable` is one that T::create refuses by an exception,
-- `unexpected` one of a type that `parse` does not know.
pub data ServerMessage : Type 0 where
  admin : Admin → ServerMessage
  response : Response → ServerMessage
  unexpected undecodable : ServerMessage

unfoldable pub modify_server : (ServerSession → ServerSession) → Method
modify_server f w = (ok tt, record w { server = f w.server })

unfoldable pub set_ready : Bool → Method
set_ready ready w = (ok tt, record w { ready = ready })

-- The operator on Connected.
unfoldable pub on_connected : Method
unfolding send_logon modify_server
on_connected = do send_logon; modify_server (λ s. record s { state = ServerState.logon_sent })

-- The operator on Logon, with Controller's on Ready.
unfoldable pub on_logon : Method
unfolding set_ready modify_server
on_logon = do set_ready true; modify_server (λ s. record s { state = ServerState.ready })

-- The operator on Logout.
unfoldable pub on_logout : Text → Method
unfolding send_logout emit
on_logout text = do send_logout (codes "LOGOUT"); emit Output.close_server

-- A gap or a replay is logged only.
unfoldable pub check : Header → Method
unfolding modify_server
check header = modify_server (λ s. record s { inbound_msg_seq_num = header.msg_seq_num })

abbrev pub session_ids : Map ℕ ClientSession → List ℕ
session_ids [] = []
session_ids ((id, c) ∷ rest) = id ∷ session_ids rest

module _ ⦃ext : Externals⦄ where
  -- Controller's handler of Disconnected.
  unfoldable pub server_disconnected : Method
  unfolding set_ready for_each force_disconnect
  server_disconnected = do
    set_ready false
    ids ← gets (λ (w : World). session_ids w.sessions)
    for_each ids force_disconnect

  -- The operator on Disconnected.
  unfoldable pub on_disconnected : Method
  unfolding server_disconnected modify_server
  on_disconnected = do
    server_disconnected
    modify_server (λ s. record {
      state = ServerState.disconnected;
      inbound_msg_seq_num = 0;
      outbound_msg_seq_num = 0;
      next_heartbeat = 0;
    })

  -- `parse` decodes a Logout as a Heartbeat, so that the operator on Heartbeat takes it.
  unfoldable pub handle_admin : Admin → Method
  unfolding on_logon send_heartbeat
  handle_admin (Admin.reject e) = skip
  handle_admin Admin.resend_request = skip
  handle_admin (Admin.logon e) = on_logon
  handle_admin (Admin.logout text) = skip
  handle_admin (Admin.heartbeat t) = skip
  handle_admin (Admin.test_request t) = send_heartbeat t

  unfoldable pub handle_response : Response → Method
  handle_response (Response.business_message_reject e) = on_business_message_reject e
  handle_response (Response.user_response e) = on_user_response e
  handle_response (Response.security_list e) = on_security_list e
  handle_response (Response.security_definition e) = on_security_definition e
  handle_response (Response.security_status e) = on_security_status e
  handle_response (Response.market_data_request_reject e) = on_market_data_request_reject e
  handle_response (Response.market_data_snapshot_full_refresh e) =
      on_market_data_snapshot_full_refresh e
  handle_response (Response.market_data_incremental_refresh e) =
      on_market_data_incremental_refresh e
  handle_response (Response.order_cancel_reject e) = on_order_cancel_reject e
  handle_response (Response.order_mass_cancel_report e) = on_order_mass_cancel_report e
  handle_response (Response.execution_report e) = on_execution_report e
  handle_response (Response.request_for_positions_ack e) = on_request_for_positions_ack e
  handle_response (Response.position_report e) = on_position_report e
  handle_response (Response.trade_capture_report_request_ack e) =
      on_trade_capture_report_request_ack e
  handle_response (Response.trade_capture_report e) = on_trade_capture_report e

  unfoldable pub parse : ServerMessage → Method
  unfolding handle_admin handle_response
  parse (ServerMessage.admin a) = handle_admin a
  parse (ServerMessage.response r) = handle_response r
  parse ServerMessage.unexpected = skip
  parse ServerMessage.undecodable = throw malformed

  -- The loop over the messages of the buffer. An exception is thrown on, out of the event loop.
  unfoldable pub on_read : List (Header × ServerMessage) → Method
  unfolding check parse
  on_read [] = skip
  on_read ((header, m) ∷ rest) = do check header; parse m; on_read rest

  unfoldable pub heartbeat_due : ℕ → ServerSession → Method
  unfolding modify_server send_test_request
  heartbeat_due now s =
      if leb s.next_heartbeat now
      then (do
        freq ← gets (λ (w : World). w.shared.settings.server.ping_freq)
        modify_server (λ t. record t { next_heartbeat = now + freq })
        send_test_request now)
      else skip

  -- `if (state_ <= State::LOGON_SENT) return;`
  unfoldable pub timer_from : ServerState → ℕ → ServerSession → Method
  unfolding heartbeat_due
  timer_from ServerState.ready now s = heartbeat_due now s
  timer_from _ now s = skip

  unfoldable pub on_timer : ℕ → Method
  unfolding timer_from
  on_timer now = do s ← gets (λ (w : World). w.server); timer_from s.state now s
