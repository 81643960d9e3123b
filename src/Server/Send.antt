-- ===== src/Server/Send.antt =====
-- Sending to the server: `send`, `send_helper` and the messages of the session layer
-- (server/session.cpp, "outbound").
use roq_fix_proxy.Prelude.{ℕ, ◌+◌, ◌/◌, ◌%◌, ◌^◌, true, [], ◌∷◌}
use roq_fix_proxy.Prelude.Text.{Text, codes}
use roq_fix_proxy.Prelude.Effect.{ok, not_ready, throw}
use roq_fix_proxy.Externals.{Externals}
use roq_fix_proxy.Message.Enums.{MsgType, EncryptMethod}
use roq_fix_proxy.Message.Request.{Request}
use roq_fix_proxy.Message.Response.{Admin}
use roq_fix_proxy.Message.Types.{request_type, admin_type}
use roq_fix_proxy.Shared.{u64}
use roq_fix_proxy.World.{World, ServerState, Header, Body, Output}
use roq_fix_proxy.World.Access.{Method}

-- The header of the next message to the server, of which `seq` is the number.
unfoldable pub server_header : MsgType → ℕ → World → Header
server_header msg_type seq w = record {
  msg_type = msg_type;
  sender_comp_id = w.shared.settings.server.sender_comp_id;
  target_comp_id = w.shared.settings.server.target_comp_id;
  msg_seq_num = seq;
  sending_time = w.clock.realtime;
}

unfoldable pub send_helper : MsgType → Body → Method
unfolding server_header
send_helper msg_type body w =
    let seq = (w.server.outbound_msg_seq_num + 1) % u64 in
    (
      ok tt,
      record w {
        server = record w.server { outbound_msg_seq_num = seq };
        out = Output.to_server (server_header msg_type seq w) body ∷ w.out;
      },
    )

-- `if (!ready()) throw NotReady{"not ready"sv};`
unfoldable pub send_if : ServerState → Request → Method
unfolding send_helper request_type
send_if ServerState.ready r = send_helper (request_type r) (Body.request r)
send_if _ r = throw (not_ready (codes "not ready"))

-- The operators of the session on a request, and Controller::dispatch_to_server.
unfoldable pub dispatch_to_server : Request → Method
unfolding send_if
dispatch_to_server r w = send_if w.server.state r w

unfoldable pub send_admin : Admin → Method
unfolding send_helper admin_type
send_admin a = send_helper (admin_type a) (Body.admin a)

-- static_cast<uint16_t>(std::chrono::duration_cast<std::chrono::seconds>(t).count())
unfoldable pub seconds_u16 : ℕ → ℕ
seconds_u16 t = t / 1000000000 % 2 ^ 16

unfoldable pub send_logon : Method
unfolding send_admin seconds_u16
send_logon w =
    send_admin
      (Admin.logon (record {
        encrypt_method = EncryptMethod.none;
        heart_bt_int = seconds_u16 w.shared.settings.server.ping_freq;
        raw_data = [];
        reset_seq_num_flag = true;
        next_expected_msg_seq_num = (w.server.inbound_msg_seq_num + 1) % u64;
        username = w.shared.settings.server.username;
        password = w.shared.settings.server.password;
      }))
      w

unfoldable pub send_logout : Text → Method
unfolding send_admin
send_logout text = send_admin (Admin.logout text)

unfoldable pub send_heartbeat : Text → Method
unfolding send_admin
send_heartbeat test_req_id = send_admin (Admin.heartbeat test_req_id)

module _ ⦃ext : Externals⦄ where
  unfoldable pub send_test_request : ℕ → Method
  unfolding send_admin
  send_test_request now = send_admin (Admin.test_request (ext.format now))
