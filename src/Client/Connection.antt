-- ===== src/Client/Connection.antt =====
-- Sending to a client and closing its connection (client/session.cpp: send, send_and_close, close,
-- make_zombie, force_disconnect and the two kinds of reject). Assertions are compiled out.
use roq_fix_proxy.Prelude.{ℕ, ◌+◌, ◌%◌, nat_eq}
use roq_fix_proxy.Prelude.Text.{Text}
use roq_fix_proxy.Prelude.Effect.{◌>>=◌, ◌>>◌, gets, skip}
use roq_fix_proxy.Externals.{Externals}
use roq_fix_proxy.Message.Enums.{MsgType, SessionRejectReason, BusinessRejectReason}
use roq_fix_proxy.Message.Response.{Response, Admin}
use roq_fix_proxy.Message.Types.{response_type, admin_type}
use roq_fix_proxy.Shared
use roq_fix_proxy.Shared.{u64}
use roq_fix_proxy.World.{World, ClientState, ClientSession, Header, Body, Output}
use roq_fix_proxy.World.Access.{
  Method, emit, session_at, put_session, modify_session, modify_shared,
}
use roq_fix_proxy.Controller.Disconnect.{client_disconnected}

unfoldable pub client_header : MsgType → ℕ → ClientSession → World → Header
client_header msg_type seq c w = record {
  msg_type = msg_type;
  sender_comp_id = w.shared.settings.client.comp_id;
  target_comp_id = c.comp_id;
  msg_seq_num = seq;
  sending_time = w.clock.realtime;
}

-- send<level>(event, sending_time)
unfoldable pub send : ℕ → MsgType → Body → Method
unfolding session_at put_session emit client_header
send id msg_type body = do
  c ← session_at id
  let seq = (c.outbound_msg_seq_num + 1) % u64
  put_session id (record c { outbound_msg_seq_num = seq })
  header ← gets (client_header msg_type seq c)
  emit (Output.to_client id header body)

unfoldable pub send_response : ℕ → Response → Method
unfolding send response_type
send_response id r = send id (response_type r) (Body.response r)

unfoldable pub send_admin : ℕ → Admin → Method
unfolding send admin_type
send_admin id a = send id (admin_type a) (Body.admin a)

-- (*this)(state)
unfoldable pub set_state : ℕ → ClientState → Method
unfolding modify_session
set_state id state = modify_session id (λ c. record c { state = state })

-- The end of make_zombie.
unfoldable pub become_zombie : ℕ → Method
unfolding set_state modify_shared
become_zombie id = do set_state id ClientState.zombie; modify_shared (Shared.session_remove id)

module _ ⦃ext : Externals⦄ where
  unfoldable pub zombie_from : ClientState → ℕ → Method
  unfolding become_zombie
  zombie_from ClientState.waiting_logon id = become_zombie id
  zombie_from ClientState.zombie id = skip
  zombie_from _ id = do client_disconnected id; become_zombie id

  unfoldable pub make_zombie : ℕ → Method
  unfolding session_at zombie_from
  make_zombie id = do c ← session_at id; zombie_from c.state id

  unfoldable pub close_from : ClientState → ℕ → Method
  unfolding emit make_zombie
  close_from ClientState.zombie id = skip
  close_from _ id = do emit (Output.close_client id); make_zombie id

  unfoldable pub close : ℕ → Method
  unfolding session_at close_from
  close id = do c ← session_at id; close_from c.state id

  unfoldable pub send_and_close : ℕ → Admin → Method
  unfolding send_admin close
  send_and_close id a = do send_admin id a; close id

  -- The states of a session are those that `close` looks at too.
  unfoldable pub force_from : ClientState → ℕ → Method
  unfolding close
  force_from ClientState.zombie id = skip
  force_from _ id = close id

  unfoldable pub force_disconnect : ℕ → Method
  unfolding session_at force_from
  force_disconnect id = do c ← session_at id; force_from c.state id

  unfoldable pub send_reject_and_close : ℕ → Header → SessionRejectReason → Text → Method
  unfolding send_and_close
  send_reject_and_close id header reason text = send_and_close id (
      Admin.reject (record {
        ref_seq_num = header.msg_seq_num;
        text = text;
        ref_msg_type = header.msg_type;
        session_reject_reason = reason;
      }))

unfoldable pub send_business_message_reject :
    ℕ → Header → Text → BusinessRejectReason → Text → Method
unfolding send_response
send_business_message_reject id header ref_id reason text = send_response id (
    Response.business_message_reject (record {
      ref_seq_num = header.msg_seq_num;
      ref_msg_type = header.msg_type;
      business_reject_ref_id = ref_id;
      business_reject_reason = reason;
      text = text;
    }))
