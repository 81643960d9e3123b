-- ===== src/Client/Deliver.antt =====
-- What a client session does with a message of the server's (client/session.cpp, the operators on
-- Trace<codec::fix::...>): it sends the message on while it is ready. A UserResponse moves the
-- session's own state.
use roq_fix_proxy.Prelude.{ℕ, Bool, true, false, Option, none, some, [], nat_eq, if◌then◌else◌}
use roq_fix_proxy.Prelude.Text.{Text, codes}
use roq_fix_proxy.Prelude.Effect.{Result, ok, ◌>>=◌, ◌>>◌, gets, skip}
use roq_fix_proxy.Externals.{Externals}
use roq_fix_proxy.Message.Enums.{UserStatus, EncryptMethod}
use roq_fix_proxy.Message.Response.{Response, UserResponse, Admin, Logon}
use roq_fix_proxy.Shared
use roq_fix_proxy.World.{World, ClientState}
use roq_fix_proxy.World.Access.{Method, session_at, modify_session}
use roq_fix_proxy.Server.Send.{seconds_u16}
use roq_fix_proxy.Client.Connection.{
  send_response, send_admin, set_state, make_zombie, send_and_close,
}

abbrev pub goodbye : Text
goodbye = codes "goodbye"

unfoldable pub is_ready : ClientState → Bool
is_ready ClientState.ready = true
is_ready _ = false

-- `if (ready()) send<2>(...)`
unfoldable pub send_if_ready : ℕ → Response → Method
unfolding session_at is_ready send_response
send_if_ready id r = do c ← session_at id; if is_ready c.state then send_response id r else skip

-- The logon that tells the client that its route is there.
unfoldable pub logon_response : World → Logon
unfolding seconds_u16
logon_response w = record {
  encrypt_method = EncryptMethod.none;
  heart_bt_int = seconds_u16 w.shared.settings.client.heartbeat_freq;
  raw_data = [];
  reset_seq_num_flag = false;
  next_expected_msg_seq_num = 0;
  username = [];
  password = [];
}

-- shared_.session_logout(session_id_, success, failure): `none` is success.
unfoldable pub session_logout : ℕ → World → Result (Option Text) × World
session_logout id w =
    let (reason, s) = Shared.session_logout_helper id w.shared in
    (ok reason, record w { shared = s })

module _ ⦃ext : Externals⦄ where
  unfoldable pub route_created : UserStatus → ℕ → Method
  unfolding logon_response send_admin set_state make_zombie
  route_created UserStatus.logged_in id = do
    response ← gets logon_response
    send_admin id (Admin.logon response)
    set_state id ClientState.ready
  route_created _ id = make_zombie id

  unfoldable pub logged_out : Option Text → ℕ → Method
  unfolding send_and_close make_zombie
  logged_out none id = send_and_close id (Admin.logout goodbye)
  logged_out (some reason) id = make_zombie id

  unfoldable pub route_removed : UserStatus → ℕ → Method
  unfolding session_logout logged_out make_zombie
  route_removed UserStatus.not_logged_in id = do reason ← session_logout id; logged_out reason id
  route_removed _ id = make_zombie id

  unfoldable pub respond_from : ClientState → UserStatus → ℕ → Method
  unfolding route_created route_removed
  respond_from ClientState.waiting_create_route status id = route_created status id
  respond_from ClientState.waiting_remove_route status id = route_removed status id
  respond_from _ status id = skip

  unfoldable pub user_response : ℕ → UserResponse → Method
  unfolding session_at modify_session respond_from
  user_response id r = do
    modify_session id (λ c. record c { user_response_timeout = 0 })
    c ← session_at id
    respond_from c.state r.user_status id

  -- session(event)
  unfoldable pub deliver : ℕ → Response → Method
  unfolding user_response send_if_ready
  deliver id (Response.user_response r) = user_response id r
  deliver id r = send_if_ready id r
