-- ===== src/Invariant/Connection.antt =====
-- Sending to a client, closing its connection and delivering a message to it keep every invariant.
use roq_fix_proxy.Prelude.{◌≢◌, true, arith, ℕ, Option, none, some, nat_eq, refl, ◌≡◌}
use roq_fix_proxy.Prelude.Text.{Text, text_eq}
use roq_fix_proxy.Prelude.Effect.{
  Result, ok, err, not_ready, malformed, fatal, dangling, ◌>>◌, Keeps, Keeps-skip, Keeps-bind,
  Keeps-then, Keeps-if, Leads, Leads-gets, Leads-then, Leads-of_Keeps, Leads-weaken,
}
use roq_fix_proxy.Externals.{Externals}
use roq_fix_proxy.Message.Enums.{UserStatus, BusinessRejectReason, SessionRejectReason}
use roq_fix_proxy.Message.Response.{Response, Admin, UserResponse}
use roq_fix_proxy.Shared.{Shared, session_logout_helper}
use roq_fix_proxy.World.{World, ClientState, Header, Output}
use roq_fix_proxy.World.Access.{Method, try_catch, recover, emit}
use roq_fix_proxy.Client.Connection.{
  send_response, send_admin, become_zombie, zombie_from, make_zombie, close_from, close,
  send_and_close, force_from, force_disconnect, send_reject_and_close, send_business_message_reject,
}
use roq_fix_proxy.Client.Deliver.{
  is_ready, send_if_ready, session_logout, route_created, logged_out, route_removed, respond_from,
  user_response, deliver,
}
use roq_fix_proxy.Invariant.{IsStable}
use roq_fix_proxy.Controller.Disconnect.{client_disconnected}
use roq_fix_proxy.Manager.Removal.{listed}
use roq_fix_proxy.Invariant.Alive
use roq_fix_proxy.Invariant.Alive.{
  Alive, IsLive, Keeps-both, Live-send, Leads-set_state, found-IsLive,
}
use roq_fix_proxy.Invariant.Sessions.{
  Keeps-session_at, Keeps-modify_session, Keeps-client_disconnected,
}

next_session_id-session_logout_helper :
    (id : ℕ) (s : Shared) → (session_logout_helper id s).1.next_session_id ≡ s.next_session_id
unfolding session_logout_helper
next_session_id-session_logout_helper id s = ground arith

to_remove :
    (id : ℕ) (s : Shared) (i : ℕ)
    → listed i s.sessions_to_remove ≡ true
    → listed i (session_logout_helper id s).1.sessions_to_remove ≡ true
unfolding session_logout_helper
to_remove id s i l = ground arith

module _ (Q : World → Type 0) (q : IsStable Q) where
  pub Keeps-send_response : (id : ℕ) (r : Response) → Keeps Q (send_response id r)
  unfolding send_response
  Keeps-send_response id r = q.sent_to_client id _ _

  pub Keeps-send_admin : (id : ℕ) (a : Admin) → Keeps Q (send_admin id a)
  unfolding send_admin
  Keeps-send_admin id a = q.sent_to_client id _ _

  pub Keeps-send_business_message_reject :
      (id : ℕ) (h : Header) (i : Text) (r : BusinessRejectReason) (t : Text)
      → Keeps Q (send_business_message_reject id h i r t)
  unfolding send_business_message_reject
  Keeps-send_business_message_reject id h i r t = Keeps-send_response id _

  pub Keeps-session_logout : (id : ℕ) → Keeps Q (session_logout id)
  unfolding session_logout
  Keeps-session_logout id = record {
    at = λ w h.
        q.shared_changed _ w (next_session_id-session_logout_helper id w.shared)
          (to_remove id w.shared) h;
  }

  pub Keeps-send_if_ready : (id : ℕ) (r : Response) → Keeps Q (send_if_ready id r)
  unfolding send_if_ready
  Keeps-send_if_ready id r =
      Keeps-bind (Keeps-session_at Q id)
        (λ c. Keeps-if (is_ready c.state) (Keeps-send_response id r) Keeps-skip)

  Keeps-recover :
      (r : Result (Unit {0})) (handler : Method) (w : World)
      → Keeps Q handler
      → Q w
      → Q (recover r handler w).1
  Keeps-recover (ok a) handler w k h = h
  Keeps-recover (err (not_ready t)) handler w k h = k.at w h
  Keeps-recover (err malformed) handler w k h = k.at w h
  Keeps-recover (err fatal) handler w k h = h
  Keeps-recover (err dangling) handler w k h = h

  pub Keeps-try_catch :
      {m handler : Method} → Keeps Q m → Keeps Q handler → Keeps Q (try_catch m handler)
  unfolding try_catch
  Keeps-try_catch {m} {handler} km kh = record {
    at = λ w h. Keeps-recover (m w).0 handler (m w).1 kh (km.at w h);
  }

module _ (Q : World → Type 0) (q : IsStable Q) ⦃ext : Externals⦄ where
  Keeps-disconnect_zombie : (id : ℕ) → Keeps Q (do client_disconnected id; become_zombie id)
  Keeps-disconnect_zombie id = Keeps-then (Keeps-client_disconnected Q q id) (q.zombie_made id)

  Keeps-zombie_from : (s : ClientState) (id : ℕ) → Keeps Q (zombie_from s id)
  unfolding zombie_from
  Keeps-zombie_from ClientState.waiting_logon id = q.zombie_made id
  Keeps-zombie_from ClientState.zombie id = Keeps-skip
  Keeps-zombie_from ClientState.waiting_create_route id = Keeps-disconnect_zombie id
  Keeps-zombie_from ClientState.ready id = Keeps-disconnect_zombie id
  Keeps-zombie_from ClientState.waiting_remove_route id = Keeps-disconnect_zombie id

  pub Keeps-make_zombie : (id : ℕ) → Keeps Q (make_zombie id)
  unfolding make_zombie
  Keeps-make_zombie id = Keeps-bind (Keeps-session_at Q id) (λ c. Keeps-zombie_from c.state id)

  Keeps-close_open : (id : ℕ) → Keeps Q (do emit (Output.close_client id); make_zombie id)
  Keeps-close_open id = Keeps-then (q.client_closed id) (Keeps-make_zombie id)

  Keeps-close_from : (s : ClientState) (id : ℕ) → Keeps Q (close_from s id)
  unfolding close_from
  Keeps-close_from ClientState.zombie id = Keeps-skip
  Keeps-close_from ClientState.waiting_logon id = Keeps-close_open id
  Keeps-close_from ClientState.waiting_create_route id = Keeps-close_open id
  Keeps-close_from ClientState.ready id = Keeps-close_open id
  Keeps-close_from ClientState.waiting_remove_route id = Keeps-close_open id

  pub Keeps-close : (id : ℕ) → Keeps Q (close id)
  unfolding close
  Keeps-close id = Keeps-bind (Keeps-session_at Q id) (λ c. Keeps-close_from c.state id)

  pub Keeps-send_and_close : (id : ℕ) (a : Admin) → Keeps Q (send_and_close id a)
  unfolding send_and_close
  Keeps-send_and_close id a = Keeps-then (Keeps-send_admin Q q id a) (Keeps-close id)

  Keeps-force_from : (s : ClientState) (id : ℕ) → Keeps Q (force_from s id)
  unfolding force_from
  Keeps-force_from ClientState.zombie id = Keeps-skip
  Keeps-force_from ClientState.waiting_logon id = Keeps-close id
  Keeps-force_from ClientState.waiting_create_route id = Keeps-close id
  Keeps-force_from ClientState.ready id = Keeps-close id
  Keeps-force_from ClientState.waiting_remove_route id = Keeps-close id

  pub Keeps-force_disconnect : (id : ℕ) → Keeps Q (force_disconnect id)
  unfolding force_disconnect
  Keeps-force_disconnect id = Keeps-bind (Keeps-session_at Q id) (λ c. Keeps-force_from c.state id)

  pub Keeps-send_reject_and_close :
      (id : ℕ) (h : Header) (r : SessionRejectReason) (t : Text)
      → Keeps Q (send_reject_and_close id h r t)
  unfolding send_reject_and_close
  Keeps-send_reject_and_close id h r t = Keeps-send_and_close id _

  Leads-route_created : (s : UserStatus) (id : ℕ) → Leads (Alive Q q id) Q (route_created s id)
  unfolding route_created send_admin
  Leads-route_created UserStatus.logged_in id = Leads-gets _ _ (λ w h.
      (Leads-then (Leads-of_Keeps (Keeps-both (q.sent_to_client id _ _) (Live-send id id _ _)))
          (λ v k. k.0) (Leads-set_state Q q id ClientState.ready (λ e. cc))).at
        w h)
  Leads-route_created UserStatus.not_logged_in id = Leads-weaken (Keeps-make_zombie id)
  Leads-route_created (UserStatus.other n) id = Leads-weaken (Keeps-make_zombie id)

  pub Keeps-logged_out : (r : Option Text) (id : ℕ) → Keeps Q (logged_out r id)
  unfolding logged_out
  Keeps-logged_out none id = Keeps-send_and_close id _
  Keeps-logged_out (some r) id = Keeps-make_zombie id

  Keeps-route_removed : (s : UserStatus) (id : ℕ) → Keeps Q (route_removed s id)
  unfolding route_removed
  Keeps-route_removed UserStatus.not_logged_in id =
      Keeps-bind (Keeps-session_logout Q q id) (λ r. Keeps-logged_out r id)
  Keeps-route_removed UserStatus.logged_in id = Keeps-make_zombie id
  Keeps-route_removed (UserStatus.other n) id = Keeps-make_zombie id

  Leads-respond_from :
      (t : ClientState) (s : UserStatus) (id : ℕ)
      → Leads (λ w. Q w × (t ≢ ClientState.zombie → IsLive id w)) Q (respond_from t s id)
  unfolding respond_from
  Leads-respond_from ClientState.waiting_create_route s id = record {
    at = λ w h. (Leads-route_created s id).at w (h.0, h.1 (λ e. cc));
  }
  Leads-respond_from ClientState.waiting_remove_route s id = Leads-weaken (Keeps-route_removed s id)
  Leads-respond_from ClientState.waiting_logon s id = Leads-weaken Keeps-skip
  Leads-respond_from ClientState.ready s id = Leads-weaken Keeps-skip
  Leads-respond_from ClientState.zombie s id = Leads-weaken Keeps-skip

  Keeps-user_response : (id : ℕ) (r : UserResponse) → Keeps Q (user_response id r)
  unfolding user_response
  Keeps-user_response id r = Keeps-then (Keeps-modify_session Q q id _ (λ c. refl) (λ c. refl)) (
      Alive.Keeps-session_at Q id _ (λ c. record {
        at = λ w h.
            (Leads-respond_from c.state r.user_status id).at w
              (h.0, found-IsLive id c c.state w h.1 refl);
      }))

  pub Keeps-deliver : (id : ℕ) (r : Response) → Keeps Q (deliver id r)
  unfolding deliver
  Keeps-deliver id (Response.user_response r) = Keeps-user_response id r
  Keeps-deliver id (Response.business_message_reject r) =
      Keeps-send_if_ready Q q id (Response.business_message_reject r)
  Keeps-deliver id (Response.security_list r) =
      Keeps-send_if_ready Q q id (Response.security_list r)
  Keeps-deliver id (Response.security_definition r) =
      Keeps-send_if_ready Q q id (Response.security_definition r)
  Keeps-deliver id (Response.security_status r) =
      Keeps-send_if_ready Q q id (Response.security_status r)
  Keeps-deliver id (Response.market_data_request_reject r) =
      Keeps-send_if_ready Q q id (Response.market_data_request_reject r)
  Keeps-deliver id (Response.market_data_snapshot_full_refresh r) =
      Keeps-send_if_ready Q q id (Response.market_data_snapshot_full_refresh r)
  Keeps-deliver id (Response.market_data_incremental_refresh r) =
      Keeps-send_if_ready Q q id (Response.market_data_incremental_refresh r)
  Keeps-deliver id (Response.order_cancel_reject r) =
      Keeps-send_if_ready Q q id (Response.order_cancel_reject r)
  Keeps-deliver id (Response.order_mass_cancel_report r) =
      Keeps-send_if_ready Q q id (Response.order_mass_cancel_report r)
  Keeps-deliver id (Response.execution_report r) =
      Keeps-send_if_ready Q q id (Response.execution_report r)
  Keeps-deliver id (Response.request_for_positions_ack r) =
      Keeps-send_if_ready Q q id (Response.request_for_positions_ack r)
  Keeps-deliver id (Response.position_report r) =
      Keeps-send_if_ready Q q id (Response.position_report r)
  Keeps-deliver id (Response.trade_capture_report_request_ack r) =
      Keeps-send_if_ready Q q id (Response.trade_capture_report_request_ack r)
  Keeps-deliver id (Response.trade_capture_report r) =
      Keeps-send_if_ready Q q id (Response.trade_capture_report r)
