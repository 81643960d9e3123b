-- ===== src/Invariant/Clients.antt =====
-- What a client session does with each message of the client's keeps every invariant.
use roq_fix_proxy.Prelude.{ℕ, List, [], ◌∷◌, nat_eq, refl}
use roq_fix_proxy.Prelude.Text.{Text, text_eq, codes}
use roq_fix_proxy.Prelude.Effect.{
  malformed, Leads, Leads-weaken, Keeps, Keeps-skip, Keeps-then, Keeps-if, Keeps-throw,
}
use roq_fix_proxy.Externals.{Externals}
use roq_fix_proxy.Message.Enums.{Party}
use roq_fix_proxy.Message.Request.{Request}
use roq_fix_proxy.Message.Response.{Admin}
use roq_fix_proxy.World.{World, ClientState, ClientSession, Header}
use roq_fix_proxy.World.Access.{Method}
use roq_fix_proxy.Client.Inbound.{
  ClientMessage, add_party_ids, refuse, unexpected_type, checked, handle_request, request_from,
  test_request_from, resend_request_from, heartbeat_from, handle_admin, dispatch, parse, is_parsed,
  error_invalid_req_id, error_invalid_cl_ord_id, error_invalid_orig_cl_ord_id,
  error_unsupported_msg_type, error_unsupported_party_ids,
}
use roq_fix_proxy.Invariant.{IsStable}
use roq_fix_proxy.Invariant.Sessions.{Keeps-modify_session}
use roq_fix_proxy.Invariant.Alive
use roq_fix_proxy.Invariant.Alive.{
  Alive, IsLive, Keeps-both, found-IsLive, Leads-set_state, Live-modify_session,
  Live-on_user_request, Live-create_request_id,
}
use roq_fix_proxy.Invariant.Connection.{
  Keeps-send_admin, Keeps-send_business_message_reject, Keeps-make_zombie, Keeps-close,
}
use roq_fix_proxy.Invariant.Logons.{Given, Keeps-reject_logon, Leads-logon_from, Leads-logout_from}
use roq_fix_proxy.Invariant.Queries.{
  Keeps-on_security_list_request, Keeps-on_security_definition_request,
  Keeps-on_security_status_request, Keeps-on_market_data_request,
  Keeps-on_trade_capture_report_request, Keeps-on_request_for_positions,
}
use roq_fix_proxy.Invariant.Orders.{
  Keeps-on_order_status_request, Keeps-on_new_order_single, Keeps-on_order_cancel_replace_request,
  Keeps-on_order_cancel_request, Keeps-on_order_mass_status_request,
  Keeps-on_order_mass_cancel_request,
}

module _ (Q : World → Type 0) (q : IsStable Q) where
  Keeps-refuse : (id : ℕ) (h : Header) (r t : Text) → Keeps Q (refuse id h r t)
  unfolding refuse
  Keeps-refuse id h r t = Keeps-send_business_message_reject Q q id h r _ t

  Keeps-unexpected_type : (id : ℕ) (h : Header) (r : Text) → Keeps Q (unexpected_type id h r)
  unfolding unexpected_type
  Keeps-unexpected_type id h r = Keeps-send_business_message_reject Q q id h r _ _

  Keeps-add_party_ids :
      (party_id : Text) (ps : List Party) (f : List Party → Method) (refused : Method)
      → ((ps : List Party) → Keeps Q (f ps))
      → Keeps Q refused
      → Keeps Q (add_party_ids party_id ps f refused)
  unfolding add_party_ids
  Keeps-add_party_ids party_id [] f refused kf kr = kf _
  Keeps-add_party_ids party_id (p ∷ ps) f refused kf kr = kr

module _ (Q : World → Type 0) (q : IsStable Q) ⦃ext : Externals⦄ where
  Keeps-checked :
      (id : ℕ) (h : Header) (r t : Text) (next : Method)
      → Keeps Q next
      → Keeps Q (checked id h r t next)
  unfolding checked
  Keeps-checked id h r t next k = Keeps-if (ext.base64_is_valid r) k (Keeps-refuse Q q id h r t)

  Keeps-handle_request :
      (c : ClientSession) (id : ℕ) (h : Header) (r : Request) → Keeps Q (handle_request c id h r)
  unfolding handle_request
  Keeps-handle_request c id h (Request.user_request e) = Keeps-unexpected_type Q q id h []
  Keeps-handle_request c id h (Request.security_list_request e) =
      Keeps-checked id h e.security_req_id error_invalid_req_id _
        (Keeps-on_security_list_request Q q e id)
  Keeps-handle_request c id h (Request.security_definition_request e) =
      Keeps-checked id h e.security_req_id error_invalid_req_id _
        (Keeps-on_security_definition_request Q q e id)
  Keeps-handle_request c id h (Request.security_status_request e) =
      Keeps-checked id h e.security_status_req_id error_invalid_req_id _
        (Keeps-on_security_status_request Q q e id)
  Keeps-handle_request c id h (Request.market_data_request e) =
      Keeps-checked id h e.md_req_id (codes "INVALID_MD_REQ_ID") _
        (Keeps-on_market_data_request Q q e id)
  Keeps-handle_request c id h (Request.order_status_request e) =
      Keeps-checked id h e.ord_status_req_id error_invalid_req_id _ (
        Keeps-add_party_ids Q q c.party_id e.no_party_ids _ _
          (λ ps. Keeps-on_order_status_request Q q (record e { no_party_ids = ps }) id)
          (Keeps-refuse Q q id h e.cl_ord_id error_unsupported_party_ids))
  Keeps-handle_request c id h (Request.order_mass_status_request e) =
      Keeps-checked id h e.mass_status_req_id error_invalid_req_id _ (
        Keeps-add_party_ids Q q c.party_id e.no_party_ids _ _
          (λ ps. Keeps-on_order_mass_status_request Q q (record e { no_party_ids = ps }) id)
          (Keeps-refuse Q q id h e.mass_status_req_id error_unsupported_party_ids))
  Keeps-handle_request c id h (Request.new_order_single e) =
      Keeps-checked id h e.cl_ord_id error_invalid_cl_ord_id _ (
        Keeps-add_party_ids Q q c.party_id e.no_party_ids _ _
          (λ ps. Keeps-on_new_order_single Q q (record e { no_party_ids = ps }) id)
          (Keeps-refuse Q q id h e.cl_ord_id error_unsupported_party_ids))
  Keeps-handle_request c id h (Request.order_cancel_request e) =
      Keeps-checked id h e.cl_ord_id error_invalid_cl_ord_id _ (
        Keeps-checked id h e.orig_cl_ord_id error_invalid_orig_cl_ord_id _ (
          Keeps-add_party_ids Q q c.party_id e.no_party_ids _ _
            (λ ps. Keeps-on_order_cancel_request Q q (record e { no_party_ids = ps }) id)
            (Keeps-refuse Q q id h e.cl_ord_id error_unsupported_party_ids)))
  Keeps-handle_request c id h (Request.order_cancel_replace_request e) =
      Keeps-checked id h e.cl_ord_id error_invalid_cl_ord_id _ (
        Keeps-checked id h e.orig_cl_ord_id error_invalid_orig_cl_ord_id _ (
          Keeps-add_party_ids Q q c.party_id e.no_party_ids _ _
            (λ ps. Keeps-on_order_cancel_replace_request Q q (record e { no_party_ids = ps }) id)
            (Keeps-refuse Q q id h e.cl_ord_id error_unsupported_party_ids)))
  Keeps-handle_request c id h (Request.order_mass_cancel_request e) =
      Keeps-checked id h e.cl_ord_id error_invalid_cl_ord_id _ (
        Keeps-add_party_ids Q q c.party_id e.no_party_ids _ _
          (λ ps. Keeps-on_order_mass_cancel_request Q q (record e { no_party_ids = ps }) id)
          (Keeps-refuse Q q id h e.cl_ord_id error_unsupported_msg_type))
  Keeps-handle_request c id h (Request.request_for_positions e) =
      Keeps-checked id h e.pos_req_id error_invalid_req_id _ (
        Keeps-add_party_ids Q q c.party_id e.no_party_ids _ _
          (λ ps. Keeps-on_request_for_positions Q q (record e { no_party_ids = ps }) id)
          (Keeps-refuse Q q id h e.pos_req_id error_unsupported_party_ids))
  Keeps-handle_request c id h (Request.trade_capture_report_request e) =
      Keeps-checked id h e.trade_request_id error_invalid_req_id _ (
        Keeps-add_party_ids Q q c.party_id e.no_party_ids _ _
          (λ ps. Keeps-on_trade_capture_report_request Q q (record e { no_party_ids = ps }) id)
          (Keeps-refuse Q q id h e.cl_ord_id error_unsupported_msg_type))

  Keeps-request_from :
      (s : ClientState) (c : ClientSession) (id : ℕ) (h : Header) (r : Request)
      → Keeps Q (request_from s c id h r)
  unfolding request_from
  Keeps-request_from ClientState.ready c id h r = Keeps-handle_request c id h r
  Keeps-request_from ClientState.waiting_remove_route c id h r = Keeps-make_zombie Q q id
  Keeps-request_from ClientState.zombie c id h r = Keeps-skip
  Keeps-request_from ClientState.waiting_logon c id h r = Keeps-reject_logon Q q id h _
  Keeps-request_from ClientState.waiting_create_route c id h r = Keeps-reject_logon Q q id h _

  Keeps-test_request_from :
      (s : ClientState) (id : ℕ) (h : Header) (t : Text) → Keeps Q (test_request_from s id h t)
  unfolding test_request_from
  Keeps-test_request_from ClientState.waiting_logon id h t = Keeps-reject_logon Q q id h _
  Keeps-test_request_from ClientState.waiting_create_route id h t =
      Keeps-send_admin Q q id (Admin.heartbeat t)
  Keeps-test_request_from ClientState.ready id h t = Keeps-send_admin Q q id (Admin.heartbeat t)
  Keeps-test_request_from ClientState.waiting_remove_route id h t = Keeps-skip
  Keeps-test_request_from ClientState.zombie id h t = Keeps-skip

  Keeps-resend_request_from :
      (s : ClientState) (id : ℕ) (h : Header) → Keeps Q (resend_request_from s id h)
  unfolding resend_request_from
  Keeps-resend_request_from ClientState.ready id h = Keeps-reject_logon Q q id h _
  Keeps-resend_request_from ClientState.waiting_remove_route id h = Keeps-make_zombie Q q id
  Keeps-resend_request_from ClientState.zombie id h = Keeps-skip
  Keeps-resend_request_from ClientState.waiting_logon id h = Keeps-reject_logon Q q id h _
  Keeps-resend_request_from ClientState.waiting_create_route id h = Keeps-reject_logon Q q id h _

  Keeps-heartbeat_from : (s : ClientState) (id : ℕ) (h : Header) → Keeps Q (heartbeat_from s id h)
  unfolding heartbeat_from
  Keeps-heartbeat_from ClientState.ready id h =
      Keeps-modify_session Q q id _ (λ c. refl) (λ c. refl)
  Keeps-heartbeat_from ClientState.waiting_remove_route id h = Keeps-skip
  Keeps-heartbeat_from ClientState.zombie id h = Keeps-skip
  Keeps-heartbeat_from ClientState.waiting_logon id h = Keeps-reject_logon Q q id h _
  Keeps-heartbeat_from ClientState.waiting_create_route id h = Keeps-reject_logon Q q id h _

  Leads-handle_admin :
      (s : ClientState) (id : ℕ) (h : Header) (a : Admin)
      → Leads (Given Q q id s) Q (handle_admin s id h a)
  unfolding handle_admin
  Leads-handle_admin s id h (Admin.test_request t) = Leads-weaken (Keeps-test_request_from s id h t)
  Leads-handle_admin s id h Admin.resend_request = Leads-weaken (Keeps-resend_request_from s id h)
  Leads-handle_admin s id h (Admin.reject e) = Leads-weaken (Keeps-close Q q id)
  Leads-handle_admin s id h (Admin.heartbeat t) = Leads-weaken (Keeps-heartbeat_from s id h)
  Leads-handle_admin s id h (Admin.logon e) = Leads-logon_from Q q s id h e
  Leads-handle_admin s id h (Admin.logout t) = Leads-logout_from Q q s id h

  Leads-dispatch :
      (c : ClientSession) (id : ℕ) (h : Header) (m : ClientMessage)
      → Leads (Given Q q id c.state) Q (dispatch c id h m)
  unfolding dispatch
  Leads-dispatch c id h (ClientMessage.admin a) = Leads-handle_admin c.state id h a
  Leads-dispatch c id h (ClientMessage.request r) = Leads-weaken (
      Keeps-if (is_parsed r) (Keeps-request_from c.state c id h r)
        (Keeps-unexpected_type Q q id h []))
  Leads-dispatch c id h (ClientMessage.trading_session_status_request t) =
      Leads-weaken (Keeps-unexpected_type Q q id h t)
  Leads-dispatch c id h ClientMessage.unexpected = Leads-weaken (Keeps-unexpected_type Q q id h [])
  Leads-dispatch c id h ClientMessage.undecodable = Leads-weaken (Keeps-throw malformed)

  pub Keeps-parse : (id : ℕ) (h : Header) (m : ClientMessage) → Keeps Q (parse id h m)
  unfolding parse
  Keeps-parse id h m = Keeps-then (Keeps-modify_session Q q id _ (λ c. refl) (λ c. refl)) (
      Alive.Keeps-session_at Q id _ (λ c. record {
        at = λ w k. (Leads-dispatch c id h m).at w (k.0, found-IsLive id c c.state w k.1 refl);
      }))
