-- ===== src/Server/Delivered.antt =====
-- An answer of the server's goes to the session that asked (controller.cpp, the handlers of
-- server::Session::Handler).
use roq_fix_proxy.Prelude.{
  ℕ, ◌≡◌, ◌-◌, refl, Bool, true, false, Option, none, some, nat_eq, Bool-cases, inl, inr,
}
use roq_fix_proxy.Prelude.Text.{Text, text_eq, is_empty}
use roq_fix_proxy.Prelude.Map.{find}
use roq_fix_proxy.Prelude.Effect.{Result, ok, err, ◌>>◌, resume, pure}
use roq_fix_proxy.Externals.{Externals}
use roq_fix_proxy.Mapping.{Route}
use roq_fix_proxy.Message.Response.{Response, ExecutionReport, BusinessMessageReject}
use roq_fix_proxy.World.{World, ClientState, ClientSession, Output}
use roq_fix_proxy.World.Mappings.{
  MappingName, get, security, security_status, md, ord_status, mass_status, pos, trade, cl_ord,
  mass_cancel,
}
use roq_fix_proxy.World.Access.{modify_mapping}
use roq_fix_proxy.Client.Connection.{client_header}
use roq_fix_proxy.Client.Deliver.{deliver, send_if_ready}
use roq_fix_proxy.Controller.Utilities.{find_req_id, remove_req_id, ensure_cl_ord_id}
use roq_fix_proxy.Controller.Responses.{
  Callback, relay, relay_to, forward, rejected_mapping, on_business_message_reject,
  business_message_reject_in, on_security_list, on_security_definition, on_security_status,
  on_market_data_request_reject, on_market_data_snapshot_full_refresh,
  on_market_data_incremental_refresh, on_trade_capture_report_request_ack, on_trade_capture_report,
  on_request_for_positions_ack, ack_positions, on_position_report, report_position,
  set_total_num_pos_reports,
}
use roq_fix_proxy.Controller.Reports.{
  client_view, on_order_cancel_reject, on_order_mass_cancel_report, order_status_report,
  mass_status_report, on_execution_report,
}
use roq_fix_proxy.Controller.Delivery.{to_session, delivered, removed}
use roq_fix_proxy.Controller.Accepted.{Tracks-ensure_cl_ord_id}
use roq_fix_proxy.Server.Inbound.{handle_response}
use roq_fix_proxy.Server.Rejected.{asked_in-rejected_mapping}
use roq_fix_proxy.Server.Answers.{
  reported, asked_in, named, request_of, renamed, readdressed, Knows, Sends,
}

module _ ⦃ext : Externals⦄ (route : Route) (c : ClientSession) (w : World)
    (there : find route.session_id w.sessions ≡ some c) (up : c.state ≡ ClientState.ready) where
  forward-Sends :
      (n : MappingName) (id : Text) (r : Response) (b : Bool) (t : ℕ) (dispatch : Callback)
      → deliver route.session_id r ≡ send_if_ready route.session_id r
      → dispatch route w ≡ forward r b route (record w { total_num_pos_reports = t })
      → find id (get n w.subscriptions).server_to_client ≡ some route
      → Sends (to_session route.session_id c r w) w (relay n id dispatch w)
  unfolding relay find_req_id relay_to forward pure ◌>>◌ client_header
  forward-Sends n id r b t dispatch passed is known =
      rw
        (
          known,
          is,
          delivered route.session_id c r (record w { total_num_pos_reports = t }) passed there up,
        )
        (removed n id b _)

  -- The entry is removed besides.
  then_removed :
      (o : Output) (n : MappingName) (id : Text) (x : Result (Unit {0})) (v : World)
      → Sends o w (x, v)
      → Sends o w (resume x (λ _. remove_req_id n id) v)
  unfolding remove_req_id modify_mapping
  then_removed o n id (ok tt) v h = (refl, h.1)
  then_removed o n id (err e) v h = absurd cc

  rejected-Sends :
      (m : Option MappingName) (e : BusinessMessageReject)
      → asked_in e.ref_msg_type ≡ m
      → Knows route w (named e.business_reject_ref_id m)
      → Sends
          (to_session route.session_id c
            (Response.business_message_reject (record e { business_reject_ref_id = route.req_id }))
            w)
          w
          (business_message_reject_in (rejected_mapping e.ref_msg_type) e w)
  unfolding business_message_reject_in deliver
  rejected-Sends none e asked known = absurd known
  rejected-Sends (some n) e asked known = rw (asked_in-rejected_mapping e.ref_msg_type n asked) (
      forward-Sends n e.business_reject_ref_id
        (Response.business_message_reject (record e { business_reject_ref_id = route.req_id }))
        false w.total_num_pos_reports _ refl refl known)

module _ ⦃ext : Externals⦄ (route : Route) (c : ClientSession) (w : World)
    (there : find route.session_id w.sessions ≡ some c) (up : c.state ≡ ClientState.ready) where
  abbrev To : Response → Result (Unit {0}) × World → Type 0
  To r x = Sends (to_session route.session_id c r w) w x

  -- After the status of the order was noted.
  noted-Sends :
      (n : MappingName) (id : Text) (e x : ExecutionReport) (b : Bool) (dispatch : Callback)
      → ((v : World) → dispatch route v ≡ forward (Response.execution_report x) b route v)
      → find id (get n w.subscriptions).server_to_client ≡ some route
      → To
          (Response.execution_report x)
          ((ensure_cl_ord_id e.cl_ord_id e.ord_status >> relay n id dispatch) w)
  unfolding ◌>>◌ deliver client_header
  noted-Sends n id e x b dispatch is known =
      let (m, first) = Tracks-ensure_cl_ord_id e.cl_ord_id e.ord_status w in
      rw first (
        forward-Sends route c (record w { cl_ord_id = m }) there up n id
          (Response.execution_report x) b w.total_num_pos_reports dispatch refl (is _) known)

  report-Sends :
      (e : ExecutionReport)
      → Knows route w (reported e)
      → To (Response.execution_report (renamed e route.req_id)) (on_execution_report e w)
  unfolding on_execution_report order_status_report mass_status_report client_view
  report-Sends e known = elim (Bool-cases (is_empty e.ord_status_req_id)) [
    | inl a ↦ elim (Bool-cases (is_empty e.mass_status_req_id)) [
      | inl b ↦ absurd (rw (a, b) at known)
      | inr b ↦
          rw (a, b)
            (noted-Sends mass_status e.mass_status_req_id e _ e.last_rpt_requested _ (λ v. refl)
              (rw (a, b) at known))
    ]
    | inr a ↦
        rw a (noted-Sends ord_status e.ord_status_req_id e _ true _ (λ v. refl) (rw a at known))
  ]

  -- A message of the server's that answers a request of a session which is ready, as the table `request_of`
  -- says, so neither a UserResponse, nor a report on an order that no request for a status asked for, nor
  -- the reject of a UserRequest, a TradingSessionStatusRequest or an OrderMassCancelRequest: the call
  -- returns, and the message goes to this session and to no other, under the id that the session gave the
  -- request, and a report with the session's ids of the order.
  pub handle_response-Sends :
      (r : Response)
      → Knows route w (request_of r)
      → Sends (to_session route.session_id c (readdressed r route.req_id) w) w (handle_response r w)
  unfolding handle_response on_business_message_reject on_order_cancel_reject
      on_order_mass_cancel_report on_request_for_positions_ack ack_positions on_position_report
      report_position set_total_num_pos_reports on_security_list on_security_definition
      on_security_status on_market_data_request_reject on_market_data_snapshot_full_refresh
      on_market_data_incremental_refresh on_trade_capture_report_request_ack on_trade_capture_report
      deliver ◌>>◌ client_header
  handle_response-Sends (Response.business_message_reject e) known =
      rejected-Sends route c w there up (asked_in e.ref_msg_type) e refl known
  handle_response-Sends (Response.user_response e) known = absurd known
  handle_response-Sends (Response.security_list e) known =
      forward-Sends route c w there up security e.security_req_id
        (Response.security_list (record e { security_req_id = route.req_id })) _
        w.total_num_pos_reports _ refl refl known
  handle_response-Sends (Response.security_definition e) known =
      forward-Sends route c w there up security e.security_req_id
        (Response.security_definition (record e { security_req_id = route.req_id })) _
        w.total_num_pos_reports _ refl refl known
  handle_response-Sends (Response.security_status e) known =
      forward-Sends route c w there up security_status e.security_status_req_id
        (Response.security_status (record e { security_status_req_id = route.req_id })) _
        w.total_num_pos_reports _ refl refl known
  handle_response-Sends (Response.market_data_request_reject e) known =
      forward-Sends route c w there up md e.md_req_id
        (Response.market_data_request_reject (record e { md_req_id = route.req_id })) _
        w.total_num_pos_reports _ refl refl known
  handle_response-Sends (Response.market_data_snapshot_full_refresh e) known =
      forward-Sends route c w there up md e.md_req_id
        (Response.market_data_snapshot_full_refresh (record e { md_req_id = route.req_id })) _
        w.total_num_pos_reports _ refl refl known
  handle_response-Sends (Response.market_data_incremental_refresh e) known =
      forward-Sends route c w there up md e.md_req_id
        (Response.market_data_incremental_refresh (record e { md_req_id = route.req_id })) _
        w.total_num_pos_reports _ refl refl known
  handle_response-Sends (Response.order_cancel_reject e) known =
      then_removed route c w there up _ cl_ord e.cl_ord_id _ _ (
        forward-Sends route c w there up cl_ord e.cl_ord_id
          (readdressed (Response.order_cancel_reject e) route.req_id) _ w.total_num_pos_reports _
          refl refl known)
  handle_response-Sends (Response.order_mass_cancel_report e) known =
      then_removed route c w there up _ mass_cancel e.cl_ord_id _ _ (
        forward-Sends route c w there up mass_cancel e.cl_ord_id
          (readdressed (Response.order_mass_cancel_report e) route.req_id) _ w.total_num_pos_reports
          _ refl refl known)
  handle_response-Sends (Response.execution_report e) known = report-Sends e known
  handle_response-Sends (Response.request_for_positions_ack e) known =
      forward-Sends route c w there up pos e.pos_req_id
        (Response.request_for_positions_ack (record e { pos_req_id = route.req_id })) _ _ _ refl
        refl known
  handle_response-Sends (Response.position_report e) known =
      forward-Sends route c (record w { total_num_pos_reports = w.total_num_pos_reports - 1 }) there
        up pos e.pos_req_id (Response.position_report (record e { pos_req_id = route.req_id })) _
        (w.total_num_pos_reports - 1) _ refl refl known
  handle_response-Sends (Response.trade_capture_report_request_ack e) known =
      forward-Sends route c w there up trade e.trade_request_id
        (Response.trade_capture_report_request_ack (record e { trade_request_id = route.req_id })) _
        w.total_num_pos_reports _ refl refl known
  handle_response-Sends (Response.trade_capture_report e) known =
      forward-Sends route c w there up trade e.trade_request_id
        (Response.trade_capture_report (record e { trade_request_id = route.req_id })) _
        w.total_num_pos_reports _ refl refl known
