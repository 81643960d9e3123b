-- ===== src/Controller/Responses.antt =====
-- The handlers of what the server sends (controller.cpp, server::Session::Handler), but for the
-- reports on orders: the message goes to the session that made the request, under the id that the
-- session gave it, and the request is forgotten where no more is to come.
use roq_fix_proxy.Prelude.{
  ℕ, ◌-◌, Bool, true, false, ◌&&◌, ◌||◌, not, Option, none, some, nat_eq, nat_beq, if◌then◌else◌,
}
use roq_fix_proxy.Prelude.Text.{Text, text_eq}
use roq_fix_proxy.Prelude.Map.{find, erase, contains}
use roq_fix_proxy.Prelude.Effect.{Result, ok, err, fatal, ◌>>=◌, ◌>>◌, pure, gets, skip}
use roq_fix_proxy.Externals.{Externals}
use roq_fix_proxy.Message.Enums.{
  MsgType, UserStatus, SecurityRequestResult, SecurityResponseType, PosReqResult, PosReqStatus,
}
use roq_fix_proxy.Message.Response.{
  Response, BusinessMessageReject, UserResponse, SecurityList, SecurityDefinition, SecurityStatus,
  MarketDataRequestReject, MarketDataSnapshotFullRefresh, MarketDataIncrementalRefresh,
  RequestForPositionsAck, PositionReport, TradeCaptureReportRequestAck, TradeCaptureReport,
}
use roq_fix_proxy.Mapping.{Route}
use roq_fix_proxy.World.{World, Users}
use roq_fix_proxy.World.Mappings.{
  MappingName, security, security_status, trad_ses, md, ord_status, mass_status, pos, trade, cl_ord,
}
use roq_fix_proxy.World.Access.{Method, session_at, modify_users}
use roq_fix_proxy.Client.Deliver.{deliver, is_ready}
use roq_fix_proxy.Controller.Utilities.{
  find_req_id, remove_req_id, dispatch_to_client, user_add, user_remove,
}

-- `dispatch` of a handler: it says whether the request is to be removed.
abbrev pub Callback : Type 0
Callback = Route → World → Result Bool × World

unfoldable pub remove_if : MappingName → Text → Bool → Method
unfolding remove_req_id
remove_if n req_id true = remove_req_id n req_id
remove_if n req_id false = skip

unfoldable pub relay_to : MappingName → Text → Callback → Option Route → Method
unfolding remove_if
relay_to n req_id dispatch none = skip
relay_to n req_id dispatch (some route) = do remove ← dispatch route; remove_if n req_id remove

-- `if (find_req_id(mapping, req_id, dispatch)) { if (remove) remove_req_id(mapping, req_id); }`
unfoldable pub relay : MappingName → Text → Callback → Method
unfolding relay_to find_req_id
relay n req_id dispatch = do found ← find_req_id n req_id; relay_to n req_id dispatch found

unfoldable pub set_total_num_pos_reports : ℕ → Method
set_total_num_pos_reports n w = (ok tt, record w { total_num_pos_reports = n })

unfoldable pub is_valid_list : SecurityRequestResult → Bool
is_valid_list SecurityRequestResult.valid = true
is_valid_list _ = false

unfoldable pub is_accepted : SecurityResponseType → Bool
is_accepted SecurityResponseType.accept_security_proposal_as_is = true
is_accepted _ = false

unfoldable pub is_valid_pos : PosReqResult → Bool
is_valid_pos PosReqResult.valid = true
is_valid_pos _ = false

unfoldable pub is_rejected_pos : PosReqStatus → Bool
is_rejected_pos PosReqStatus.rejected = true
is_rejected_pos _ = false

-- The mapping that a reject of a message of this type is looked up in.
unfoldable pub rejected_mapping : MsgType → Option MappingName
rejected_mapping MsgType.trade_capture_report_request = some trade
rejected_mapping MsgType.order_mass_status_request = some mass_status
rejected_mapping MsgType.request_for_positions = some pos
rejected_mapping MsgType.new_order_single = some cl_ord
rejected_mapping MsgType.order_cancel_request = some cl_ord
rejected_mapping MsgType.order_cancel_replace_request = some cl_ord
rejected_mapping MsgType.order_status_request = some ord_status
rejected_mapping MsgType.market_data_request = some md
rejected_mapping MsgType.market_data_snapshot_full_refresh = some md
rejected_mapping MsgType.market_data_incremental_refresh = some md
rejected_mapping MsgType.market_data_request_reject = some md
rejected_mapping MsgType.security_definition_request = some security
rejected_mapping MsgType.security_status_request = some security_status
rejected_mapping MsgType.trading_session_status_request = some trad_ses
rejected_mapping MsgType.security_list_request = some security
rejected_mapping _ = none

-- The answer to a user request is there.
unfoldable pub answered : Text → ℕ → Users → Users
answered user_request_id session_id u = record u {
  client_to_server = erase session_id u.client_to_server;
  server_to_client = erase user_request_id u.server_to_client;
}

module _ ⦃ext : Externals⦄ where
  unfoldable pub forward : Response → Bool → Callback
  unfolding dispatch_to_client
  forward r remove route = do dispatch_to_client r route.session_id; pure remove

  unfoldable pub business_message_reject_in : Option MappingName → BusinessMessageReject → Method
  unfolding relay forward
  business_message_reject_in none e = skip
  business_message_reject_in (some n) e = relay n e.business_reject_ref_id (λ r.
      forward (Response.business_message_reject (record e { business_reject_ref_id = r.req_id }))
        false r)

  unfoldable pub on_business_message_reject : BusinessMessageReject → Method
  unfolding business_message_reject_in rejected_mapping
  on_business_message_reject e = business_message_reject_in (rejected_mapping e.ref_msg_type) e

  unfoldable pub update_user : UserStatus → Text → ℕ → Method
  unfolding session_at user_add user_remove is_ready
  update_user UserStatus.logged_in username session_id = user_add username session_id
  update_user UserStatus.not_logged_in username session_id = do
    c ← session_at session_id
    user_remove username (is_ready c.state)
  update_user (UserStatus.other n) username session_id = skip

  unfoldable pub user_answered : UserResponse → ℕ → Method
  unfolding update_user modify_users answered deliver
  user_answered e session_id = do
    update_user e.user_status e.username session_id
    modify_users (answered e.user_request_id session_id)
    deliver session_id (Response.user_response e)

  unfoldable pub on_user_response : UserResponse → Method
  unfolding user_answered user_remove
  on_user_response e w = elim (find e.user_request_id w.subscriptions.user.server_to_client) [
    | none ↦ (err fatal, w)
    | some session_id ↦
        (if contains session_id w.sessions
            then user_answered e session_id
            else user_remove e.username false)
          w
  ]

  unfoldable pub on_security_list : SecurityList → Method
  unfolding relay forward is_valid_list
  on_security_list e = relay security e.security_req_id (λ r.
      forward (Response.security_list (record e { security_req_id = r.req_id }))
        (not (is_valid_list e.security_request_result) || not r.keep_alive) r)

  unfoldable pub on_security_definition : SecurityDefinition → Method
  unfolding relay forward is_accepted
  on_security_definition e = relay security e.security_req_id (λ r.
      forward (Response.security_definition (record e { security_req_id = r.req_id }))
        (not (is_accepted e.security_response_type) || not r.keep_alive) r)

  unfoldable pub on_security_status : SecurityStatus → Method
  unfolding relay forward
  on_security_status e = relay security_status e.security_status_req_id (λ r.
      forward (Response.security_status (record e { security_status_req_id = r.req_id }))
        (not r.keep_alive) r)

  unfoldable pub on_market_data_request_reject : MarketDataRequestReject → Method
  unfolding relay forward
  on_market_data_request_reject e = relay md e.md_req_id (λ r.
      forward (Response.market_data_request_reject (record e { md_req_id = r.req_id })) true r)

  unfoldable pub on_market_data_snapshot_full_refresh : MarketDataSnapshotFullRefresh → Method
  unfolding relay forward
  on_market_data_snapshot_full_refresh e = relay md e.md_req_id (λ r.
      forward (Response.market_data_snapshot_full_refresh (record e { md_req_id = r.req_id }))
        (not r.keep_alive) r)

  unfoldable pub on_market_data_incremental_refresh : MarketDataIncrementalRefresh → Method
  unfolding relay forward
  on_market_data_incremental_refresh e = relay md e.md_req_id (λ r.
      forward (Response.market_data_incremental_refresh (record e { md_req_id = r.req_id })) false
        r)

  -- `dispatch` of the acknowledgement: how many reports are to come.
  unfoldable pub ack_positions : RequestForPositionsAck → Callback
  unfolding forward set_total_num_pos_reports is_valid_pos is_rejected_pos
  ack_positions e route =
      let failure = not (is_valid_pos e.pos_req_result) || is_rejected_pos e.pos_req_status in
      let message = Response.request_for_positions_ack (record e { pos_req_id = route.req_id }) in
      do
        set_total_num_pos_reports (if failure then 0 else e.total_num_pos_reports)
        forward message (failure || nat_beq e.total_num_pos_reports 0) route

  unfoldable pub on_request_for_positions_ack : RequestForPositionsAck → Method
  unfolding relay ack_positions
  on_request_for_positions_ack e = relay pos e.pos_req_id (ack_positions e)

  unfoldable pub report_position : PositionReport → Callback
  unfolding forward is_valid_pos
  report_position e route = do
    total ← gets (λ (w : World). w.total_num_pos_reports)
    forward (Response.position_report (record e { pos_req_id = route.req_id }))
        (if is_valid_pos e.pos_req_result then nat_beq total 0 && not route.keep_alive else true)
        route

  -- `-` stops at 0, as the source does.
  unfoldable pub on_position_report : PositionReport → Method
  unfolding relay report_position set_total_num_pos_reports
  on_position_report e = do
    total ← gets (λ (w : World). w.total_num_pos_reports)
    set_total_num_pos_reports (total - 1)
    relay pos e.pos_req_id (report_position e)

  unfoldable pub on_trade_capture_report_request_ack : TradeCaptureReportRequestAck → Method
  unfolding relay forward
  on_trade_capture_report_request_ack e = relay trade e.trade_request_id (λ r.
      forward (Response.trade_capture_report_request_ack (record e { trade_request_id = r.req_id }))
        (not r.keep_alive) r)

  unfoldable pub on_trade_capture_report : TradeCaptureReport → Method
  unfolding relay forward
  on_trade_capture_report e = relay trade e.trade_request_id (λ r.
      forward (Response.trade_capture_report (record e { trade_request_id = r.req_id }))
        (e.last_rpt_requested && not r.keep_alive) r)
