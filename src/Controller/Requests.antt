-- ===== src/Controller/Requests.antt =====
-- The handlers of a client's requests about users, securities, market data and trades
-- (controller.cpp, client::Session::Handler).
use roq_fix_proxy.Prelude.{ℕ, false, Option, none, some, [], nat_eq, if◌then◌else◌}
use roq_fix_proxy.Prelude.Text.{Text, text_eq, codes, is_empty}
use roq_fix_proxy.Prelude.Map.{find, assign, try_emplace}
use roq_fix_proxy.Prelude.Effect.{ok, err, fatal, not_ready, ◌>>=◌, ◌>>◌, pure, throw, gets}
use roq_fix_proxy.Externals.{Externals}
use roq_fix_proxy.Message.Enums.{
  UserRequestType, SecurityRequestResult, SecurityResponseType, MdReqRejReason, TradeRequestResult,
  TradeRequestStatus,
}
use roq_fix_proxy.Message.Request.{
  Request, UserRequest, SecurityListRequest, SecurityDefinitionRequest, SecurityStatusRequest,
  MarketDataRequest, TradeCaptureReportRequest,
}
use roq_fix_proxy.Message.Response.{Response}
use roq_fix_proxy.World.{World, Users}
use roq_fix_proxy.World.Mappings.{security, security_status, md, trade}
use roq_fix_proxy.World.Access.{Method, modify_users, create_request_id}
use roq_fix_proxy.Server.Send.{dispatch_to_server}
use roq_fix_proxy.Controller.Utilities.{
  dispatch_to_client, user_is_locked, get_subscription_request_type, get_client_from_parties,
  client_request_id,
}
use roq_fix_proxy.Controller.Subscribe.{
  Refusal, validation, unknown_type, duplicate, unknown_id, subscribe,
}

abbrev pub error_validation : Text
error_validation = codes "VALIDATION"

abbrev pub error_unknown_subscription_request_type : Text
error_unknown_subscription_request_type = codes "UNKNOWN_SUBSCRIPTION_REQUEST_TYPE"

-- `switch (user_request.user_request_type)`
unfoldable pub check_user_request : UserRequestType → Text → Method
unfolding user_is_locked
check_user_request UserRequestType.log_on_user username w =
    if user_is_locked username w then (err (not_ready (codes "locked")), w) else (ok tt, w)
check_user_request UserRequestType.log_off_user username w = (ok tt, w)
check_user_request (UserRequestType.other n) username w = (err fatal, w)

-- The text that client_to_server[session_id] holds.
abbrev pub text_of : Option Text → Text
text_of none = []
text_of (some t) = t

unfoldable pub register : Text → ℕ → Users → Users
register user_request_id session_id u = record u {
  client_to_server = assign session_id user_request_id u.client_to_server;
  server_to_client = try_emplace user_request_id session_id u.server_to_client;
}

unfoldable pub on_user_request : UserRequest → ℕ → Method
unfolding check_user_request modify_users register
on_user_request e session_id = do
  check_user_request e.user_request_type e.username
  tmp ← gets (λ (w : World). text_of (find session_id w.subscriptions.user.client_to_server))
  if is_empty tmp
      then (modify_users (register e.user_request_id session_id)
          >> dispatch_to_server (Request.user_request e))
      else throw fatal

module _ ⦃ext : Externals⦄ where
  abbrev pub security_list_reject_message : SecurityListRequest → Text → Response
  security_list_reject_message e request_id = Response.security_list (record {
    security_req_id = e.security_req_id;
    security_response_id = request_id;
    security_request_result = SecurityRequestResult.invalid_or_unsupported;
    fields = [];
  })

  unfoldable pub security_list_reject : SecurityListRequest → ℕ → Refusal → Method
  unfolding create_request_id dispatch_to_client
  security_list_reject e session_id why = do
    request_id ← create_request_id
    dispatch_to_client (security_list_reject_message e request_id) session_id

  unfoldable pub on_security_list_request : SecurityListRequest → ℕ → Method
  unfolding security_list_reject subscribe create_request_id get_subscription_request_type
  on_security_list_request e session_id =
      if ext.is_valid (Request.security_list_request e)
      then subscribe security session_id e.security_req_id
          (get_subscription_request_type e.subscription_request_type) create_request_id
          (λ id. Request.security_list_request (record e { security_req_id = id }))
          (security_list_reject e session_id)
      else security_list_reject e session_id validation

  abbrev pub security_definition_reject_message : SecurityDefinitionRequest → Text → Response
  security_definition_reject_message e request_id = Response.security_definition (record {
    security_req_id = e.security_req_id;
    security_response_id = request_id;
    security_response_type = SecurityResponseType.reject_security_proposal;
    symbol = e.symbol;
    security_exchange = e.security_exchange;
    fields = [];
  })

  unfoldable pub security_definition_reject : SecurityDefinitionRequest → ℕ → Refusal → Method
  unfolding create_request_id dispatch_to_client
  security_definition_reject e session_id why = do
    request_id ← create_request_id
    dispatch_to_client (security_definition_reject_message e request_id) session_id

  unfoldable pub on_security_definition_request : SecurityDefinitionRequest → ℕ → Method
  unfolding security_definition_reject subscribe create_request_id get_subscription_request_type
  on_security_definition_request e session_id =
      if ext.is_valid (Request.security_definition_request e)
      then subscribe security session_id e.security_req_id
          (get_subscription_request_type e.subscription_request_type) create_request_id
          (λ id. Request.security_definition_request (record e { security_req_id = id }))
          (security_definition_reject e session_id)
      else security_definition_reject e session_id validation

  abbrev pub security_status_reject_message : SecurityStatusRequest → Response
  security_status_reject_message e = Response.security_status (record {
    security_status_req_id = e.security_status_req_id;
    symbol = e.symbol;
    security_exchange = e.security_exchange;
    unsolicited_indicator = false;
    fields = [];
  })

  unfoldable pub security_status_reject : SecurityStatusRequest → ℕ → Refusal → Method
  unfolding dispatch_to_client
  security_status_reject e session_id why =
      dispatch_to_client (security_status_reject_message e) session_id

  unfoldable pub on_security_status_request : SecurityStatusRequest → ℕ → Method
  unfolding security_status_reject subscribe create_request_id get_subscription_request_type
  on_security_status_request e session_id =
      if ext.is_valid (Request.security_status_request e)
      then subscribe security_status session_id e.security_status_req_id
          (get_subscription_request_type e.subscription_request_type) create_request_id
          (λ id. Request.security_status_request (record e { security_status_req_id = id }))
          (security_status_reject e session_id)
      else security_status_reject e session_id validation

  unfoldable pub md_reason : Refusal → MdReqRejReason
  md_reason validation = MdReqRejReason.unsupported_scope
  md_reason unknown_type = MdReqRejReason.unsupported_subscription_request_type
  md_reason duplicate = MdReqRejReason.duplicate_md_req_id
  md_reason unknown_id = MdReqRejReason.unsupported_subscription_request_type

  unfoldable pub md_text : Refusal → Text
  md_text validation = error_validation
  md_text unknown_type = error_unknown_subscription_request_type
  md_text duplicate = codes "DUPLICATE_MD_REQ_ID"
  md_text unknown_id = codes "UNKNOWN_MD_REQ_ID"

  abbrev pub market_data_reject_message : MarketDataRequest → Refusal → Response
  market_data_reject_message e why =
      Response.market_data_request_reject
        (record { md_req_id = e.md_req_id; md_req_rej_reason = md_reason why; text = md_text why })

  unfoldable pub market_data_reject : MarketDataRequest → ℕ → Refusal → Method
  unfolding dispatch_to_client md_reason md_text
  market_data_reject e session_id why =
      dispatch_to_client (market_data_reject_message e why) session_id

  unfoldable pub on_market_data_request : MarketDataRequest → ℕ → Method
  unfolding market_data_reject subscribe create_request_id
  on_market_data_request e session_id =
      if ext.is_valid (Request.market_data_request e)
      then subscribe md session_id e.md_req_id e.subscription_request_type create_request_id
          (λ id. Request.market_data_request (record e { md_req_id = id }))
          (market_data_reject e session_id)
      else market_data_reject e session_id validation

  unfoldable pub trade_text : Refusal → Text
  trade_text validation = error_validation
  trade_text unknown_type = error_unknown_subscription_request_type
  trade_text duplicate = codes "DUPLICATE_TRADE_REQUEST_ID"
  trade_text unknown_id = codes "UNKNOWN_TRADE_REQUEST_ID"

  -- The request id that is made in the rejection is not used.
  abbrev pub trade_capture_report_reject_message : TradeCaptureReportRequest → Refusal → Response
  trade_capture_report_reject_message e why = Response.trade_capture_report_request_ack (record {
    trade_request_id = e.trade_request_id;
    trade_request_type = e.trade_request_type;
    trade_request_result = TradeRequestResult.other;
    trade_request_status = TradeRequestStatus.rejected;
    symbol = e.symbol;
    security_exchange = e.security_exchange;
    text = trade_text why;
  })

  unfoldable pub trade_capture_report_reject : TradeCaptureReportRequest → ℕ → Refusal → Method
  unfolding dispatch_to_client create_request_id trade_text
  trade_capture_report_reject e session_id why = do
    request_id ← create_request_id
    dispatch_to_client (trade_capture_report_reject_message e why) session_id

  unfoldable pub on_trade_capture_report_request : TradeCaptureReportRequest → ℕ → Method
  unfolding trade_capture_report_reject subscribe get_subscription_request_type
      get_client_from_parties client_request_id
  on_trade_capture_report_request e session_id =
      if ext.is_valid (Request.trade_capture_report_request e)
      then subscribe trade session_id e.trade_request_id
          (get_subscription_request_type e.subscription_request_type)
          (pure (client_request_id (get_client_from_parties e.no_party_ids) e.trade_request_id))
          (λ id. Request.trade_capture_report_request (record e { trade_request_id = id }))
          (trade_capture_report_reject e session_id)
      else trade_capture_report_reject e session_id validation
