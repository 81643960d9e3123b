-- ===== src/Server/Answers.antt =====
-- Whom an answer of the server's goes to (controller.cpp, the handlers of server::Session::Handler).
use roq_fix_proxy.Prelude.{◌≡◌, Option, none, some, ◌∷◌, nat_eq, not, if◌then◌else◌}
use roq_fix_proxy.Prelude.Text.{Text, text_eq, is_empty}
use roq_fix_proxy.Prelude.Map.{find}
use roq_fix_proxy.Prelude.Effect.{Result, ok}
use roq_fix_proxy.Mapping.{Route}
use roq_fix_proxy.Message.Response.{Response, ExecutionReport}
use roq_fix_proxy.World.{World, Output}
use roq_fix_proxy.World.Mappings.{
  MappingName, get, security, security_status, md, ord_status, mass_status, pos, trade, cl_ord,
  mass_cancel,
}
use roq_fix_proxy.Controller.Utilities.{get_client_cl_ord_id}
use roq_fix_proxy.Message.Enums.{MsgType}

-- The request for a status that an execution report answers. What becomes of an order is not the answer to
-- one request.
abbrev pub reported : ExecutionReport → Option (MappingName × Text)
reported e =
    if not (is_empty e.ord_status_req_id)
    then some (ord_status, e.ord_status_req_id)
    else if not (is_empty e.mass_status_req_id)
    then some (mass_status, e.mass_status_req_id)
    else none

-- The mapping that keeps the requests of a type, for those whose rejects are passed on.
unfoldable pub asked_in : MsgType → Option MappingName
asked_in MsgType.security_list_request = some security
asked_in MsgType.security_definition_request = some security
asked_in MsgType.security_status_request = some security_status
asked_in MsgType.market_data_request = some md
asked_in MsgType.order_status_request = some ord_status
asked_in MsgType.order_mass_status_request = some mass_status
asked_in MsgType.new_order_single = some cl_ord
asked_in MsgType.order_cancel_request = some cl_ord
asked_in MsgType.order_cancel_replace_request = some cl_ord
asked_in MsgType.request_for_positions = some pos
asked_in MsgType.trade_capture_report_request = some trade
asked_in _ = none

abbrev pub named : Text → Option MappingName → Option (MappingName × Text)
named id none = none
named id (some n) = some (n, id)

-- The request that a message answers, by its mapping and its id with the server.
abbrev pub request_of : Response → Option (MappingName × Text)
request_of (Response.business_message_reject e) =
    named e.business_reject_ref_id (asked_in e.ref_msg_type)
request_of (Response.user_response e) = none
request_of (Response.security_list e) = some (security, e.security_req_id)
request_of (Response.security_definition e) = some (security, e.security_req_id)
request_of (Response.security_status e) = some (security_status, e.security_status_req_id)
request_of (Response.market_data_request_reject e) = some (md, e.md_req_id)
request_of (Response.market_data_snapshot_full_refresh e) = some (md, e.md_req_id)
request_of (Response.market_data_incremental_refresh e) = some (md, e.md_req_id)
request_of (Response.order_cancel_reject e) = some (cl_ord, e.cl_ord_id)
request_of (Response.order_mass_cancel_report e) = some (mass_cancel, e.cl_ord_id)
request_of (Response.execution_report e) = reported e
request_of (Response.request_for_positions_ack e) = some (pos, e.pos_req_id)
request_of (Response.position_report e) = some (pos, e.pos_req_id)
request_of (Response.trade_capture_report_request_ack e) = some (trade, e.trade_request_id)
request_of (Response.trade_capture_report e) = some (trade, e.trade_request_id)

-- A report under the id of the session's request, with the ids of the order as the session gave them.
abbrev pub renamed : ExecutionReport → Text → ExecutionReport
renamed e id =
    if not (is_empty e.ord_status_req_id)
    then record e {
      cl_ord_id = get_client_cl_ord_id e.cl_ord_id;
      orig_cl_ord_id = get_client_cl_ord_id e.orig_cl_ord_id;
      ord_status_req_id = id;
    }
    else record e {
      cl_ord_id = get_client_cl_ord_id e.cl_ord_id;
      orig_cl_ord_id = get_client_cl_ord_id e.orig_cl_ord_id;
      mass_status_req_id = id;
    }

-- The message under the id that the session gave the request.
abbrev pub readdressed : Response → Text → Response
readdressed (Response.business_message_reject e) id =
    Response.business_message_reject (record e { business_reject_ref_id = id })
readdressed (Response.user_response e) id = Response.user_response e
readdressed (Response.security_list e) id =
    Response.security_list (record e { security_req_id = id })
readdressed (Response.security_definition e) id =
    Response.security_definition (record e { security_req_id = id })
readdressed (Response.security_status e) id =
    Response.security_status (record e { security_status_req_id = id })
readdressed (Response.market_data_request_reject e) id =
    Response.market_data_request_reject (record e { md_req_id = id })
readdressed (Response.market_data_snapshot_full_refresh e) id =
    Response.market_data_snapshot_full_refresh (record e { md_req_id = id })
readdressed (Response.market_data_incremental_refresh e) id =
    Response.market_data_incremental_refresh (record e { md_req_id = id })
readdressed (Response.order_cancel_reject e) id =
    Response.order_cancel_reject
      (record e { cl_ord_id = id; orig_cl_ord_id = get_client_cl_ord_id e.orig_cl_ord_id })
readdressed (Response.order_mass_cancel_report e) id =
    Response.order_mass_cancel_report (record e { cl_ord_id = id })
readdressed (Response.execution_report e) id = Response.execution_report (renamed e id)
readdressed (Response.request_for_positions_ack e) id =
    Response.request_for_positions_ack (record e { pos_req_id = id })
readdressed (Response.position_report e) id =
    Response.position_report (record e { pos_req_id = id })
readdressed (Response.trade_capture_report_request_ack e) id =
    Response.trade_capture_report_request_ack (record e { trade_request_id = id })
readdressed (Response.trade_capture_report e) id =
    Response.trade_capture_report (record e { trade_request_id = id })

-- The request is one that the session's mapping has, and this is its entry.
abbrev pub Knows : Route → World → Option (MappingName × Text) → Type 0
Knows route w none = ⊥
Knows route w (some (n, id)) = find id (get n w.subscriptions).server_to_client ≡ some route

-- The call returned, and one message was sent besides what was sent before.
abbrev pub Sends : Output → World → Result (Unit {0}) × World → Type 0
Sends o w x = (x.0 ≡ ok tt) × (x.1.out ≡ o ∷ w.out)
