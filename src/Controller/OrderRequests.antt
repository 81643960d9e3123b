-- ===== src/Controller/OrderRequests.antt =====
-- The handlers of a client's requests about one order (controller.cpp): OrderStatusRequest,
-- NewOrderSingle, OrderCancelReplaceRequest and OrderCancelRequest.
use roq_fix_proxy.Prelude.{ℕ, Bool, true, false, none, some, List, [], if◌then◌else◌}
use roq_fix_proxy.Prelude.Text.{Text, codes, is_empty}
use roq_fix_proxy.Prelude.Effect.{◌>>=◌, ◌>>◌}
use roq_fix_proxy.Externals.{Externals}
use roq_fix_proxy.Message.Enums.{
  ExecType, OrdStatus, OrdRejReason, CxlRejReason, CxlRejResponseTo, Party,
}
use roq_fix_proxy.Message.Request.{
  Request, OrderStatusRequest, NewOrderSingle, OrderCancelReplaceRequest, OrderCancelRequest,
}
use roq_fix_proxy.Message.Response.{Response, ExecutionReport}
use roq_fix_proxy.Mapping.{emplace_server, open_client}
use roq_fix_proxy.World.Mappings.{MappingName, ord_status, cl_ord}
use roq_fix_proxy.World.Access.{Method, modify_mapping, create_request_id}
use roq_fix_proxy.Server.Send.{dispatch_to_server}
use roq_fix_proxy.Controller.Utilities.{
  dispatch_to_client, get_client_from_parties, client_request_id, add_req_id,
}
use roq_fix_proxy.Controller.Subscribe.{lookup_req_id}
use roq_fix_proxy.Controller.Requests.{error_validation}

abbrev pub error_duplicate_cl_ord_id : Text
error_duplicate_cl_ord_id = codes "DUPLICATE_CL_ORD_ID"

abbrev pub error_duplicate_ord_status_req_id : Text
error_duplicate_ord_status_req_id = codes "DUPLICATE_ORD_STATUS_REQ_ID"

abbrev pub order_id_none : Text
order_id_none = codes "NONE"

-- The decimal 0.0
abbrev pub zero_qty : Text
zero_qty = codes "0.0"

-- A report that rejects a request; what is not named there is empty.
abbrev pub rejection : Text → List Party → Text → ExecutionReport
rejection request_id no_party_ids text = record {
  order_id = request_id;
  cl_ord_id = [];
  orig_cl_ord_id = [];
  ord_status_req_id = [];
  mass_status_req_id = [];
  tot_num_reports = 0;
  last_rpt_requested = false;
  no_party_ids = no_party_ids;
  exec_id = request_id;
  exec_type = ExecType.order_status;
  ord_status = OrdStatus.rejected;
  ord_rej_reason = OrdRejReason.other;
  account = [];
  symbol = [];
  security_exchange = [];
  side = [];
  order_qty = [];
  price = [];
  stop_px = [];
  time_in_force = [];
  exec_inst = [];
  leaves_qty = zero_qty;
  cum_qty = zero_qty;
  avg_px = zero_qty;
  text = text;
  fields = [];
}

-- Where an order request goes from the lookup on: `duplicate` if the session has the id in use,
-- else to the server under `request_id`, and then into the mapping.
unfoldable pub forward_order : MappingName → ℕ → Text → Text → Request → Bool → Method → Method
unfolding lookup_req_id add_req_id
forward_order n session_id req_id request_id message keep_alive duplicate = do
  existing ← lookup_req_id n session_id req_id
  elim existing [
    | some other ↦ duplicate
    | none ↦ (dispatch_to_server message >> add_req_id n req_id request_id session_id keep_alive)
  ]

-- An order status request without an id of the client's: it stands on the server's side alone.
unfoldable pub forward_unnamed : ℕ → Text → Request → Method
unfolding modify_mapping
forward_unnamed session_id request_id message = do
  modify_mapping ord_status (open_client session_id)
  dispatch_to_server message
  modify_mapping ord_status (
      emplace_server request_id
        (record { session_id = session_id; req_id = []; keep_alive = false }))

module _ ⦃ext : Externals⦄ where
  abbrev pub order_status_reject_message : OrderStatusRequest → Text → Text → Response
  order_status_reject_message e text request_id =
      let report = rejection request_id e.no_party_ids text in
      Response.execution_report (record report {
        cl_ord_id = e.cl_ord_id;
        ord_status_req_id = e.ord_status_req_id;
        last_rpt_requested = true;
        account = e.account;
        symbol = e.symbol;
        security_exchange = e.security_exchange;
        side = e.side;
      })

  unfoldable pub order_status_reject : OrderStatusRequest → ℕ → Text → Method
  unfolding create_request_id dispatch_to_client
  order_status_reject e session_id text = do
    request_id ← create_request_id
    dispatch_to_client (order_status_reject_message e text request_id) session_id

  unfoldable pub forward_order_status : OrderStatusRequest → ℕ → Method
  unfolding order_status_reject forward_order forward_unnamed get_client_from_parties
      client_request_id
  forward_order_status e session_id =
      let client_id = get_client_from_parties e.no_party_ids in
      let request_id = client_request_id client_id e.ord_status_req_id in
      let message = Request.order_status_request (record e {
        ord_status_req_id = request_id;
        cl_ord_id = client_request_id client_id e.cl_ord_id;
      }) in
      if is_empty e.ord_status_req_id
      then forward_unnamed session_id request_id message
      else forward_order ord_status session_id e.ord_status_req_id request_id message false
          (order_status_reject e session_id error_duplicate_ord_status_req_id)

  unfoldable pub on_order_status_request : OrderStatusRequest → ℕ → Method
  unfolding forward_order_status order_status_reject
  on_order_status_request e session_id =
      if ext.is_valid (Request.order_status_request e)
      then forward_order_status e session_id
      else order_status_reject e session_id error_validation

  abbrev pub new_order_reject_message : NewOrderSingle → Text → Text → Response
  new_order_reject_message e text request_id =
      let report = rejection request_id e.no_party_ids text in
      Response.execution_report (record report {
        cl_ord_id = e.cl_ord_id;
        account = e.account;
        symbol = e.symbol;
        security_exchange = e.security_exchange;
        side = e.side;
        order_qty = e.order_qty;
        price = e.price;
        stop_px = e.stop_px;
        time_in_force = e.time_in_force;
        exec_inst = e.exec_inst;
      })

  unfoldable pub new_order_reject : NewOrderSingle → ℕ → Text → Method
  unfolding create_request_id dispatch_to_client
  new_order_reject e session_id text = do
    request_id ← create_request_id
    dispatch_to_client (new_order_reject_message e text request_id) session_id

  unfoldable pub on_new_order_single : NewOrderSingle → ℕ → Method
  unfolding new_order_reject forward_order get_client_from_parties client_request_id
  on_new_order_single e session_id =
      let request_id = client_request_id (get_client_from_parties e.no_party_ids) e.cl_ord_id in
      if ext.is_valid (Request.new_order_single e)
      then forward_order cl_ord session_id e.cl_ord_id request_id
          (Request.new_order_single (record e { cl_ord_id = request_id })) true
          (new_order_reject e session_id error_duplicate_cl_ord_id)
      else new_order_reject e session_id error_validation

  abbrev pub cancel_replace_reject_message :
      OrderCancelReplaceRequest → CxlRejReason → Text → Response
  cancel_replace_reject_message e reason text = Response.order_cancel_reject (record {
    order_id = order_id_none;
    cl_ord_id = e.cl_ord_id;
    orig_cl_ord_id = e.orig_cl_ord_id;
    ord_status = OrdStatus.rejected;
    account = e.account;
    cxl_rej_response_to = CxlRejResponseTo.order_cancel_replace_request;
    cxl_rej_reason = reason;
    text = text;
    fields = [];
  })

  unfoldable pub cancel_replace_reject :
      OrderCancelReplaceRequest → ℕ → CxlRejReason → Text → Method
  unfolding dispatch_to_client
  cancel_replace_reject e session_id reason text =
      dispatch_to_client (cancel_replace_reject_message e reason text) session_id

  unfoldable pub on_order_cancel_replace_request : OrderCancelReplaceRequest → ℕ → Method
  unfolding cancel_replace_reject forward_order get_client_from_parties client_request_id
  on_order_cancel_replace_request e session_id =
      let client_id = get_client_from_parties e.no_party_ids in
      let request_id = client_request_id client_id e.cl_ord_id in
      if ext.is_valid (Request.order_cancel_replace_request e)
      then forward_order cl_ord session_id e.cl_ord_id request_id
          (Request.order_cancel_replace_request (record e {
            cl_ord_id = request_id;
            orig_cl_ord_id = client_request_id client_id e.orig_cl_ord_id;
          }))
          true
          (cancel_replace_reject e session_id CxlRejReason.duplicate_cl_ord_id
            error_duplicate_cl_ord_id)
      else cancel_replace_reject e session_id CxlRejReason.other error_validation

  abbrev pub cancel_reject_message : OrderCancelRequest → CxlRejReason → Text → Response
  cancel_reject_message e reason text = Response.order_cancel_reject (record {
    order_id = order_id_none;
    cl_ord_id = e.cl_ord_id;
    orig_cl_ord_id = e.orig_cl_ord_id;
    ord_status = OrdStatus.rejected;
    account = e.account;
    cxl_rej_response_to = CxlRejResponseTo.order_cancel_request;
    cxl_rej_reason = reason;
    text = text;
    fields = [];
  })

  unfoldable pub cancel_reject : OrderCancelRequest → ℕ → CxlRejReason → Text → Method
  unfolding dispatch_to_client
  cancel_reject e session_id reason text =
      dispatch_to_client (cancel_reject_message e reason text) session_id

  unfoldable pub on_order_cancel_request : OrderCancelRequest → ℕ → Method
  unfolding cancel_reject forward_order get_client_from_parties client_request_id
  on_order_cancel_request e session_id =
      let client_id = get_client_from_parties e.no_party_ids in
      let request_id = client_request_id client_id e.cl_ord_id in
      if ext.is_valid (Request.order_cancel_request e)
      then forward_order cl_ord session_id e.cl_ord_id request_id
          (Request.order_cancel_request (record e {
            cl_ord_id = request_id;
            orig_cl_ord_id = client_request_id client_id e.orig_cl_ord_id;
          }))
          true
          (cancel_reject e session_id CxlRejReason.duplicate_cl_ord_id
            error_duplicate_ord_status_req_id)
      else cancel_reject e session_id CxlRejReason.other error_validation
