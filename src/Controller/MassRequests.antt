-- ===== src/Controller/MassRequests.antt =====
-- The handlers of a client's requests about all of its orders (controller.cpp):
-- OrderMassStatusRequest and OrderMassCancelRequest.
use roq_fix_proxy.Prelude.{ℕ, true, false, [], if◌then◌else◌}
use roq_fix_proxy.Prelude.Text.{Text, codes}
use roq_fix_proxy.Prelude.Effect.{◌>>=◌}
use roq_fix_proxy.Externals.{Externals}
use roq_fix_proxy.Message.Enums.{MassCancelResponse, MassCancelRejectReason}
use roq_fix_proxy.Message.Request.{Request, OrderMassStatusRequest, OrderMassCancelRequest}
use roq_fix_proxy.Message.Response.{Response}
use roq_fix_proxy.World.Mappings.{mass_status, mass_cancel}
use roq_fix_proxy.World.Access.{Method, create_request_id}
use roq_fix_proxy.Controller.Utilities.{
  dispatch_to_client, get_client_from_parties, client_request_id,
}
use roq_fix_proxy.Controller.Requests.{error_validation}
use roq_fix_proxy.Controller.OrderRequests.{rejection, error_duplicate_cl_ord_id, forward_order}

module _ ⦃ext : Externals⦄ where
  abbrev pub mass_status_reject_message : OrderMassStatusRequest → Text → Text → Response
  mass_status_reject_message e text request_id =
      let report = rejection request_id e.no_party_ids text in
      Response.execution_report (record report {
        mass_status_req_id = e.mass_status_req_id;
        last_rpt_requested = true;
        account = e.account;
        symbol = e.symbol;
        security_exchange = e.security_exchange;
        side = e.side;
      })

  unfoldable pub mass_status_reject : OrderMassStatusRequest → ℕ → Text → Method
  unfolding create_request_id dispatch_to_client
  mass_status_reject e session_id text = do
    request_id ← create_request_id
    dispatch_to_client (mass_status_reject_message e text request_id) session_id

  unfoldable pub on_order_mass_status_request : OrderMassStatusRequest → ℕ → Method
  unfolding mass_status_reject forward_order get_client_from_parties client_request_id
  on_order_mass_status_request e session_id =
      let request_id =
        client_request_id (get_client_from_parties e.no_party_ids) e.mass_status_req_id in
      if ext.is_valid (Request.order_mass_status_request e)
      then forward_order mass_status session_id e.mass_status_req_id request_id
          (Request.order_mass_status_request (record e { mass_status_req_id = request_id })) false
          (mass_status_reject e session_id (codes "DUPLICATE_MASS_STATUS_REQ_ID"))
      else mass_status_reject e session_id error_validation

  abbrev pub mass_cancel_reject_message : OrderMassCancelRequest → Text → Response
  mass_cancel_reject_message e text = Response.order_mass_cancel_report (record {
    cl_ord_id = e.cl_ord_id;
    order_id = e.cl_ord_id;
    mass_cancel_request_type = e.mass_cancel_request_type;
    mass_cancel_response = MassCancelResponse.cancel_request_rejected;
    mass_cancel_reject_reason = MassCancelRejectReason.other;
    symbol = e.symbol;
    security_exchange = e.security_exchange;
    side = e.side;
    text = text;
    no_party_ids = e.no_party_ids;
    fields = [];
  })

  unfoldable pub mass_cancel_reject : OrderMassCancelRequest → ℕ → Text → Method
  unfolding dispatch_to_client
  mass_cancel_reject e session_id text =
      dispatch_to_client (mass_cancel_reject_message e text) session_id

  unfoldable pub on_order_mass_cancel_request : OrderMassCancelRequest → ℕ → Method
  unfolding mass_cancel_reject forward_order get_client_from_parties client_request_id
  on_order_mass_cancel_request e session_id =
      let request_id = client_request_id (get_client_from_parties e.no_party_ids) e.cl_ord_id in
      if ext.is_valid (Request.order_mass_cancel_request e)
      then forward_order mass_cancel session_id e.cl_ord_id request_id
          (Request.order_mass_cancel_request (record e { cl_ord_id = request_id })) false
          (mass_cancel_reject e session_id error_duplicate_cl_ord_id)
      else mass_cancel_reject e session_id error_validation
