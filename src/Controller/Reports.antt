-- ===== src/Controller/Reports.antt =====
-- The handlers of the reports on orders (controller.cpp): OrderCancelReject, OrderMassCancelReport
-- and ExecutionReport.
use roq_fix_proxy.Prelude.{Bool, true, false, ◌&&◌, not, if◌then◌else◌}
use roq_fix_proxy.Prelude.Text.{is_empty}
use roq_fix_proxy.Prelude.Effect.{◌>>◌, skip}
use roq_fix_proxy.Externals.{Externals}
use roq_fix_proxy.Message.Enums.{ExecType}
use roq_fix_proxy.Message.Response.{
  Response, OrderCancelReject, OrderMassCancelReport, ExecutionReport,
}
use roq_fix_proxy.World.Mappings.{ord_status, mass_status, cl_ord, mass_cancel}
use roq_fix_proxy.World.Access.{Method}
use roq_fix_proxy.Controller.Utilities.{
  remove_req_id, broadcast, ensure_cl_ord_id, remove_cl_ord_id, is_pending, get_client_from_parties,
  get_client_cl_ord_id,
}
use roq_fix_proxy.Controller.Responses.{relay, forward}

unfoldable pub is_rejected : ExecType → Bool
is_rejected ExecType.rejected = true
is_rejected _ = false

-- The report as the client sees it: its own ids in place of the server's.
unfoldable pub client_view : ExecutionReport → ExecutionReport
unfolding get_client_cl_ord_id
client_view e = record e {
  cl_ord_id = get_client_cl_ord_id e.cl_ord_id;
  orig_cl_ord_id = get_client_cl_ord_id e.orig_cl_ord_id;
}

module _ ⦃ext : Externals⦄ where
  unfoldable pub on_order_cancel_reject : OrderCancelReject → Method
  unfolding relay forward remove_req_id get_client_cl_ord_id
  on_order_cancel_reject e = do
    relay cl_ord e.cl_ord_id (λ r.
        forward
          (Response.order_cancel_reject (record e {
            cl_ord_id = r.req_id;
            orig_cl_ord_id = get_client_cl_ord_id e.orig_cl_ord_id;
          }))
          false r)
    remove_req_id cl_ord e.cl_ord_id

  unfoldable pub on_order_mass_cancel_report : OrderMassCancelReport → Method
  unfolding relay forward remove_req_id
  on_order_mass_cancel_report e = do
    relay mass_cancel e.cl_ord_id (λ r.
        forward (Response.order_mass_cancel_report (record e { cl_ord_id = r.req_id })) false r)
    remove_req_id mass_cancel e.cl_ord_id

  -- The answer to an order status request.
  unfoldable pub order_status_report : ExecutionReport → Method
  unfolding ensure_cl_ord_id relay forward client_view
  order_status_report e = do
    ensure_cl_ord_id e.cl_ord_id e.ord_status
    relay ord_status e.ord_status_req_id (λ r.
        forward
          (Response.execution_report (record (client_view e) { ord_status_req_id = r.req_id })) true
          r)

  -- One of the answers to an order mass status request.
  unfoldable pub mass_status_report : ExecutionReport → Method
  unfolding ensure_cl_ord_id relay forward client_view
  mass_status_report e = do
    ensure_cl_ord_id e.cl_ord_id e.ord_status
    relay mass_status e.mass_status_req_id (λ r.
        forward
          (Response.execution_report (record (client_view e) { mass_status_req_id = r.req_id }))
          e.last_rpt_requested r)

  -- A rejected order goes to the session that sent it.
  unfoldable pub order_rejected : ExecutionReport → Method
  unfolding relay forward client_view
  order_rejected e =
      relay cl_ord e.cl_ord_id (forward (Response.execution_report (client_view e)) false)

  -- What has become of an order goes to the session of its client, whoever sent the order.
  unfoldable pub order_accepted : ExecutionReport → Method
  unfolding remove_cl_ord_id ensure_cl_ord_id broadcast client_view is_pending
      get_client_from_parties
  order_accepted e = do
    if ext.is_order_complete e.ord_status
        then remove_cl_ord_id e.cl_ord_id
        else if is_pending e.exec_type
        then ensure_cl_ord_id e.cl_ord_id e.ord_status
        else skip
    if not (is_pending e.exec_type) && not (is_empty e.orig_cl_ord_id)
        then remove_cl_ord_id e.orig_cl_ord_id
        else skip
    broadcast (Response.execution_report (client_view e)) (get_client_from_parties e.no_party_ids)

  unfoldable pub order_action_report : ExecutionReport → Method
  unfolding order_rejected order_accepted remove_req_id is_pending is_rejected
  order_action_report e = do
    if is_rejected e.exec_type then order_rejected e else order_accepted e
    if is_pending e.exec_type then skip else remove_req_id cl_ord e.cl_ord_id

  unfoldable pub on_execution_report : ExecutionReport → Method
  unfolding order_status_report mass_status_report order_action_report
  on_execution_report e =
      if not (is_empty e.ord_status_req_id)
      then order_status_report e
      else if not (is_empty e.mass_status_req_id)
      then mass_status_report e
      else order_action_report e
