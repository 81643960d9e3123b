-- ===== src/Examples/Orders.antt =====
-- The theorems on orders, and on the answers of the server's, at concrete ones.
use roq_fix_proxy.Prelude.{◌≡◌, refl, none, [], ◌∷◌, nat_eq}
use roq_fix_proxy.Prelude.Text.{codes, text_eq, text_beq}
use roq_fix_proxy.Prelude.Map.{find}
use roq_fix_proxy.Prelude.Effect.{ok}
use roq_fix_proxy.Mapping.{find_client}
use roq_fix_proxy.Message.Enums.{Party, PartyIdSource, PartyRole, ExecType}
use roq_fix_proxy.Message.Request.{NewOrderSingle}
use roq_fix_proxy.Message.Response.{Response, ExecutionReport}
use roq_fix_proxy.World.{ClientState}
use roq_fix_proxy.World.Mappings.{get, cl_ord}
use roq_fix_proxy.Controller.Utilities.{
  get_client_from_parties, client_request_id, is_pending, get_client_cl_ord_id,
}
use roq_fix_proxy.Controller.OrderRequests.{on_new_order_single, rejection}
use roq_fix_proxy.Controller.Reports.{on_execution_report, is_rejected}
use roq_fix_proxy.Controller.Delivery.{to_session}
use roq_fix_proxy.Controller.Orders.{server_id, to_server, on_new_order_single-Rejected}
use roq_fix_proxy.Controller.Accepted.{on_execution_report-Accepted}
use roq_fix_proxy.Server.Inbound.{handle_response}
use roq_fix_proxy.Server.Answers.{Sends, readdressed}
use roq_fix_proxy.Server.Delivered.{handle_response-Sends}
use roq_fix_proxy.Examples.Data.{route, ones, plain, session, world}

abbrev party : Party
party = record {
  party_id = ones 3;
  party_id_source = PartyIdSource.proprietary_custom_code;
  party_role = PartyRole.client_id;
}

abbrev order : NewOrderSingle
order = record {
  cl_ord_id = codes "n";
  no_party_ids = party ∷ [];
  account = [];
  symbol = codes "BTC";
  security_exchange = [];
  side = [];
  order_qty = [];
  price = [];
  stop_px = [];
  time_in_force = [];
  exec_inst = [];
  fields = [];
}

abbrev rejected : ExecutionReport
rejected = record (rejection (codes "x") (party ∷ []) (codes "no")) {
  exec_type = ExecType.rejected;
}

on_new_order_single-Rejected_example :
    let w = world ClientState.ready in
    let sending = on_new_order_single order 7 w in
    let report = on_execution_report (record rejected { cl_ord_id = server_id order }) sending.1 in
    (sending.0 ≡ ok tt)
    × (sending.1.out ≡ to_server order w ∷ [])
    × (report.0 ≡ ok tt)
    × (report.1.out
        ≡ to_session 7
            (session ClientState.ready)
            (Response.execution_report
              (record rejected { cl_ord_id = codes "n"; orig_cl_ord_id = get_client_cl_ord_id [] }))
            w
          ∷ sending.1.out)
    × (find_client 7 (codes "n") (get cl_ord report.1.subscriptions) ≡ none)
unfolding find find_client text_beq get_client_from_parties client_request_id
on_new_order_single-Rejected_example =
    on_new_order_single-Rejected order rejected 7 (session ClientState.ready)
      (world ClientState.ready) refl refl refl refl refl refl (refl, (refl, (refl, tt))) refl refl
      refl

-- The open order `o` of session 7 has been traded.
abbrev traded : ExecutionReport
traded = record (rejection (codes "x") (party ∷ []) []) {
  exec_type = ExecType.other 70;
  cl_ord_id = codes "proxy-111:o";
}

on_execution_report-Accepted_example :
    let w = world ClientState.ready in
    ((on_execution_report traded w).0 ≡ ok tt)
    × ((on_execution_report traded w).1.out
        ≡ to_session 7
            (session ClientState.ready)
            (Response.execution_report (record traded {
              cl_ord_id = get_client_cl_ord_id traded.cl_ord_id;
              orig_cl_ord_id = get_client_cl_ord_id traded.orig_cl_ord_id;
            }))
            w
          ∷ [])
unfolding find text_beq get_client_from_parties is_rejected is_pending
on_execution_report-Accepted_example =
    on_execution_report-Accepted traded 7 (session ClientState.ready) (world ClientState.ready)
      (record { alone = refl; single = refl; named = refl }) refl refl refl refl refl

abbrev refresh : Response
refresh =
    Response.market_data_incremental_refresh (record { md_req_id = codes "proxy-11"; fields = [] })

handle_response-Sends_example :
    let w = world ClientState.ready in
    Sends
      (to_session 7 (session ClientState.ready) (readdressed refresh (codes "m")) w)
      w
      (handle_response refresh w)
unfolding find text_beq
handle_response-Sends_example =
    handle_response-Sends (route (codes "m")) (session ClientState.ready) (world ClientState.ready)
      refl refl refresh refl
