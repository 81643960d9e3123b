-- ===== src/Controller/Orders.antt =====
-- An order, there and back: what becomes of a request of a client's and of the execution reports that
-- answer it (controller.cpp, NewOrderSingle and ExecutionReport).
use roq_fix_proxy.Prelude.{
  ℕ, ◌≡◌, ◌+◌, ◌%◌, ◌∙◌, refl, ap, true, false, none, some, ◌∷◌, nat_eq, nat_beq_iff, arith,
}
use roq_fix_proxy.Prelude.Text.{Text, text_eq, text_beq_iff, is_empty, Lacks}
use roq_fix_proxy.Prelude.Map.{find}
use roq_fix_proxy.Prelude.Effect.{ok, ◌>>◌, skip, pure}
use roq_fix_proxy.Externals.{Externals}
use roq_fix_proxy.Shared.{u64}
use roq_fix_proxy.Message.Enums.{MsgType, ExecType}
use roq_fix_proxy.Message.Request.{Request, NewOrderSingle}
use roq_fix_proxy.Message.Response.{Response, ExecutionReport}
use roq_fix_proxy.Message.Types.{request_type}
use roq_fix_proxy.Mapping
use roq_fix_proxy.Mapping.{Mapping, Route, find_client, erase_server, erase_client}
use roq_fix_proxy.Mapping.Laws.{
  find_client-erase_client, find_client-erase_server, find_server-erase_server,
}
use roq_fix_proxy.World.{World, ServerState, ClientState, ClientSession, Output, Body}
use roq_fix_proxy.World.Mappings.{get, cl_ord}
use roq_fix_proxy.World.Access.{modify_mapping}
use roq_fix_proxy.Server.Send.{server_header}
use roq_fix_proxy.Client.Deliver.{deliver}
use roq_fix_proxy.Controller.Utilities.{
  remove_req_id, client_request_id, get_client_cl_ord_id, get_client_from_parties, is_pending,
  find_req_id,
}
use roq_fix_proxy.Controller.Responses.{relay_to, forward, remove_if}
use roq_fix_proxy.Controller.Reports.{
  client_view, is_rejected, order_action_report, order_rejected, on_execution_report,
}
use roq_fix_proxy.Controller.OrderRequests.{on_new_order_single}
use roq_fix_proxy.Client.Connection.{client_header}
use roq_fix_proxy.Controller.Ids.{get_client_cl_ord_id-client_request_id}
use roq_fix_proxy.Controller.Forwarding.{
  linked, opened, not_found, not_known, forwarded, forward_order-forwarded,
}
use roq_fix_proxy.Controller.Delivery.{to_session, delivered}

-- An id that is removed is gone on both sides, and the session may use its own id again.
pub record IsFree (r : Text) (route : Route) (m : Mapping) : Type 0 where
  pub server : find r m.server_to_client ≡ none
  pub client : find_client route.session_id route.req_id m ≡ none

removed-IsFree :
    (r : Text) (route : Route) (m : Mapping)
    → is_empty r ≡ false
    → find r m.server_to_client ≡ some route
    → IsFree r route (Mapping.remove_req_id r m).1
unfolding Mapping.remove_req_id
removed-IsFree r route m named known =
    rw (named, known, Mapping.remove_req_id)
      (record {
        server = ground (
          arith,
          find_server-erase_server r r (erase_client route.session_id route.req_id m),
          text_beq_iff r r,
        );
        client = ground (
          arith,
          find_client-erase_server route.session_id route.req_id r
              (erase_client route.session_id route.req_id m),
          find_client-erase_client route.session_id route.session_id route.req_id route.req_id m,
          nat_beq_iff route.session_id route.session_id,
          text_beq_iff route.req_id route.req_id,
        );
      })

-- A report on what was done about an order, not on its status.
pub record IsAction (e : ExecutionReport) : Type 0 where
  pub alone : is_empty e.ord_status_req_id ≡ true
  pub single : is_empty e.mass_status_req_id ≡ true
  pub named : is_empty e.cl_ord_id ≡ false

is_rejected-rejected : (t : ExecType) → t ≡ ExecType.rejected → is_rejected t ≡ true
unfolding is_rejected
is_rejected-rejected t e = rw e refl

is_pending-rejected : (t : ExecType) → t ≡ ExecType.rejected → is_pending t ≡ false
unfolding is_pending
is_pending-rejected t e = rw e refl

module _ ⦃ext : Externals⦄ where
  -- A report that rejects an order which a session sent that is ready: the call returns, the report
  -- goes to this session and to no other, with the ids as the client knows them, and the order's ids are
  -- free on both sides afterwards.
  pub on_execution_report-Rejected :
      (e : ExecutionReport) (route : Route) (c : ClientSession) (w : World)
      → IsAction e
      → e.exec_type ≡ ExecType.rejected
      → find e.cl_ord_id (get cl_ord w.subscriptions).server_to_client ≡ some route
      → find route.session_id w.sessions ≡ some c
      → c.state ≡ ClientState.ready
      → ((on_execution_report e w).0 ≡ ok tt)
        × ((on_execution_report e w).1.out
            ≡ to_session route.session_id c (Response.execution_report (client_view e)) w ∷ w.out)
        × IsFree e.cl_ord_id route (get cl_ord (on_execution_report e w).1.subscriptions)
  unfolding on_execution_report order_action_report order_rejected find_req_id relay_to forward pure
      ◌>>◌ deliver remove_req_id modify_mapping remove_if skip
  on_execution_report-Rejected e route c w is kind known there up =
      rw
        (
          is.alone,
          is.single,
          is_rejected-rejected _ kind,
          is_pending-rejected _ kind,
          known,
          delivered route.session_id c (Response.execution_report (client_view e)) w refl there up,
        )
        (refl, refl, removed-IsFree e.cl_ord_id route _ is.named known)

  -- The id that the server knows the order by.
  abbrev pub server_id : NewOrderSingle → Text
  server_id e = client_request_id (get_client_from_parties e.no_party_ids) e.cl_ord_id

  abbrev pub to_server : NewOrderSingle → World → Output
  to_server e w =
      Output.to_server
        (server_header MsgType.new_order_single ((w.server.outbound_msg_seq_num + 1) % u64) w)
        (Body.request (Request.new_order_single (record e { cl_ord_id = server_id e })))

  abbrev ordered : NewOrderSingle → ℕ → World → World
  ordered e s w =
      forwarded cl_ord s e.cl_ord_id (server_id e)
        (Request.new_order_single (record e { cl_ord_id = server_id e })) true w (opened cl_ord s w)

  on_new_order_single-ordered :
      (e : NewOrderSingle) (s : ℕ) (w : World)
      → ext.is_valid (Request.new_order_single e) ≡ true
      → w.server.state ≡ ServerState.ready
      → find_client s e.cl_ord_id (get cl_ord w.subscriptions) ≡ none
      → on_new_order_single e s w ≡ (ok tt, ordered e s w)
  unfolding on_new_order_single
  on_new_order_single-ordered e s w valid up fresh =
      rw valid (forward_order-forwarded cl_ord s e.cl_ord_id (server_id e) _ true w _ up fresh)

  server_id-named : (e : NewOrderSingle) → is_empty (server_id e) ≡ false
  unfolding client_request_id
  server_id-named e = refl

  abbrev renamed : ExecutionReport → Text → Response
  renamed x own =
      Response.execution_report
        (record x { cl_ord_id = own; orig_cl_ord_id = get_client_cl_ord_id x.orig_cl_ord_id })

  -- A session that is ready sends a valid order under an id that it does not use yet, for a client
  -- whose name has no colon, while the server session is ready and does not know the order: the call
  -- returns and sends the order to the server under an id made of the client's name and the session's
  -- id, and a report that rejects the order under that id goes to this session, under the session's own
  -- id, which the session may use again after that.
  pub on_new_order_single-Rejected :
      (e : NewOrderSingle) (x : ExecutionReport) (s : ℕ) (c : ClientSession) (w : World)
      → ext.is_valid (Request.new_order_single e) ≡ true
      → w.server.state ≡ ServerState.ready
      → find_client s e.cl_ord_id (get cl_ord w.subscriptions) ≡ none
      → find (server_id e) (get cl_ord w.subscriptions).server_to_client ≡ none
      → find s w.sessions ≡ some c
      → c.state ≡ ClientState.ready
      → Lacks b':' (get_client_from_parties e.no_party_ids)
      → is_empty x.ord_status_req_id ≡ true
      → is_empty x.mass_status_req_id ≡ true
      → x.exec_type ≡ ExecType.rejected
      → let sending = on_new_order_single e s w in
        let report = on_execution_report (record x { cl_ord_id = server_id e }) sending.1 in
        (sending.0 ≡ ok tt)
        × (sending.1.out ≡ to_server e w ∷ w.out)
        × (report.0 ≡ ok tt)
        × (report.1.out
            ≡ to_session s c
                (Response.execution_report (record x {
                  cl_ord_id = e.cl_ord_id;
                  orig_cl_ord_id = get_client_cl_ord_id x.orig_cl_ord_id;
                }))
                w
              ∷ sending.1.out)
        × (find_client s e.cl_ord_id (get cl_ord report.1.subscriptions) ≡ none)
  unfolding client_view client_header request_type
  on_new_order_single-Rejected e x s c w valid up fresh free there live named alone single kind =
      rw (on_new_order_single-ordered e s w valid up fresh) (
        let d =
          on_execution_report-Rejected (record x { cl_ord_id = server_id e })
            (record { session_id = s; req_id = e.cl_ord_id; keep_alive = true }) c (ordered e s w)
            (record { alone = alone; single = single; named = server_id-named e }) kind
            (linked e.cl_ord_id (server_id e) s true _ (not_found cl_ord s e.cl_ord_id w fresh)
              (not_known cl_ord s (server_id e) w free)).back
            there live in
        let own =
          get_client_cl_ord_id-client_request_id (get_client_from_parties e.no_party_ids)
            e.cl_ord_id named in
        (
          refl,
          refl,
          d.0,
          d.1 ∙ ap (λ t. to_session s c (renamed x t) w ∷ (ordered e s w).out) own,
          d.2.client,
        ))
