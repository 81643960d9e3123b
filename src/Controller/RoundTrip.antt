-- ===== src/Controller/RoundTrip.antt =====
-- A subscription of market data, there and back: the request of a client and a snapshot that answers
-- it (controller.cpp, MarketDataRequest and MarketDataSnapshotFullRefresh).
use roq_fix_proxy.Prelude.{ℕ, ◌≡◌, ◌+◌, ◌%◌, refl, true, none, some, ◌∷◌, nat_eq}
use roq_fix_proxy.Prelude.Text.{Text, text_eq}
use roq_fix_proxy.Prelude.Map.{find}
use roq_fix_proxy.Prelude.Effect.{ok, ◌>>◌}
use roq_fix_proxy.Externals.{Externals}
use roq_fix_proxy.Shared
use roq_fix_proxy.Shared.{u64}
use roq_fix_proxy.Message.Enums.{MsgType, SubscriptionRequestType}
use roq_fix_proxy.Message.Request.{Request, MarketDataRequest}
use roq_fix_proxy.Message.Response.{Response}
use roq_fix_proxy.Message.Enums.{Fields}
use roq_fix_proxy.Message.Types.{request_type, response_type}
use roq_fix_proxy.Mapping.{find_client, open_client, add_req_id}
use roq_fix_proxy.World.{World, ServerState, ClientState, ClientSession, Output, Body}
use roq_fix_proxy.World.Mappings.{get, md}
use roq_fix_proxy.World.Access.{create_request_id}
use roq_fix_proxy.Server.Send.{dispatch_to_server, server_header}
use roq_fix_proxy.Client.Connection.{client_header}
use roq_fix_proxy.Controller.Subscribe.{lookup_req_id}
use roq_fix_proxy.Controller.Requests.{on_market_data_request}
use roq_fix_proxy.Controller.Responses.{on_market_data_snapshot_full_refresh}
use roq_fix_proxy.Controller.Forwarding.{IsLinked, linked, opened, not_found, not_known}
use roq_fix_proxy.Server.Inbound.{handle_response}
use roq_fix_proxy.Server.Delivered.{handle_response-Sends}

module _ ⦃ext : Externals⦄ where
  -- The id that the server gets next.
  abbrev pub next_id : World → Text
  next_id w = (Shared.create_request_id w.shared).0

  abbrev message : MarketDataRequest → Text → Request
  message e id = Request.market_data_request (record e { md_req_id = id })

  -- The state once the request is sent and added.
  abbrev pub started : MarketDataRequest → ℕ → World → World
  started e s w = record (opened md s w) {
    shared = (Shared.create_request_id w.shared).1;
    server = record w.server { outbound_msg_seq_num = (w.server.outbound_msg_seq_num + 1) % u64 };
    out =
        Output.to_server
          (server_header MsgType.market_data_request ((w.server.outbound_msg_seq_num + 1) % u64) w)
          (Body.request (message e (next_id w)))
        ∷ w.out;
    subscriptions = record w.subscriptions {
      md_req_id =
          add_req_id e.md_req_id (next_id w) s true (open_client s w.subscriptions.md_req_id);
    };
  }

  on_market_data_request-started :
      (e : MarketDataRequest) (s : ℕ) (w : World)
      → ext.is_valid (Request.market_data_request e) ≡ true
      → e.subscription_request_type ≡ SubscriptionRequestType.snapshot_updates
      → w.server.state ≡ ServerState.ready
      → find_client s e.md_req_id (get md w.subscriptions) ≡ none
      → on_market_data_request e s w ≡ (ok tt, started e s w)
  unfolding on_market_data_request ◌>>◌ lookup_req_id create_request_id dispatch_to_server
      request_type
  on_market_data_request-started e s w valid kind up fresh =
      rw (valid, kind, not_found md s e.md_req_id w fresh, up, on_market_data_request) refl

  started-Linked :
      (e : MarketDataRequest) (s : ℕ) (w : World)
      → find_client s e.md_req_id (get md w.subscriptions) ≡ none
      → find (next_id w) (get md w.subscriptions).server_to_client ≡ none
      → IsLinked e.md_req_id
          (next_id w)
          (record { session_id = s; req_id = e.md_req_id; keep_alive = true })
          (get md (started e s w).subscriptions)
  started-Linked e s w fresh free =
      linked e.md_req_id (next_id w) s true _ (not_found md s e.md_req_id w fresh)
        (not_known md s (next_id w) w free)

  -- A session that is ready asks for market data and updates, by a valid request with an id of its own
  -- that it does not use yet, while the server session is ready and the next id is not in the mapping:
  -- the call returns and sends the request to the server under the next id, and a snapshot that comes
  -- under this id, whatever its contents, is sent to this session under the session's own id.
  pub on_market_data_request-Answered :
      (e : MarketDataRequest) (fields : Fields) (s : ℕ) (c : ClientSession) (w : World)
      → ext.is_valid (Request.market_data_request e) ≡ true
      → e.subscription_request_type ≡ SubscriptionRequestType.snapshot_updates
      → w.server.state ≡ ServerState.ready
      → find_client s e.md_req_id (get md w.subscriptions) ≡ none
      → find (next_id w) (get md w.subscriptions).server_to_client ≡ none
      → find s w.sessions ≡ some c
      → c.state ≡ ClientState.ready
      → let x = on_market_data_request e s w in
        let y =
          on_market_data_snapshot_full_refresh
            (record { md_req_id = next_id w; fields = fields })
            x.1 in
        (x.0 ≡ ok tt)
        × (x.1.out
            ≡ Output.to_server
                (server_header MsgType.market_data_request
                  ((w.server.outbound_msg_seq_num + 1) % u64)
                  w)
                (Body.request (Request.market_data_request (record e { md_req_id = next_id w })))
              ∷ w.out)
        × (y.0 ≡ ok tt)
        × (y.1.out
            ≡ Output.to_client s
                (client_header MsgType.market_data_snapshot_full_refresh
                  ((c.outbound_msg_seq_num + 1) % u64)
                  c
                  w)
                (Body.response (
                  Response.market_data_snapshot_full_refresh
                    (record { md_req_id = e.md_req_id; fields = fields })))
              ∷ x.1.out)
  unfolding client_header Shared.create_request_id handle_response response_type
  on_market_data_request-Answered e fields s c w valid kind up fresh free there live =
      rw (on_market_data_request-started e s w valid kind up fresh) (
        let d =
          handle_response-Sends (record { session_id = s; req_id = e.md_req_id; keep_alive = true })
            c (started e s w) there live
            (Response.market_data_snapshot_full_refresh
              (record { md_req_id = next_id w; fields = fields }))
            (started-Linked e s w fresh free).back in
        (refl, refl, d.0, d.1))
