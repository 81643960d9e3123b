-- ===== src/Controller/Unsubscribing.antt =====
-- What becomes of a request that ends a subscription (controller.cpp, SecurityListRequest,
-- SecurityDefinitionRequest, SecurityStatusRequest and MarketDataRequest).
use roq_fix_proxy.Prelude.{◌≡◌, ◌+◌, ◌%◌, refl, none, [], ◌∷◌, nat_eq}
use roq_fix_proxy.Prelude.Text.{Text, text_eq}
use roq_fix_proxy.Prelude.Map.{find}
use roq_fix_proxy.Prelude.Effect.{ok, ◌>>◌}
use roq_fix_proxy.Externals.{Externals}
use roq_fix_proxy.Shared
use roq_fix_proxy.Shared.{u64, request_id_text}
use roq_fix_proxy.Message.Request.{Request}
use roq_fix_proxy.Mapping
use roq_fix_proxy.Mapping.{Mapping, Route}
use roq_fix_proxy.World.{World, ServerState, Output, Body}
use roq_fix_proxy.World.Mappings.{MappingName, get, get-put_self}
use roq_fix_proxy.World.Access.{create_request_id, modify_mapping}
use roq_fix_proxy.Server.Send.{dispatch_to_server, server_header}
use roq_fix_proxy.Controller.Utilities.{remove_req_id}
use roq_fix_proxy.Message.Types.{request_type}
use roq_fix_proxy.Controller.Subscribe.{stop_request}

-- An id that the server's side does not know is not removed.
remove_unknown :
    (r : Text) (m : Mapping) → find r m.server_to_client ≡ none → (Mapping.remove_req_id r m).1 ≡ m
unfolding Mapping.remove_req_id
remove_unknown [] m free = refl
remove_unknown (b ∷ r) m free = rw (free, Mapping.remove_req_id) refl

module _ ⦃ext : Externals⦄ where
  -- Where the server session is ready and the next request id is not in the mapping: the call returns, a
  -- request that ends a subscription is sent to the server, under the next request id and with the next
  -- number, nothing else is sent, and the entry of the subscription stays in its mapping.
  pub stop_request-Stays :
      (n : MappingName) (message : Text → Request) (w : World)
      → w.server.state ≡ ServerState.ready
      → find (Shared.create_request_id w.shared).0 (get n w.subscriptions).server_to_client ≡ none
      → ((stop_request n create_request_id message w).0 ≡ ok tt)
        × ((stop_request n create_request_id message w).1.out
            ≡ Output.to_server
                (server_header
                  (request_type (message (Shared.create_request_id w.shared).0))
                  ((w.server.outbound_msg_seq_num + 1) % u64)
                  w)
                (Body.request (message (Shared.create_request_id w.shared).0))
              ∷ w.out)
        × (get n (stop_request n create_request_id message w).1.subscriptions
            ≡ get n w.subscriptions)
  unfolding stop_request create_request_id dispatch_to_server ◌>>◌ remove_req_id modify_mapping
  stop_request-Stays n message w up free =
      rw (up, stop_request) (refl, refl, rw (get-put_self n) (remove_unknown _ _ free))
