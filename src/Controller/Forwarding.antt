-- ===== src/Controller/Forwarding.antt =====
-- What becomes of a request that the controller accepts: it goes to the server under the id that
-- was made for it, and what the server answers to that id finds its way back.
use roq_fix_proxy.Prelude.{
  ℕ, ◌≡◌, ◌+◌, ◌%◌, refl, Bool, none, some, ◌∷◌, nat_eq, nat_beq_iff, arith, ◌∙◌,
}
use roq_fix_proxy.Prelude.Text.{Text, text_eq, text_beq_iff}
use roq_fix_proxy.Prelude.Map.{find}
use roq_fix_proxy.Prelude.Effect.{ok, ◌>>◌}
use roq_fix_proxy.Shared.{u64}
use roq_fix_proxy.Message.Request.{Request}
use roq_fix_proxy.Message.Types.{request_type}
use roq_fix_proxy.Mapping.{Mapping, Route, find_client, open_client, add_req_id, emplace_client}
use roq_fix_proxy.Mapping.Laws.{
  find_client-open_client, find_client-emplace_client, find_client-emplace_server,
  find_server-emplace_server, server_to_client-emplace_client,
}
use roq_fix_proxy.World.{World, ServerState, Output, Body}
use roq_fix_proxy.World.Mappings.{MappingName, get, put, get-put_self}
use roq_fix_proxy.World.Access.{Method, modify_mapping}
use roq_fix_proxy.Server.Send.{dispatch_to_server, server_header}
use roq_fix_proxy.Controller.Subscribe.{lookup_req_id}
use roq_fix_proxy.Controller.OrderRequests.{forward_order}

-- Once a request is added, each of its two ids leads to the other.
pub record IsLinked (c r : Text) (route : Route) (m : Mapping) : Type 0 where
  pub forth : find_client route.session_id c m ≡ some r
  pub back : find r m.server_to_client ≡ some route

pub linked :
    (c r : Text) (s : ℕ) (k : Bool) (m : Mapping)
    → find_client s c m ≡ none
    → find r m.server_to_client ≡ none
    → IsLinked c r (record { session_id = s; req_id = c; keep_alive = k }) (add_req_id c r s k m)
unfolding add_req_id
linked c r s k m fresh free = record {
  forth = ground (
    arith,
    find_client-emplace_server s c r (record { session_id = s; req_id = c; keep_alive = k })
        (emplace_client s c r m),
    find_client-emplace_client s s c c r m,
    fresh,
    nat_beq_iff s s,
    text_beq_iff c c,
  );
  back = ground (
    arith,
    find_server-emplace_server r r (record { session_id = s; req_id = c; keep_alive = k })
        (emplace_client s c r m),
    server_to_client-emplace_client s c r m,
    free,
    text_beq_iff r r,
  );
}

-- The session has an entry in the mapping from the lookup on.
abbrev pub opened : MappingName → ℕ → World → World
opened n s w = record w {
  subscriptions = put n (open_client s (get n w.subscriptions)) w.subscriptions;
}

pub not_found :
    (n : MappingName) (s : ℕ) (c : Text) (w : World)
    → find_client s c (get n w.subscriptions) ≡ none
    → find_client s c (get n (opened n s w).subscriptions) ≡ none
not_found n s c w fresh =
    rw (get-put_self n) (find_client-open_client s s c (get n w.subscriptions) ∙ fresh)

pub not_known :
    (n : MappingName) (s : ℕ) (r : Text) (w : World)
    → find r (get n w.subscriptions).server_to_client ≡ none
    → find r (get n (opened n s w).subscriptions).server_to_client ≡ none
unfolding open_client
not_known n s r w free = rw (get-put_self n) free

module _ (n : MappingName) (s : ℕ) (c r : Text) (message : Request) (k : Bool) (w : World) where
  -- The state after the request is sent and added.
  abbrev pub forwarded : World → World
  forwarded v = record v {
    server = record w.server { outbound_msg_seq_num = (w.server.outbound_msg_seq_num + 1) % u64 };
    out =
        Output.to_server
          (server_header (request_type message) ((w.server.outbound_msg_seq_num + 1) % u64) w)
          (Body.request message)
        ∷ w.out;
    subscriptions = put n (add_req_id c r s k (get n v.subscriptions)) v.subscriptions;
  }

  pub forward_order-forwarded :
      (duplicate : Method)
      → w.server.state ≡ ServerState.ready
      → find_client s c (get n w.subscriptions) ≡ none
      → forward_order n s c r message k duplicate w ≡ (ok tt, forwarded (opened n s w))
  unfolding forward_order lookup_req_id modify_mapping ◌>>◌ dispatch_to_server
  forward_order-forwarded duplicate up fresh = rw (not_found n s c w fresh, up, forward_order) refl

-- A request that the session does not use yet, under an id that the server does not know, while the
-- server session is ready: the call returns, the one message sent is the request to the server, and
-- the two ids lead to each other in the mapping afterwards.
pub forward_order-Linked :
    (n : MappingName) (s : ℕ) (c r : Text) (message : Request) (k : Bool) (duplicate : Method)
    (w : World)
    → w.server.state ≡ ServerState.ready
    → find_client s c (get n w.subscriptions) ≡ none
    → find r (get n w.subscriptions).server_to_client ≡ none
    → ((forward_order n s c r message k duplicate w).0 ≡ ok tt)
      × ((forward_order n s c r message k duplicate w).1.out
          ≡ Output.to_server
              (server_header (request_type message) ((w.server.outbound_msg_seq_num + 1) % u64) w)
              (Body.request message)
            ∷ w.out)
      × IsLinked c r
          (record { session_id = s; req_id = c; keep_alive = k })
          (get n (forward_order n s c r message k duplicate w).1.subscriptions)
forward_order-Linked n s c r message k duplicate w up fresh free =
    rw (forward_order-forwarded n s c r message k w duplicate up fresh) (
      refl,
      refl,
      rw (get-put_self n) (linked c r s k _ (not_found n s c w fresh) (not_known n s r w free)),
    )
