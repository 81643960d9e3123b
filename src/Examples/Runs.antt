-- ===== src/Examples/Runs.antt =====
-- Each theorem at a concrete state.
use roq_fix_proxy.Prelude.{
  ℕ, ◌≡◌, ◌+◌, ◌%◌, ◌↔◌, refl, true, false, none, some, [], ◌∷◌, arith, if◌then◌else◌, nat_beq_iff,
  nat_eq,
}
use roq_fix_proxy.Prelude.Text.{Text, codes, text_eq, text_beq, text_beq_iff}
use roq_fix_proxy.Prelude.Map.{find}
use roq_fix_proxy.Prelude.Effect.{ok}
use roq_fix_proxy.Shared
use roq_fix_proxy.Shared.{
  Shared, LogonResult, success, failure, enter, already_logged_on, session_logon,
  session_logout_helper, session_cleanup, session_remove, add_user, remove_user, after_check,
  invalid_username, u64,
}
use roq_fix_proxy.Mapping.{find_client}
use roq_fix_proxy.Mapping.Routing.{IsRouted, empty-IsRouted}
use roq_fix_proxy.Message.Enums.{MsgType}
use roq_fix_proxy.Message.Response.{Response}
use roq_fix_proxy.World.{World, ClientState, Output, Body}
use roq_fix_proxy.World.Mappings.{
  MappingName, get, is_optional, AllRouted, security, security_status, trad_ses, md, ord_status,
  mass_status, pos, trade, cl_ord, mass_cancel,
}
use roq_fix_proxy.World.Access.{create_request_id}
use roq_fix_proxy.Server.Send.{server_header}
use roq_fix_proxy.Message.Types.{request_type}
use roq_fix_proxy.Controller.Disconnect.{client_disconnected}
use roq_fix_proxy.Controller.Utilities.{client_request_id, get_client_cl_ord_id}
use roq_fix_proxy.Controller.Subscribe.{stop_request}
use roq_fix_proxy.Controller.OrderRequests.{forward_order}
use roq_fix_proxy.Controller.Responses.{on_market_data_snapshot_full_refresh}
use roq_fix_proxy.Controller.Ids.{
  get_client_cl_ord_id-client_request_id, client_request_id_injective,
}
use roq_fix_proxy.Controller.Forwarding.{IsLinked, forward_order-Linked}
use roq_fix_proxy.Controller.Unsubscribing.{stop_request-Stays}
use roq_fix_proxy.Client.Inbound.{dispatch, ClientMessage, is_parsed}
use roq_fix_proxy.Client.Gate.{no_logon, dispatch-Unlogged}
use roq_fix_proxy.Client.Connection.{client_header}
use roq_fix_proxy.Controller.RoundTrip.{next_id, on_market_data_request-Answered}
use roq_fix_proxy.Controller.Requests.{on_market_data_request}
use roq_fix_proxy.Message.Request.{Request, MarketDataRequest}
use roq_fix_proxy.Message.Enums.{SubscriptionRequestType, EncryptMethod}
use roq_fix_proxy.Message.Response.{Logon}
use roq_fix_proxy.Client.Logon.{invalid_logon}
use roq_fix_proxy.Client.Admission.{IsAdmissible, invalid_logon-iff-IsAdmissible}
use roq_fix_proxy.Manager.{remove_zombies}
use roq_fix_proxy.Manager.Removal.{listed, remove_zombies-Exact}
use roq_fix_proxy.Server.Inbound.{server_disconnected}
use roq_fix_proxy.Invariant.Loss.{AllZombies, server_disconnected-AllZombies}
use roq_fix_proxy.Events.{Event, Reach, here, next, turn}
use roq_fix_proxy.Manager.{on_connection}
use roq_fix_proxy.Invariant.Routing.{Reach-AllRouted}
use roq_fix_proxy.Invariant.Locks.{IsLocked, Reach-IsLocked}
use roq_fix_proxy.Invariant.Forgetting.{Forgotten}
use roq_fix_proxy.Invariant.Returning.{IsHonest, client_disconnected-Forgets}
use roq_fix_proxy.Examples.Data.{
  ones, plain, plain-IsDocumented, user, secret, idle, busy, session, route, one_route,
  subscriptions, world, header, md_request,
}

-- The data of the runs is well formed.
one_route-IsRouted : (c r : Text) → IsRouted false (one_route c r)
unfolding find_client find
one_route-IsRouted c r = record {
  at = λ q x f e. ground (arith, text_beq_iff r q, text_beq_iff c c);
}

subscriptions-AllRouted : AllRouted subscriptions
subscriptions-AllRouted = record { at = routed }
  where
    routed : (n : MappingName) → IsRouted (is_optional n) (get n subscriptions)
    routed md = one_route-IsRouted _ _
    routed cl_ord = one_route-IsRouted _ _
    routed security = empty-IsRouted _
    routed security_status = empty-IsRouted _
    routed trad_ses = empty-IsRouted _
    routed ord_status = empty-IsRouted _
    routed mass_status = empty-IsRouted _
    routed pos = empty-IsRouted _
    routed trade = empty-IsRouted _
    routed mass_cancel = empty-IsRouted _

subscriptions-IsLocked : IsLocked subscriptions.user
unfolding find
subscriptions-IsLocked = record {
  at = λ name id e. ground (arith, nat_beq_iff 7 id, text_beq_iff (ones 3) name);
}

world-IsHonest : IsHonest (world ClientState.ready)
world-IsHonest = record { at = λ e. refl }

-- A new connection comes in.
abbrev later : World
later = (turn (record { system = 1; realtime = 1 }) Event.connection (world ClientState.ready)).1

world-Reach : Reach (world ClientState.ready) later
unfolding turn on_connection
world-Reach = next (record { system = 1; realtime = 1 }) Event.connection here refl

Reach-AllRouted_example : AllRouted later.subscriptions
Reach-AllRouted_example =
    Reach-AllRouted (world ClientState.ready) later world-Reach subscriptions-AllRouted

Reach-IsLocked_example : IsLocked later.subscriptions.user
Reach-IsLocked_example =
    Reach-IsLocked (world ClientState.ready) later world-Reach subscriptions-IsLocked

client_disconnected-Forgets_example :
    let w = world ClientState.ready in
    ((client_disconnected 7 w).0 ≡ ok tt)
    × AllRouted (client_disconnected 7 w).1.subscriptions
    × ((n : MappingName) → Forgotten 7 n (client_disconnected 7 w).1.subscriptions)
client_disconnected-Forgets_example =
    client_disconnected-Forgets 7 (world ClientState.ready) world-IsHonest subscriptions-AllRouted

forward_order-Linked_example :
    let w = world ClientState.ready in
    let x =
      forward_order md 7
        (codes "n")
        (codes "proxy-12")
        (md_request (codes "proxy-12"))
        true
        (stop_request md create_request_id md_request)
        w in
    (x.0 ≡ ok tt)
    × (x.1.out
        ≡ Output.to_server
            (server_header MsgType.market_data_request 2 w)
            (Body.request (md_request (codes "proxy-12")))
          ∷ [])
    × IsLinked (codes "n") (codes "proxy-12") (route (codes "n")) (get md x.1.subscriptions)
unfolding find_client find text_beq request_type
forward_order-Linked_example =
    forward_order-Linked md 7 (codes "n") (codes "proxy-12") (md_request (codes "proxy-12")) true
      (stop_request md create_request_id md_request) (world ClientState.ready) refl refl refl

dispatch-Unlogged_example :
    let w = world ClientState.waiting_logon in
    let c = session ClientState.waiting_logon in
    let x = dispatch c 7 header (ClientMessage.request (md_request (codes "n"))) w in
    (x.0 ≡ ok tt)
    × (x.1.out
        ≡ Output.close_client 7
          ∷ Output.to_client 7 (client_header MsgType.reject 5 c w) (Body.admin (no_logon header))
          ∷ [])
    × (x.1.subscriptions ≡ subscriptions)
    × (find 7 x.1.sessions
        ≡ some (record c { state = ClientState.zombie; outbound_msg_seq_num = 5 }))
unfolding find is_parsed
dispatch-Unlogged_example =
    dispatch-Unlogged (session ClientState.waiting_logon) 7 header (md_request (codes "n"))
      (world ClientState.waiting_logon) refl refl refl

stop_request-Stays_example :
    let w = world ClientState.ready in
    ((stop_request md create_request_id md_request w).0 ≡ ok tt)
    × ((stop_request md create_request_id md_request w).1.out
        ≡ Output.to_server
            (server_header MsgType.market_data_request 2 w)
            (Body.request (md_request (Shared.create_request_id w.shared).0))
          ∷ [])
    × (get md (stop_request md create_request_id md_request w).1.subscriptions
        ≡ one_route (codes "m") (codes "proxy-11"))
unfolding request_type Shared.create_request_id find text_beq
stop_request-Stays_example = stop_request-Stays md md_request (world ClientState.ready) refl refl

get_client_cl_ord_id-client_request_id_example :
    get_client_cl_ord_id (client_request_id (ones 3) (codes "a:b")) ≡ codes "a:b"
get_client_cl_ord_id-client_request_id_example =
    get_client_cl_ord_id-client_request_id (ones 3) (codes "a:b") (refl, (refl, (refl, tt)))

client_request_id_injective_example : (◌≡◌ {A = ℕ} 3 3) × (codes "a" ≡ codes "a")
client_request_id_injective_example =
    client_request_id_injective plain plain-IsDocumented 3 3 (codes "a") (codes "a")
      (refl {a = client_request_id (ones 3) (codes "a")})

abbrev new_subscription : MarketDataRequest
new_subscription = record {
  md_req_id = codes "n";
  subscription_request_type = SubscriptionRequestType.snapshot_updates;
  fields = [];
}

on_market_data_request-Answered_example :
    let w = world ClientState.ready in
    let x = on_market_data_request new_subscription 7 w in
    let y =
      on_market_data_snapshot_full_refresh (record { md_req_id = next_id w; fields = [] }) x.1 in
    (x.0 ≡ ok tt)
    × (x.1.out
        ≡ Output.to_server (server_header MsgType.market_data_request ((1 + 1) % u64) w) (
            Body.request
              (Request.market_data_request (record new_subscription { md_req_id = next_id w })))
          ∷ [])
    × (y.0 ≡ ok tt)
    × (y.1.out
        ≡ Output.to_client 7
            (client_header MsgType.market_data_snapshot_full_refresh
              ((4 + 1) % u64)
              (session ClientState.ready)
              w)
            (Body.response (
              Response.market_data_snapshot_full_refresh
                (record { md_req_id = codes "n"; fields = [] })))
          ∷ x.1.out)
unfolding find_client find text_beq Shared.create_request_id
on_market_data_request-Answered_example =
    on_market_data_request-Answered new_subscription [] 7 (session ClientState.ready)
      (world ClientState.ready) refl refl refl refl refl refl refl

abbrev pub logon : Logon
logon = record {
  encrypt_method = EncryptMethod.none;
  heart_bt_int = 30;
  raw_data = [];
  reset_seq_num_flag = true;
  next_expected_msg_seq_num = 1;
  username = user;
  password = secret;
}

invalid_logon-iff-IsAdmissible_example :
    (invalid_logon idle.settings.client header logon ≡ none)
    ↔ IsAdmissible idle.settings.client header logon
invalid_logon-iff-IsAdmissible_example =
    invalid_logon-iff-IsAdmissible idle.settings.client header logon

-- Session 7 waits for its removal.
abbrev ended : World
ended = record (world ClientState.zombie) { shared = session_remove 7 busy }

remove_zombies-Exact_example :
    ((remove_zombies 100 ended).0 ≡ ok tt)
    × (find 7 (remove_zombies 100 ended).1.sessions
        ≡ (if listed 7 ended.shared.sessions_to_remove then none else find 7 ended.sessions))
    × ((remove_zombies 100 ended).1.shared.sessions_to_remove ≡ [])
remove_zombies-Exact_example = remove_zombies-Exact 100 ended 7 refl

server_disconnected-AllZombies_example :
    let x = server_disconnected (world ClientState.ready) in
    (x.0 ≡ ok tt) × (x.1.ready ≡ false) × AllZombies x.1.sessions
server_disconnected-AllZombies_example = server_disconnected-AllZombies (world ClientState.ready)
