-- ===== src/Startup.antt =====
-- The state in which the proxy starts: the constructors of Shared (shared.cpp), of Crypto and of the
-- controller (controller.cpp).
pub mod Initial
pub mod Histories
use roq_fix_proxy.Prelude.{ℕ, ◌+◌, ◌%◌, false, Option, List, [], ◌∷◌}
use roq_fix_proxy.Prelude.Text.{Text, text_eq}
use roq_fix_proxy.Prelude.Map.{Map, try_emplace}
use roq_fix_proxy.Prelude.Effect.{Result, ok, err, fatal}
use roq_fix_proxy.Crypto.{Method, parse_method}
use roq_fix_proxy.Config.{Config, User}
use roq_fix_proxy.Mapping.{empty}
use roq_fix_proxy.Shared.{Shared, Settings, u64}
use roq_fix_proxy.World.{World, ServerState, Subscriptions, Clock}

-- create_username_to_password_and_strategy_id: of two users with one name the first one counts.
unfoldable pub add_users : Map Text User → Map Text (Text × ℕ) → Map Text (Text × ℕ)
add_users [] result = result
add_users ((key, user) ∷ rest) result =
    add_users rest (try_emplace user.username (user.password, user.strategy_id) result)

-- Shared::Shared, once the method of the authentication is known.
unfoldable pub new_shared : Settings → Config → Clock → Method → Shared
unfolding add_users
new_shared settings config clock method = record {
  settings = settings;
  next_session_id = 0;
  username_to_password_and_strategy_id = add_users config.users [];
  username_to_session = [];
  session_to_username = [];
  sessions_to_remove = [];
  regex_symbols = config.symbols;
  next_request_id = clock.realtime % u64;
  crypto = record {
    method = method;
    timestamp_tolerance = settings.client.auth_timestamp_tolerance;
  };
}

abbrev pub no_subscriptions : Subscriptions
no_subscriptions = record {
  user = record {
    client_to_session = [];
    session_to_client = [];
    server_to_client = [];
    client_to_server = [];
  };
  security_req_id = empty;
  security_status_req_id = empty;
  trad_ses_req_id = empty;
  md_req_id = empty;
  ord_status_req_id = empty;
  mass_status_req_id = empty;
  pos_req_id = empty;
  trade_request_id = empty;
  cl_ord_id = empty;
  mass_cancel_cl_ord_id = empty;
}

unfoldable pub new_world : Shared → Clock → World
new_world shared clock = record {
  shared = shared;
  server = record {
    state = ServerState.disconnected;
    inbound_msg_seq_num = 0;
    outbound_msg_seq_num = 0;
    next_heartbeat = 0;
  };
  sessions = [];
  next_garbage_collection = 0;
  ready = false;
  subscriptions = no_subscriptions;
  cl_ord_id = [];
  total_num_pos_reports = 0;
  clock = clock;
  out = [];
}

unfoldable pub start_with : Settings → Config → Clock → Result Method → Result World
unfolding new_shared new_world
start_with settings config clock (ok method) =
    ok (new_world (new_shared settings config clock method) clock)
start_with settings config clock (err e) = err e

-- create_server_session: there is exactly one connection to a gateway.
unfoldable pub start_server : List Text → Result World → Result World
start_server (uri ∷ []) world = world
start_server [] world = err fatal
start_server (uri ∷ other ∷ rest) world = err fatal

-- Controller::Controller
unfoldable pub start : Settings → Config → List Text → Clock → Result World
unfolding start_with start_server
start settings config connections clock =
    start_server connections
      (start_with settings config clock (parse_method settings.client.auth_method))
