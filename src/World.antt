-- ===== src/World.antt =====
-- The state of the proxy: the members of Controller (controller.hpp), with those of the client
-- sessions (client/session.hpp), which the client manager keeps by session id (client/manager.hpp),
-- and of the server session (server/session.hpp). `out` is what has been done to the connections,
-- the latest first. `clock` is what the clocks read while an event is handled.
pub mod Mappings
pub mod Access
use roq_fix_proxy.Prelude.{ℕ, Bool, List}
use roq_fix_proxy.Prelude.Text.{Text}
use roq_fix_proxy.Prelude.Map.{Map}
use roq_fix_proxy.Message.Enums.{MsgType, OrdStatus}
use roq_fix_proxy.Message.Request.{Request}
use roq_fix_proxy.Message.Response.{Response, Admin}
use roq_fix_proxy.Shared.{Shared}
use roq_fix_proxy.Mapping.{Mapping}

-- server::Session::State
pub data ServerState : Type 0 where
  disconnected logon_sent ready : ServerState

pub record ServerSession : Type 0 where
  pub state : ServerState
  pub inbound_msg_seq_num : ℕ
  pub outbound_msg_seq_num : ℕ
  pub next_heartbeat : ℕ

-- client::Session::State
pub data ClientState : Type 0 where
  waiting_logon waiting_create_route ready waiting_remove_route zombie : ClientState

pub record ClientSession : Type 0 where
  pub logon_timeout : ℕ
  pub state : ClientState
  pub outbound_msg_seq_num : ℕ
  pub inbound_msg_seq_num : ℕ
  pub comp_id : Text
  pub username : Text
  pub user_response_timeout : ℕ
  pub party_id : Text
  pub next_heartbeat : ℕ
  pub waiting_for_heartbeat : Bool

-- subscriptions_.user
pub record Users : Type 0 where
  pub client_to_session : Map Text ℕ
  pub session_to_client : Map ℕ Text
  -- user_request_id => session_id
  pub server_to_client : Map Text ℕ
  -- session_id => user_request_id
  pub client_to_server : Map ℕ Text

pub record Subscriptions : Type 0 where
  pub user : Users
  pub security_req_id : Mapping
  pub security_status_req_id : Mapping
  pub trad_ses_req_id : Mapping
  pub md_req_id : Mapping
  pub ord_status_req_id : Mapping
  pub mass_status_req_id : Mapping
  pub pos_req_id : Mapping
  pub trade_request_id : Mapping
  pub cl_ord_id : Mapping
  pub mass_cancel_cl_ord_id : Mapping

-- roq::fix::Header, less the version
pub record Header : Type 0 where
  pub msg_type : MsgType
  pub sender_comp_id : Text
  pub target_comp_id : Text
  pub msg_seq_num : ℕ
  pub sending_time : ℕ

pub data Body : Type 0 where
  request : Request → Body
  response : Response → Body
  admin : Admin → Body

-- What is done to a connection.
pub data Output : Type 0 where
  to_server : Header → Body → Output
  to_client : ℕ → Header → Body → Output
  close_client : ℕ → Output
  close_server : Output
  to_auth : Text → Output

-- clock::get_system() and clock::get_realtime()
pub record Clock : Type 0 where
  pub system : ℕ
  pub realtime : ℕ

pub record World : Type 0 where
  pub shared : Shared
  pub server : ServerSession
  pub sessions : Map ℕ ClientSession
  pub next_garbage_collection : ℕ
  pub ready : Bool
  pub subscriptions : Subscriptions
  -- cl_ord_id(server) => order status
  pub cl_ord_id : Map Text OrdStatus
  pub total_num_pos_reports : ℕ
  pub clock : Clock
  pub out : List Output
