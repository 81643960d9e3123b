-- ===== src/Controller/Disconnect.antt =====
-- The handler of client::Session::Disconnected (controller.cpp): what was known of the session's
-- requests is forgotten, market data is unsubscribed, and the user is logged off.
use roq_fix_proxy.Prelude.{ℕ, Option, none, some, [], if◌then◌else◌, nat_eq}
use roq_fix_proxy.Prelude.Text.{Text, text_eq}
use roq_fix_proxy.Prelude.Map.{Map, find, erase, try_emplace}
use roq_fix_proxy.Prelude.Effect.{◌>>=◌, ◌>>◌, gets, skip, for_each}
use roq_fix_proxy.Externals.{Externals}
use roq_fix_proxy.Message.Enums.{SubscriptionRequestType, UserRequestType}
use roq_fix_proxy.Message.Request.{Request, MarketDataRequest}
use roq_fix_proxy.Mapping.{erase_server, close_client}
use roq_fix_proxy.World.{World, Users}
use roq_fix_proxy.World.Mappings.{
  MappingName, get, security, security_status, trad_ses, md, ord_status, mass_status, pos, trade,
  cl_ord, mass_cancel,
}
use roq_fix_proxy.World.Access.{Method, modify_mapping, modify_users, create_request_id}
use roq_fix_proxy.Server.Send.{dispatch_to_server}

-- One round of the loop of clear_req_ids.
unfoldable pub clear_entry : MappingName → (Text → Method) → Text × Text → Method
unfolding modify_mapping
clear_entry n callback (c, req_id) = do callback req_id; modify_mapping n (erase_server req_id)

unfoldable pub clear_found : MappingName → ℕ → (Text → Method) → Option (Map Text Text) → Method
unfolding clear_entry for_each
clear_found n session_id callback none = skip
clear_found n session_id callback (some tmp) = do
  for_each tmp (clear_entry n callback)
  modify_mapping n (close_client session_id)

unfoldable pub clear_req_ids : MappingName → ℕ → (Text → Method) → Method
unfolding clear_found
clear_req_ids n session_id callback w =
    clear_found n session_id callback (find session_id (get n w.subscriptions).client_to_server) w

-- The callback that does nothing.
unfoldable pub ignore : Text → Method
ignore req_id = skip

unfoldable pub unsubscribe_market_data : Text → Method
unsubscribe_market_data req_id w =
    (if w.ready then dispatch_to_server (Request.market_data_request unsubscribe) else skip) w
  where
    unsubscribe : MarketDataRequest
    unsubscribe = record {
      md_req_id = req_id;
      subscription_request_type = SubscriptionRequestType.unsubscribe;
      fields = [];
    }

unfoldable pub forget_user : ℕ → Text → Users → Users
forget_user session_id username u = record u {
  client_to_session = erase username u.client_to_session;
  session_to_client = erase session_id u.session_to_client;
}

-- The user request that a session waits for.
unfoldable pub await_response : Text → ℕ → Users → Users
await_response user_request_id session_id u = record u {
  server_to_client = try_emplace user_request_id session_id u.server_to_client;
  client_to_server = try_emplace session_id user_request_id u.client_to_server;
}

module _ ⦃ext : Externals⦄ where
  unfoldable pub log_off_user : ℕ → Text → Method
  unfolding create_request_id modify_users await_response
  log_off_user session_id username = do
    user_request_id ← create_request_id
    dispatch_to_server (
        Request.user_request (record {
          user_request_id = user_request_id;
          user_request_type = UserRequestType.log_off_user;
          username = username;
          password = [];
          new_password = [];
        }))
    modify_users (await_response user_request_id session_id)

  unfoldable pub release_user : ℕ → Option Text → Method
  unfolding log_off_user modify_users forget_user
  release_user session_id none = skip
  release_user session_id (some username) = do
    ready ← gets (λ (w : World). w.ready)
    if ready then log_off_user session_id username else skip
    modify_users (forget_user session_id username)

  unfoldable pub client_disconnected : ℕ → Method
  unfolding clear_req_ids ignore unsubscribe_market_data release_user
  client_disconnected session_id = do
    clear_req_ids security session_id ignore
    clear_req_ids security_status session_id ignore
    clear_req_ids trad_ses session_id ignore
    clear_req_ids md session_id unsubscribe_market_data
    clear_req_ids ord_status session_id ignore
    clear_req_ids mass_status session_id ignore
    clear_req_ids pos session_id ignore
    clear_req_ids trade session_id ignore
    clear_req_ids cl_ord session_id ignore
    clear_req_ids mass_cancel session_id ignore
    user ← gets (λ (w : World). find session_id w.subscriptions.user.session_to_client)
    release_user session_id user
