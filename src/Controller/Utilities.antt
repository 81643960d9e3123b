-- ===== src/Controller/Utilities.antt =====
-- The utilities of the controller (controller.cpp, "utilities", "req_id", "cl_ord_id", "user" and
-- the helpers at its top).
use roq_fix_proxy.Prelude.{
  ℕ, Bool, true, false, Option, none, some, List, [], ◌∷◌, ◌++◌, nat_eq, if◌then◌else◌,
}
use roq_fix_proxy.Prelude.Text.{Text, text_eq, codes, is_empty, after_first}
use roq_fix_proxy.Prelude.Map.{find, erase, assign, contains}
use roq_fix_proxy.Prelude.Effect.{Result, ok, err, fatal, ◌>>◌, throw, skip}
use roq_fix_proxy.Externals.{Externals}
use roq_fix_proxy.Message.Enums.{
  Party, PartyIdSource, PartyRole, ExecType, OrdStatus, SubscriptionRequestType,
}
use roq_fix_proxy.Message.Response.{Response}
use roq_fix_proxy.Mapping
use roq_fix_proxy.Mapping.{Mapping, Route}
use roq_fix_proxy.World.{World}
use roq_fix_proxy.World.Mappings.{MappingName, get}
use roq_fix_proxy.World.Access.{Method, modify_mapping, modify_users}
use roq_fix_proxy.Client.Deliver.{deliver}

-- A party that names a client in the way of the proxy.
unfoldable pub client_of_party : Party → PartyIdSource → PartyRole → Text
client_of_party p PartyIdSource.proprietary_custom_code PartyRole.client_id = p.party_id
client_of_party p _ _ = []

-- The name of the client, empty where the parties are not exactly one that names a client.
unfoldable pub get_client_from_parties : List Party → Text
unfolding client_of_party
get_client_from_parties (p ∷ []) = client_of_party p p.party_id_source p.party_role
get_client_from_parties _ = []

-- fmt::format("proxy-{}:{}", client_id, cl_ord_id)
unfoldable pub client_request_id : Text → Text → Text
client_request_id client_id cl_ord_id = codes "proxy-" ++ (client_id ++ b':' ∷ cl_ord_id)

-- What stands behind the first colon; the whole id where there is none.
unfoldable pub get_client_cl_ord_id : Text → Text
get_client_cl_ord_id cl_ord_id = elim (after_first b':' cl_ord_id) [
  | none ↦ cl_ord_id
  | some rest ↦ rest
]

unfoldable pub is_pending : ExecType → Bool
is_pending ExecType.pending_new = true
is_pending ExecType.pending_replace = true
is_pending ExecType.pending_cancel = true
is_pending _ = false

unfoldable pub get_subscription_request_type : SubscriptionRequestType → SubscriptionRequestType
get_subscription_request_type SubscriptionRequestType.undefined = SubscriptionRequestType.snapshot
get_subscription_request_type t = t

-- find_req_id, as the entry that its callback is given
unfoldable pub find_req_id : MappingName → Text → World → Result (Option Route) × World
find_req_id n req_id w = (ok (find req_id (get n w.subscriptions).server_to_client), w)

-- The result is logged only.
unfoldable pub remove_req_id : MappingName → Text → Method
unfolding modify_mapping
remove_req_id n req_id = modify_mapping n (λ m. (Mapping.remove_req_id req_id m).1)

unfoldable pub add_req_id : MappingName → Text → Text → ℕ → Bool → Method
unfolding modify_mapping
add_req_id n req_id request_id session_id keep_alive =
    modify_mapping n (Mapping.add_req_id req_id request_id session_id keep_alive)

unfoldable pub ensure_cl_ord_id : Text → OrdStatus → Method
ensure_cl_ord_id cl_ord_id ord_status w =
    if is_empty cl_ord_id
    then (ok tt, w)
    else (ok tt, record w { cl_ord_id = assign cl_ord_id ord_status w.cl_ord_id })

unfoldable pub remove_cl_ord_id : Text → Method
remove_cl_ord_id cl_ord_id w =
    if is_empty cl_ord_id
    then (ok tt, w)
    else if w.shared.settings.disable_remove_cl_ord_id
    then (ok tt, w)
    else (ok tt, record w { cl_ord_id = erase cl_ord_id w.cl_ord_id })

-- The two try_emplace of user_add: log::fatal where an entry is there.
unfoldable pub user_add : Text → ℕ → Method
unfolding modify_users
user_add username session_id w =
    let u = w.subscriptions.user in
    if contains username u.client_to_session
    then (err fatal, w)
    else let added = record u {
      client_to_session = (username, session_id) ∷ u.client_to_session;
    } in
      (if contains session_id u.session_to_client
          then (modify_users (λ _. added) >> throw fatal)
          else modify_users (λ _. record added {
            session_to_client = (session_id, username) ∷ u.session_to_client;
          }))
        w

unfoldable pub user_remove : Text → Bool → Method
unfolding modify_users
user_remove username ready w = elim (find username w.subscriptions.user.client_to_session) [
  | some session_id ↦
      modify_users
        (λ u. record u {
          client_to_session = erase username u.client_to_session;
          session_to_client = erase session_id u.session_to_client;
        })
        w
  | none ↦ (if ready then throw fatal else skip) w
]

unfoldable pub user_is_locked : Text → World → Bool
user_is_locked username w = contains username w.subscriptions.user.client_to_session

module _ ⦃ext : Externals⦄ where
  -- The result is not used.
  unfoldable pub dispatch_to_client : Response → ℕ → Method
  unfolding deliver
  dispatch_to_client r session_id w =
      if contains session_id w.sessions then deliver session_id r w else (ok tt, w)

  unfoldable pub broadcast : Response → Text → Method
  unfolding dispatch_to_client
  broadcast r client_id w = elim (find client_id w.subscriptions.user.client_to_session) [
    | none ↦ (ok tt, w)
    | some session_id ↦ dispatch_to_client r session_id w
  ]
