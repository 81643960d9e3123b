-- ===== src/Invariant/Returning.antt =====
-- The handler of client::Session::Disconnected returns while the controller's ready flag says that
-- the server session is ready only if it is.
use roq_fix_proxy.Prelude.{
  ℕ, ◌≡◌, refl, Bool, true, false, Option, none, some, nat_eq, if◌then◌else◌,
}
use roq_fix_proxy.Prelude.Text.{Text}
use roq_fix_proxy.Prelude.Map.{Map, find}
use roq_fix_proxy.Prelude.Effect.{
  ok, ◌>>=◌, ◌>>◌, gets, skip, Returns, Returns-skip, Returns-then, Returns-for_each, Returns-gets,
}
use roq_fix_proxy.Externals.{Externals}
use roq_fix_proxy.Message.Request.{Request}
use roq_fix_proxy.Mapping.{Mapping, erase_server, close_client}
use roq_fix_proxy.World.{World, ServerState}
use roq_fix_proxy.World.Mappings.{
  MappingName, security, security_status, trad_ses, md, ord_status, mass_status, pos, trade, cl_ord,
  mass_cancel, AllRouted,
}
use roq_fix_proxy.World.Access.{Method, modify_mapping, modify_users, create_request_id}
use roq_fix_proxy.Server.Send.{dispatch_to_server, send_if}
use roq_fix_proxy.Controller.Disconnect.{
  clear_entry, clear_found, clear_req_ids, ignore, unsubscribe_market_data, log_off_user,
  release_user, client_disconnected,
}
use roq_fix_proxy.Invariant.Forgetting.{Forgotten, client_disconnected-IsForgotten}

-- The ready flag does not promise too much.
pub record IsHonest (w : World) : Type 0 where
  pub at : w.ready ≡ true → w.server.state ≡ ServerState.ready

pub Returns-modify_mapping :
    (n : MappingName) (f : Mapping → Mapping) → Returns IsHonest (modify_mapping n f)
unfolding modify_mapping
Returns-modify_mapping n f = record { at = λ w h. (refl, record { at = h.at }) }

-- What the handler needs of a predicate to return from it: that the writes to a mapping keep it.
module _ (P : World → Type 0)
    (writes : (n : MappingName) (f : Mapping → Mapping) → Returns P (modify_mapping n f)) where
  module _ (n : MappingName) (id : ℕ) (callback : Text → Method)
      (k : (r : Text) → Returns P (callback r)) where
    Returns-clear_entry : (e : Text × Text) → Returns P (clear_entry n callback e)
    unfolding clear_entry
    Returns-clear_entry (c, q) = Returns-then (k q) (writes n (erase_server q))

    Returns-clear_found : (tmp : Option (Map Text Text)) → Returns P (clear_found n id callback tmp)
    unfolding clear_found
    Returns-clear_found none = Returns-skip
    Returns-clear_found (some tmp) =
        Returns-then (Returns-for_each tmp Returns-clear_entry) (writes n (close_client id))

    Returns-clear_req_ids : Returns P (clear_req_ids n id callback)
    unfolding clear_req_ids
    Returns-clear_req_ids = record { at = λ w h. (Returns-clear_found _).at w h }

  Returns-ignore : (r : Text) → Returns P (ignore r)
  unfolding ignore
  Returns-ignore r = Returns-skip

  module _ ⦃ext : Externals⦄ (id : ℕ)
      (unsubscribes : (r : Text) → Returns P (unsubscribe_market_data r))
      (releases : (user : Option Text) → Returns P (release_user id user)) where
    Returns-clear : (n : MappingName) → Returns P (clear_req_ids n id ignore)
    Returns-clear n = Returns-clear_req_ids n id ignore Returns-ignore

    Returns-release : Returns P (do
      user ← gets (λ (w : World). find id w.subscriptions.user.session_to_client)
      release_user id user)
    Returns-release = Returns-gets _ releases

    pub Returns-handler : Returns P (client_disconnected id)
    unfolding client_disconnected
    Returns-handler = Returns-then (Returns-clear security) (
        Returns-then (Returns-clear security_status) (
          Returns-then (Returns-clear trad_ses) (
            Returns-then (Returns-clear_req_ids md id unsubscribe_market_data unsubscribes) (
              Returns-then (Returns-clear ord_status) (
                Returns-then (Returns-clear mass_status) (
                  Returns-then (Returns-clear pos) (
                    Returns-then (Returns-clear trade) (
                      Returns-then (Returns-clear cl_ord)
                        (Returns-then (Returns-clear mass_cancel) Returns-release)))))))))

-- The flag and the session are both up.
abbrev Up : World → Type 0
Up w = (w.ready ≡ true) × (w.server.state ≡ ServerState.ready)

-- What the flag says, and that it may say so.
abbrev Says : Bool → World → Type 0
Says b w = (w.ready ≡ b) × IsHonest w

sends :
    (t : ServerState) (r : Request) (w : World)
    → t ≡ ServerState.ready
    → Up w
    → ((send_if t r w).0 ≡ ok tt) × Up (send_if t r w).1
unfolding send_if
sends ServerState.ready r w e u = (refl, u)
sends ServerState.logon_sent r w e u = absurd cc
sends ServerState.disconnected r w e u = absurd cc

Returns-dispatch : (r : Request) → Returns Up (dispatch_to_server r)
unfolding dispatch_to_server
Returns-dispatch r = record { at = λ w u. sends w.server.state r w u.1 u }

honest : (w : World) → Up w → IsHonest w
honest w u = record { at = λ e. u.1 }

-- `if (ready_)` around what returns while the session is up.
Returns-if : (b : Bool) (m : Method) → Returns Up m → Returns (Says b) (if b then m else skip)
Returns-if true m k = record {
  at = λ w h. let x = k.at w (h.0, h.1.at h.0) in (x.0, (x.1.0, honest _ x.1));
}
Returns-if false m k = Returns-skip

pub Returns-unsubscribe : (r : Text) → Returns IsHonest (unsubscribe_market_data r)
unfolding unsubscribe_market_data
Returns-unsubscribe r = record {
  at = λ w h. let x = (Returns-if w.ready _ (Returns-dispatch _)).at w (refl, h) in (x.0, x.1.1);
}

module _ ⦃ext : Externals⦄ (id : ℕ) where
  Returns-log_off_user : (name : Text) → Returns Up (log_off_user id name)
  unfolding log_off_user create_request_id modify_users ◌>>◌
  Returns-log_off_user name = record {
    at = λ w u. (Returns-then (Returns-dispatch _) (record { at = λ v k. (refl, k) })).at _ u;
  }

  pub Returns-release_user : (user : Option Text) → Returns IsHonest (release_user id user)
  unfolding release_user modify_users ◌>>◌
  Returns-release_user none = Returns-skip
  Returns-release_user (some name) = record {
    at = λ w h.
        let x =
          (Returns-then (Returns-if w.ready _ (Returns-log_off_user name))
              (record { at = λ v k. (refl, (k.0, record { at = k.1.at })) })).at
            w (refl, h) in
        (x.0, x.1.1);
  }

  Returns-client_disconnected : Returns IsHonest (client_disconnected id)
  Returns-client_disconnected =
      Returns-handler IsHonest Returns-modify_mapping id Returns-unsubscribe Returns-release_user

-- While the controller's ready flag says that the server session is ready only if it is, the handler
-- of a client session's disconnect returns; every mapping still has a client's entry for each route
-- to a session, as before, and no mapping holds a route to the session that is gone, but for an order
-- status request without an id of its own.
pub client_disconnected-Forgets :
    ⦃ext : Externals⦄ (s : ℕ) (w : World)
    → IsHonest w
    → AllRouted w.subscriptions
    → ((client_disconnected s w).0 ≡ ok tt)
      × AllRouted (client_disconnected s w).1.subscriptions
      × ((n : MappingName) → Forgotten s n (client_disconnected s w).1.subscriptions)
client_disconnected-Forgets s w h v =
    let e = ((Returns-client_disconnected s).at w h).0 in
    let f = client_disconnected-IsForgotten s w v e in (e, f.0, f.1)
