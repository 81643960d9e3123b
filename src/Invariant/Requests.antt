-- ===== src/Invariant/Requests.antt =====
-- What the handlers of requests share keeps every invariant: a request id is looked up among those
-- of the session before it is added.
use roq_fix_proxy.Prelude.{ℕ, ◌≡◌, refl, Bool, true, false, Option, none, some, nat_eq}
use roq_fix_proxy.Prelude.Text.{Text, text_eq}
use roq_fix_proxy.Prelude.Effect.{
  ◌>>◌, Keeps, Keeps-bind, Keeps-then, Leads, Leads-bind, Leads-then, Leads-of_Keeps,
}
use roq_fix_proxy.Externals.{Externals}
use roq_fix_proxy.Message.Enums.{SubscriptionRequestType}
use roq_fix_proxy.Message.Request.{Request}
use roq_fix_proxy.Mapping.{find_client, open_client}
use roq_fix_proxy.World.{World, Subscriptions}
use roq_fix_proxy.World.Mappings.{MappingName, get, put}
use roq_fix_proxy.World.Access.{Method, modify_mapping}
use roq_fix_proxy.Controller.Utilities.{add_req_id}
use roq_fix_proxy.Controller.Subscribe.{
  Refusal, NewId, switch, start_request, stop_request, subscribe, is_some,
}
use roq_fix_proxy.Invariant.{IsStable}
use roq_fix_proxy.Invariant.Sessions.{
  Keeps-dispatch_to_server, Keeps-quiet, dispatch_to_server-IsQuiet,
}
use roq_fix_proxy.Invariant.Relays.{Keeps-remove_req_id}

-- The session does not use the id.
abbrev pub IsUnused : MappingName → ℕ → Text → Subscriptions → Type 0
IsUnused n id req_id s = find_client id req_id (get n s) ≡ none

abbrev pub Unused : (World → Type 0) → MappingName → ℕ → Text → World → Type 0
Unused Q n id req_id w = Q w × IsUnused n id req_id w.subscriptions

-- An id is made without a look at the subscriptions.
pub record IsFresh (Q : World → Type 0) (new_id : NewId) : Type 0 where
  pub keeps : Keeps Q new_id
  pub quiet : (w : World) → (new_id w).1.subscriptions ≡ w.subscriptions

module _ (Q : World → Type 0) (q : IsStable Q) where
  pub Leads-add_req_id :
      (n : MappingName) (req_id request_id : Text) (id : ℕ) (k : Bool)
      → Leads (Unused Q n id req_id) Q (add_req_id n req_id request_id id k)
  unfolding add_req_id
  Leads-add_req_id n req_id request_id id k = record {
    at = λ w h. q.added n req_id request_id id k _ h.1 h.0;
  }

  module _ (n : MappingName) (id : ℕ) (req_id : Text) (new_id : NewId) (fresh : IsFresh Q new_id)
      (message : Text → Request) where
    pub Leads-start_request :
        (k : Bool) → Leads (Unused Q n id req_id) Q (start_request n id req_id new_id message k)
    unfolding start_request
    Leads-start_request k =
        Leads-bind (Leads-of_Keeps (Keeps-quiet (IsUnused n id req_id) fresh.keeps fresh.quiet))
          (λ w h. h.0)
          (λ r.
            Leads-then
              (Leads-of_Keeps (
                Keeps-quiet (IsUnused n id req_id) (Keeps-dispatch_to_server Q q (message r))
                  (dispatch_to_server-IsQuiet (message r)).subscriptions))
              (λ w h. h.0) (Leads-add_req_id n req_id r id k))

    Keeps-stop_request : ⦃ext : Externals⦄ → Keeps Q (stop_request n new_id message)
    unfolding stop_request
    Keeps-stop_request =
        Keeps-bind fresh.keeps
          (λ r. Keeps-then (Keeps-dispatch_to_server Q q (message r)) (Keeps-remove_req_id Q q n r))

  module _ (P : World → Type 0) (reject : Refusal → Method) (start : Bool → Method) (stop : Method)
      (rejects : (r : Refusal) → Keeps P (reject r)) (stops : Keeps P stop) where
    pub switch_from :
        (t : SubscriptionRequestType) (exists : Bool) (w : World)
        → P w
        → ((k : Bool) → exists ≡ false → P (start k w).1)
        → P (switch t exists reject start stop w).1
    unfolding switch
    switch_from SubscriptionRequestType.undefined e w h s = (rejects _).at w h
    switch_from SubscriptionRequestType.unknown e w h s = (rejects _).at w h
    switch_from SubscriptionRequestType.snapshot true w h s = (rejects _).at w h
    switch_from SubscriptionRequestType.snapshot false w h s = s false refl
    switch_from SubscriptionRequestType.snapshot_updates true w h s = (rejects _).at w h
    switch_from SubscriptionRequestType.snapshot_updates false w h s = s true refl
    switch_from SubscriptionRequestType.unsubscribe true w h s = stops.at w h
    switch_from SubscriptionRequestType.unsubscribe false w h s = (rejects _).at w h

  -- What is not found is not used.
  pub unused :
      (n : MappingName) (id : ℕ) (req_id : Text) (found : Option Text) (w : World)
      → find_client id req_id (get n w.subscriptions) ≡ found
      → Q w
      → is_some found ≡ false
      → Unused Q n id req_id w
  unfolding is_some
  unused n id req_id none w e h x = (h, e)
  unused n id req_id (some r) w e h x = absurd cc

  -- The world once the session has an entry in the mapping.
  abbrev pub opened : MappingName → ℕ → World → World
  opened n id w = record w {
    subscriptions = put n (open_client id (get n w.subscriptions)) w.subscriptions;
  }

  module _ (n : MappingName) (id : ℕ) (req_id : Text) (t : SubscriptionRequestType) (new_id : NewId)
      (fresh : IsFresh Q new_id) (message : Text → Request) (reject : Refusal → Method)
      (rejects : (r : Refusal) → Keeps Q (reject r)) where
    pub Keeps-subscribe :
        ⦃ext : Externals⦄ → Keeps Q (subscribe n id req_id t new_id message reject)
    unfolding subscribe modify_mapping ◌>>◌
    Keeps-subscribe = record {
      at = λ w h.
          let v = opened n id w in
          let hv = q.opened n id _ h in
          switch_from Q reject _ (stop_request n new_id message) rejects
            (Keeps-stop_request n id req_id new_id fresh message) t _ v hv
            (λ k e.
              (Leads-start_request n id req_id new_id fresh message k).at v
                (unused n id req_id _ v refl hv e));
    }
