-- ===== src/Invariant/Forgetting.antt =====
-- The handler of client::Session::Disconnected, taken as a whole: what each clear_req_ids forgets
-- stays forgotten while the next mappings are cleared.
use roq_fix_proxy.Prelude.{ℕ, ◌≡◌, refl, Bool, Option, none, some, List, [], ◌∷◌, nat_eq}
use roq_fix_proxy.Prelude.Text.{Text, text_eq}
use roq_fix_proxy.Prelude.Map.{Map, find}
use roq_fix_proxy.Prelude.Effect.{
  ok, ◌>>=◌, Keeps, Keeps-then, Keeps-skip, Keeps-for_each, Keeps-if, Keeps-bind, Keeps-gets, Gives,
  Gives-then, gets,
}
use roq_fix_proxy.Externals.{Externals}
use roq_fix_proxy.Mapping.{Mapping}
use roq_fix_proxy.Mapping.Clearing.{IsForgotten, erase_server-IsForgotten, close_client-IsForgotten}
use roq_fix_proxy.World.{World, Subscriptions, Users}
use roq_fix_proxy.World.Mappings.{
  MappingName, get, is_optional, AllRouted, put-each, get-with_user, security, security_status,
  trad_ses, md, ord_status, mass_status, pos, trade, cl_ord, mass_cancel,
}
use roq_fix_proxy.World.Access.{Method, modify_mapping, modify_users}
use roq_fix_proxy.Controller.Disconnect.{
  clear_entry, clear_found, clear_req_ids, client_disconnected, release_user, ignore,
  unsubscribe_market_data,
}
use roq_fix_proxy.Invariant.{IsQuiet, with_user}
use roq_fix_proxy.Invariant.Sessions.{
  dispatch_to_server-IsQuiet, create_request_id-IsQuiet, ignore-IsQuiet, unsubscribe-IsQuiet,
  Keeps-log_off_user,
}
use roq_fix_proxy.Invariant.Clearing.{clear_req_ids_lem}

module _ (s : ℕ) where
  abbrev pub Forgotten : MappingName → Subscriptions → Type 0
  Forgotten k t = IsForgotten (is_optional k) s (get k t)

  module _ (k : MappingName) where
    Keeps-modify_mapping :
        (n : MappingName) (f : Mapping → Mapping)
        → ((o : Bool) (m : Mapping) → IsForgotten o s m → IsForgotten o s (f m))
        → Keeps (λ (w : World). Forgotten k w.subscriptions) (modify_mapping n f)
    unfolding modify_mapping
    Keeps-modify_mapping n f kept = record {
      at = λ w h.
          put-each (λ j m. (j ≡ k) → IsForgotten (is_optional j) s m) (f (get n w.subscriptions))
            w.subscriptions (λ j e. rw e h) n k (λ e. kept _ _ (rw e h)) refl;
    }

    module _ (n : MappingName) (id : ℕ) (callback : Text → Method)
        (quiet : (r : Text) → IsQuiet (callback r)) where
      Keeps-clear_entry :
          (e : Text × Text)
          → Keeps (λ (w : World). Forgotten k w.subscriptions) (clear_entry n callback e)
      unfolding clear_entry
      Keeps-clear_entry (c, q) =
          Keeps-then (record { at = λ w h. rw ((quiet q).subscriptions w) h })
            (Keeps-modify_mapping n _ (λ o m v. erase_server-IsForgotten o s m v q))

      Keeps-clear_found :
          (tmp : Option (Map Text Text))
          → Keeps (λ (w : World). Forgotten k w.subscriptions) (clear_found n id callback tmp)
      unfolding clear_found
      Keeps-clear_found none = Keeps-skip
      Keeps-clear_found (some tmp) =
          Keeps-then (Keeps-for_each tmp Keeps-clear_entry)
            (Keeps-modify_mapping n _ (λ o m v. close_client-IsForgotten o s m v id))

      Keeps-clear_req_ids :
          Keeps (λ (w : World). Forgotten k w.subscriptions) (clear_req_ids n id callback)
      unfolding clear_req_ids
      Keeps-clear_req_ids = record { at = λ w h. (Keeps-clear_found _).at w h }

  AllForgotten : List MappingName → Subscriptions → Type 0
  AllForgotten [] t = Unit
  AllForgotten (k ∷ ks) t = Forgotten k t × AllForgotten ks t

  module _ (n : MappingName) (callback : Text → Method)
      (quiet : (r : Text) → IsQuiet (callback r)) where
    AllForgotten-kept :
        (ks : List MappingName) (w : World)
        → AllForgotten ks w.subscriptions
        → AllForgotten ks (clear_req_ids n s callback w).1.subscriptions
    unfolding AllForgotten
    AllForgotten-kept [] w h = tt
    AllForgotten-kept (k ∷ ks) w h =
        ((Keeps-clear_req_ids k n s callback quiet).at w h.0, AllForgotten-kept ks w h.1)

    -- One more mapping is cleared.
    Gives-clear_req_ids :
        (ks : List MappingName)
        → Gives
            (λ (w : World). AllRouted w.subscriptions × AllForgotten ks w.subscriptions)
            (λ w. AllRouted w.subscriptions × AllForgotten (n ∷ ks) w.subscriptions)
            (clear_req_ids n s callback)
    unfolding AllForgotten
    Gives-clear_req_ids ks = record {
      at = λ w h a e.
          let c = clear_req_ids_lem n s callback quiet w h.0 in
          (c.0, (c.1 e, AllForgotten-kept ks w h.1));
    }

-- Nothing of the users concerns the mappings.
AllForgotten-users :
    (s : ℕ) (ks : List MappingName) (u : Users) (t : Subscriptions)
    → AllForgotten s ks t
    → AllForgotten s ks (with_user u t)
unfolding AllForgotten
AllForgotten-users s [] u t h = tt
AllForgotten-users s (k ∷ ks) u t h =
    (rw (get-with_user k u t) h.0, AllForgotten-users s ks u t h.1)

pub AllRouted-users : (u : Users) (t : Subscriptions) → AllRouted t → AllRouted (with_user u t)
AllRouted-users u t v = record { at = λ n. rw (get-with_user n u t) (v.at n) }

module _ ⦃ext : Externals⦄ (s : ℕ) (ks : List MappingName) where
  abbrev RoutedWithout : Subscriptions → Type 0
  RoutedWithout t = AllRouted t × AllForgotten s ks t

  without-users : (u : Users) (t : Subscriptions) → RoutedWithout t → RoutedWithout (with_user u t)
  without-users u t h = (AllRouted-users u t h.0, AllForgotten-users s ks u t h.1)

  Keeps-release_user :
      (id : ℕ) (user : Option Text)
      → Keeps (λ (w : World). RoutedWithout w.subscriptions) (release_user id user)
  unfolding release_user modify_users
  Keeps-release_user id none = Keeps-skip
  Keeps-release_user id (some name) = Keeps-bind (Keeps-gets _) (λ ready.
      Keeps-then
        (Keeps-if ready
          (Keeps-log_off_user (λ w. RoutedWithout w.subscriptions) id name
            (record { at = λ w h. rw (create_request_id-IsQuiet w) h })
            (λ r. record { at = λ w h. rw ((dispatch_to_server-IsQuiet r).subscriptions w) h })
            (λ r w h. without-users _ w.subscriptions h))
          Keeps-skip)
        (record { at = λ w h. without-users _ w.subscriptions h }))

  Gives-release :
      Gives
        (λ (w : World). RoutedWithout w.subscriptions)
        (λ w. RoutedWithout w.subscriptions)
        (do
          user ← gets (λ (w : World). find s w.subscriptions.user.session_to_client)
          release_user s user)
  Gives-release = record {
    at = λ w h a e. (Keeps-bind (Keeps-gets _) (λ user. Keeps-release_user s user)).at w h;
  }

all_mappings : List MappingName
all_mappings =
    mass_cancel ∷ cl_ord ∷ trade ∷ pos ∷ mass_status ∷ ord_status ∷ md ∷ trad_ses ∷ security_status
    ∷ security ∷ []

module _ ⦃ext : Externals⦄ (s : ℕ) where
  Gives-ignore :
      (n : MappingName) (ks : List MappingName)
      → Gives
          (λ (w : World). RoutedWithout s ks w.subscriptions)
          (λ w. RoutedWithout s (n ∷ ks) w.subscriptions)
          (clear_req_ids n s ignore)
  Gives-ignore n ks = Gives-clear_req_ids s n ignore ignore-IsQuiet ks

  Gives-client_disconnected :
      Gives
        (λ (w : World). RoutedWithout s [] w.subscriptions)
        (λ w. RoutedWithout s all_mappings w.subscriptions)
        (client_disconnected s)
  unfolding client_disconnected all_mappings
  Gives-client_disconnected = Gives-then (Gives-ignore security _) (
      Gives-then (Gives-ignore security_status _) (
        Gives-then (Gives-ignore trad_ses _) (
          Gives-then (Gives-clear_req_ids s md unsubscribe_market_data unsubscribe-IsQuiet _) (
            Gives-then (Gives-ignore ord_status _) (
              Gives-then (Gives-ignore mass_status _) (
                Gives-then (Gives-ignore pos _) (
                  Gives-then (Gives-ignore trade _) (
                    Gives-then (Gives-ignore cl_ord _)
                      (Gives-then (Gives-ignore mass_cancel _) (Gives-release s _))))))))))

  Forgotten-each :
      (t : Subscriptions) → AllForgotten s all_mappings t → (n : MappingName) → Forgotten s n t
  unfolding all_mappings AllForgotten
  Forgotten-each t h mass_cancel = h.0
  Forgotten-each t h cl_ord = h.1.0
  Forgotten-each t h trade = h.1.1.0
  Forgotten-each t h pos = h.1.1.1.0
  Forgotten-each t h mass_status = h.1.1.1.1.0
  Forgotten-each t h ord_status = h.1.1.1.1.1.0
  Forgotten-each t h md = h.1.1.1.1.1.1.0
  Forgotten-each t h trad_ses = h.1.1.1.1.1.1.1.0
  Forgotten-each t h security_status = h.1.1.1.1.1.1.1.1.0
  Forgotten-each t h security = h.1.1.1.1.1.1.1.1.1.0

  pub client_disconnected-IsForgotten :
      (w : World)
      → AllRouted w.subscriptions
      → (client_disconnected s w).0 ≡ ok tt
      → AllRouted (client_disconnected s w).1.subscriptions
        × ((n : MappingName) → Forgotten s n (client_disconnected s w).1.subscriptions)
  unfolding AllForgotten
  client_disconnected-IsForgotten w v e =
      let h = Gives-client_disconnected.at w (v, tt) tt e in (h.0, Forgotten-each _ h.1)
