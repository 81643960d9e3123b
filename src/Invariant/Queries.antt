-- ===== src/Invariant/Queries.antt =====
-- The handlers of a client's requests, but for those about orders, keep every invariant.
use roq_fix_proxy.Prelude.{
  ℕ, ◌≡◌, refl, Bool, false, Option, none, some, nat_eq, Bool-cases, inl, inr,
}
use roq_fix_proxy.Prelude.Text.{Text, text_eq, is_empty}
use roq_fix_proxy.Prelude.Effect.{
  fatal, ◌>>◌, pure, Keeps, Keeps-bind, Keeps-then, Keeps-if, Keeps-gets, Keeps-throw, Keeps-pure,
}
use roq_fix_proxy.Externals.{Externals}
use roq_fix_proxy.Message.Enums.{UserRequestType}
use roq_fix_proxy.Message.Request.{
  Request, UserRequest, SecurityListRequest, SecurityDefinitionRequest, SecurityStatusRequest,
  MarketDataRequest, TradeCaptureReportRequest, RequestForPositions,
}
use roq_fix_proxy.Mapping.{Mapping, set_keep_alive}
use roq_fix_proxy.World.{World}
use roq_fix_proxy.World.Mappings.{get, security, security_status, md, pos, trade}
use roq_fix_proxy.World.Access.{create_request_id, modify_mapping, modify_users}
use roq_fix_proxy.Controller.Utilities.{
  get_client_from_parties, client_request_id, user_is_locked, get_subscription_request_type,
}
use roq_fix_proxy.Controller.Subscribe.{Refusal, validation}
use roq_fix_proxy.Controller.Requests.{
  check_user_request, on_user_request, security_list_reject, security_list_reject_message,
  on_security_list_request, security_definition_reject, security_definition_reject_message,
  on_security_definition_request, security_status_reject, security_status_reject_message,
  on_security_status_request, market_data_reject, market_data_reject_message,
  on_market_data_request, trade_capture_report_reject, trade_capture_report_reject_message,
  on_trade_capture_report_request,
}
use roq_fix_proxy.Controller.Positions.{
  change_keep_alive, stop_positions, positions_reject, positions_reject_message,
  subscribe_positions, on_request_for_positions,
}
use roq_fix_proxy.Invariant.{IsStable}
use roq_fix_proxy.Invariant.Sessions.{
  create_request_id-IsQuiet, Keeps-dispatch_to_server, Keeps-create_request_id,
}
use roq_fix_proxy.Invariant.Relays.{Keeps-dispatch_to_client}
use roq_fix_proxy.Invariant.Requests.{
  IsFresh, Leads-start_request, switch_from, unused, opened, Keeps-subscribe,
}

create_request_id-IsFresh :
    (Q : World → Type 0) (q : IsStable Q) ⦃ext : Externals⦄ → IsFresh Q create_request_id
create_request_id-IsFresh Q q = record {
  keeps = Keeps-create_request_id Q q;
  quiet = create_request_id-IsQuiet;
}

module _ (Q : World → Type 0) (q : IsStable Q) ⦃ext : Externals⦄ where
  Keeps-security_list_reject :
      (e : SecurityListRequest) (id : ℕ) (why : Refusal) → Keeps Q (security_list_reject e id why)
  unfolding security_list_reject
  Keeps-security_list_reject e id why =
      Keeps-bind (Keeps-create_request_id Q q)
        (λ r. Keeps-dispatch_to_client Q q (security_list_reject_message e r) id)

  pub Keeps-on_security_list_request :
      (e : SecurityListRequest) (id : ℕ) → Keeps Q (on_security_list_request e id)
  unfolding on_security_list_request
  Keeps-on_security_list_request e id =
      Keeps-if (ext.is_valid (Request.security_list_request e))
        (Keeps-subscribe Q q security id e.security_req_id
          (get_subscription_request_type e.subscription_request_type) create_request_id
          (create_request_id-IsFresh Q q)
          (λ i. Request.security_list_request (record e { security_req_id = i }))
          (security_list_reject e id) (Keeps-security_list_reject e id))
        (Keeps-security_list_reject e id validation)

  Keeps-security_definition_reject :
      (e : SecurityDefinitionRequest) (id : ℕ) (why : Refusal)
      → Keeps Q (security_definition_reject e id why)
  unfolding security_definition_reject
  Keeps-security_definition_reject e id why =
      Keeps-bind (Keeps-create_request_id Q q)
        (λ r. Keeps-dispatch_to_client Q q (security_definition_reject_message e r) id)

  pub Keeps-on_security_definition_request :
      (e : SecurityDefinitionRequest) (id : ℕ) → Keeps Q (on_security_definition_request e id)
  unfolding on_security_definition_request
  Keeps-on_security_definition_request e id =
      Keeps-if (ext.is_valid (Request.security_definition_request e))
        (Keeps-subscribe Q q security id e.security_req_id
          (get_subscription_request_type e.subscription_request_type) create_request_id
          (create_request_id-IsFresh Q q)
          (λ i. Request.security_definition_request (record e { security_req_id = i }))
          (security_definition_reject e id) (Keeps-security_definition_reject e id))
        (Keeps-security_definition_reject e id validation)

  Keeps-security_status_reject :
      (e : SecurityStatusRequest) (id : ℕ) (why : Refusal)
      → Keeps Q (security_status_reject e id why)
  unfolding security_status_reject
  Keeps-security_status_reject e id why =
      Keeps-dispatch_to_client Q q (security_status_reject_message e) id

  pub Keeps-on_security_status_request :
      (e : SecurityStatusRequest) (id : ℕ) → Keeps Q (on_security_status_request e id)
  unfolding on_security_status_request
  Keeps-on_security_status_request e id =
      Keeps-if (ext.is_valid (Request.security_status_request e))
        (Keeps-subscribe Q q security_status id e.security_status_req_id
          (get_subscription_request_type e.subscription_request_type) create_request_id
          (create_request_id-IsFresh Q q)
          (λ i. Request.security_status_request (record e { security_status_req_id = i }))
          (security_status_reject e id) (Keeps-security_status_reject e id))
        (Keeps-security_status_reject e id validation)

  Keeps-market_data_reject :
      (e : MarketDataRequest) (id : ℕ) (why : Refusal) → Keeps Q (market_data_reject e id why)
  unfolding market_data_reject
  Keeps-market_data_reject e id why =
      Keeps-dispatch_to_client Q q (market_data_reject_message e why) id

  pub Keeps-on_market_data_request :
      (e : MarketDataRequest) (id : ℕ) → Keeps Q (on_market_data_request e id)
  unfolding on_market_data_request
  Keeps-on_market_data_request e id =
      Keeps-if (ext.is_valid (Request.market_data_request e))
        (Keeps-subscribe Q q md id e.md_req_id e.subscription_request_type create_request_id
          (create_request_id-IsFresh Q q)
          (λ i. Request.market_data_request (record e { md_req_id = i })) (market_data_reject e id)
          (Keeps-market_data_reject e id))
        (Keeps-market_data_reject e id validation)

  Keeps-trade_capture_report_reject :
      (e : TradeCaptureReportRequest) (id : ℕ) (why : Refusal)
      → Keeps Q (trade_capture_report_reject e id why)
  unfolding trade_capture_report_reject
  Keeps-trade_capture_report_reject e id why =
      Keeps-bind (Keeps-create_request_id Q q)
        (λ r. Keeps-dispatch_to_client Q q (trade_capture_report_reject_message e why) id)

  pub Keeps-on_trade_capture_report_request :
      (e : TradeCaptureReportRequest) (id : ℕ) → Keeps Q (on_trade_capture_report_request e id)
  unfolding on_trade_capture_report_request pure
  Keeps-on_trade_capture_report_request e id =
      Keeps-if (ext.is_valid (Request.trade_capture_report_request e))
        (Keeps-subscribe Q q trade id e.trade_request_id
          (get_subscription_request_type e.subscription_request_type)
          (pure (client_request_id (get_client_from_parties e.no_party_ids) e.trade_request_id))
          (record { keeps = Keeps-pure _; quiet = λ w. refl })
          (λ i. Request.trade_capture_report_request (record e { trade_request_id = i }))
          (trade_capture_report_reject e id) (Keeps-trade_capture_report_reject e id))
        (Keeps-trade_capture_report_reject e id validation)

  Keeps-positions_reject :
      (e : RequestForPositions) (id : ℕ) (why : Refusal) → Keeps Q (positions_reject e id why)
  unfolding positions_reject
  Keeps-positions_reject e id why =
      Keeps-bind (Keeps-create_request_id Q q)
        (λ r. Keeps-dispatch_to_client Q q (positions_reject_message e why r) id)

  relaxed_from :
      (r : Text) (k : Bool) (found : Option Mapping) (w : World)
      → set_keep_alive r k (get pos w.subscriptions) ≡ found
      → Q w
      → Q (change_keep_alive r k w).1
  unfolding change_keep_alive modify_mapping
  relaxed_from r k none w e h = rw (e, change_keep_alive) h
  relaxed_from r k (some m) w e h = rw (e, change_keep_alive) (q.relaxed r k m _ e h)

  Keeps-stop_positions :
      (found : Option Text) (e : RequestForPositions) → Keeps Q (stop_positions found e)
  unfolding stop_positions
  Keeps-stop_positions none e = Keeps-throw fatal
  Keeps-stop_positions (some r) e =
      Keeps-then (Keeps-dispatch_to_server Q q _)
        (record { at = λ w h. relaxed_from r false _ w refl h })

  Keeps-subscribe_positions :
      (e : RequestForPositions) (id : ℕ) → Keeps Q (subscribe_positions e id)
  unfolding subscribe_positions modify_mapping ◌>>◌
  Keeps-subscribe_positions e id = record {
    at = λ w h.
        let v = opened Q q pos id w in
        let hv = q.opened pos id _ h in
        switch_from Q q Q (positions_reject e id) _ (stop_positions _ e)
          (Keeps-positions_reject e id) (Keeps-stop_positions _ e)
          (get_subscription_request_type e.subscription_request_type) _ v hv
          (λ k x.
            (Leads-start_request Q q pos id e.pos_req_id create_request_id
                (create_request_id-IsFresh Q q)
                (λ i. Request.request_for_positions (record e { pos_req_id = i })) k).at
              v (unused Q q pos id e.pos_req_id _ v refl hv x));
  }

  pub Keeps-on_request_for_positions :
      (e : RequestForPositions) (id : ℕ) → Keeps Q (on_request_for_positions e id)
  unfolding on_request_for_positions
  Keeps-on_request_for_positions e id =
      Keeps-if (ext.is_valid (Request.request_for_positions e)) (Keeps-subscribe_positions e id)
        (Keeps-positions_reject e id validation)

  Keeps-check_user_request :
      (t : UserRequestType) (name : Text) → Keeps Q (check_user_request t name)
  unfolding check_user_request
  Keeps-check_user_request UserRequestType.log_on_user name = record {
    at = λ w h. elim (Bool-cases (user_is_locked name w)) [
      | inl locked ↦ rw locked h
      | inr free ↦ rw free h
    ];
  }
  Keeps-check_user_request UserRequestType.log_off_user name = record { at = λ w h. h }
  Keeps-check_user_request (UserRequestType.other n) name = record { at = λ w h. h }

  pub Keeps-on_user_request : (e : UserRequest) (id : ℕ) → Keeps Q (on_user_request e id)
  unfolding on_user_request modify_users
  Keeps-on_user_request e id =
      Keeps-then (Keeps-check_user_request e.user_request_type e.username) (
        Keeps-bind (Keeps-gets _) (λ tmp.
          Keeps-if (is_empty tmp)
            (Keeps-then (record { at = λ w h. q.user_registers e.user_request_id id _ h })
              (Keeps-dispatch_to_server Q q (Request.user_request e)))
            (Keeps-throw fatal)))
