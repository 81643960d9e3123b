-- ===== src/Invariant/Relays.antt =====
-- The handlers of what the server sends keep every invariant.
use roq_fix_proxy.Prelude.{
  ℕ, ◌≡◌, refl, Bool, true, false, Option, none, some, [], ◌∷◌, inl, inr, nat_eq, ◌&&◌, ◌||◌, not,
  Bool-cases, Option-cases, arith,
}
use roq_fix_proxy.Prelude.{Eq}
use roq_fix_proxy.Prelude.Text.{Text, text_eq}
use roq_fix_proxy.Prelude.Map.{Map, find, contains, erase}
use roq_fix_proxy.Prelude.Effect.{
  ◌>>◌, throw, Keeps, Keeps-skip, Keeps-bind, Keeps-then, Keeps-pure,
}
use roq_fix_proxy.Externals.{Externals}
use roq_fix_proxy.Message.Enums.{OrdStatus}
use roq_fix_proxy.Message.Response.{
  Response, BusinessMessageReject, SecurityList, SecurityDefinition, SecurityStatus,
  MarketDataRequestReject, MarketDataSnapshotFullRefresh, MarketDataIncrementalRefresh,
  TradeCaptureReportRequestAck, TradeCaptureReport,
}
use roq_fix_proxy.Mapping.{Route}
use roq_fix_proxy.World.{World}
use roq_fix_proxy.World.Mappings.{MappingName, security, security_status, md, trade}
use roq_fix_proxy.Controller.Utilities.{
  find_req_id, remove_req_id, dispatch_to_client, user_add, ensure_cl_ord_id, remove_cl_ord_id,
}
use roq_fix_proxy.Controller.Responses.{
  Callback, remove_if, relay_to, relay, set_total_num_pos_reports, forward, on_security_list,
  on_security_definition, on_security_status, on_market_data_request_reject,
  on_market_data_snapshot_full_refresh, on_market_data_incremental_refresh,
  on_trade_capture_report_request_ack, on_trade_capture_report, is_valid_list, is_accepted,
  business_message_reject_in, on_business_message_reject, rejected_mapping,
}
use roq_fix_proxy.Invariant.{IsStable}
use roq_fix_proxy.Invariant.Connection.{Keeps-deliver}

-- What `contains` does not find is not there.
absent : {K V : Type 0} ⦃eq : Eq K⦄ (k : K) (m : Map K V) → contains k m ≡ false → find k m ≡ none
unfolding contains
absent k m c = elim (Option-cases (find k m)) [
  | inl missing ↦ missing
  | inr (v, known) ↦ absurd (ground (arith, known, c))
]

module _ (Q : World → Type 0) (q : IsStable Q) where
  Keeps-find_req_id : (n : MappingName) (r : Text) → Keeps Q (find_req_id n r)
  unfolding find_req_id
  Keeps-find_req_id n r = record { at = λ w h. h }

  pub Keeps-set_total : (n : ℕ) → Keeps Q (set_total_num_pos_reports n)
  unfolding set_total_num_pos_reports
  Keeps-set_total n = record { at = λ w h. q.total_changed n w h }

  pub Keeps-ensure_cl_ord_id : (i : Text) (s : OrdStatus) → Keeps Q (ensure_cl_ord_id i s)
  unfolding ensure_cl_ord_id
  Keeps-ensure_cl_ord_id [] s = record { at = λ w h. h }
  Keeps-ensure_cl_ord_id (b ∷ i) s = record { at = λ w h. q.orders_changed _ w h }

  pub Keeps-remove_cl_ord_id : (i : Text) → Keeps Q (remove_cl_ord_id i)
  unfolding remove_cl_ord_id
  Keeps-remove_cl_ord_id [] = record { at = λ w h. h }
  Keeps-remove_cl_ord_id (b ∷ i) = record {
    at = λ w h. ground (arith, q.orders_changed (erase (b ∷ i) w.cl_ord_id) w h);
  }

module _ (Q : World → Type 0) (q : IsStable Q) ⦃ext : Externals⦄ where
  pub Keeps-remove_req_id : (n : MappingName) (r : Text) → Keeps Q (remove_req_id n r)
  unfolding remove_req_id
  Keeps-remove_req_id n r = record { at = λ w h. q.removed n r _ h }

  pub Keeps-dispatch_to_client : (r : Response) (id : ℕ) → Keeps Q (dispatch_to_client r id)
  unfolding dispatch_to_client
  Keeps-dispatch_to_client r id = record {
    at = λ w h. elim (Bool-cases (contains id w.sessions)) [
      | inl known ↦ rw known ((Keeps-deliver Q q id r).at w h)
      | inr gone ↦ rw gone h
    ];
  }

  Keeps-remove_if : (n : MappingName) (r : Text) (b : Bool) → Keeps Q (remove_if n r b)
  unfolding remove_if
  Keeps-remove_if n r true = Keeps-remove_req_id n r
  Keeps-remove_if n r false = Keeps-skip

  Keeps-relay_to :
      (n : MappingName) (r : Text) (f : Callback) (route : Option Route)
      → ((route : Route) → Keeps Q (f route))
      → Keeps Q (relay_to n r f route)
  unfolding relay_to
  Keeps-relay_to n r f none k = Keeps-skip
  Keeps-relay_to n r f (some route) k = Keeps-bind (k route) (λ b. Keeps-remove_if n r b)

  pub Keeps-relay :
      (n : MappingName) (r : Text) (f : Callback)
      → ((route : Route) → Keeps Q (f route))
      → Keeps Q (relay n r f)
  unfolding relay
  Keeps-relay n r f k =
      Keeps-bind (Keeps-find_req_id Q q n r) (λ route. Keeps-relay_to n r f route k)

  pub Keeps-forward : (r : Response) (b : Bool) (route : Route) → Keeps Q (forward r b route)
  unfolding forward
  Keeps-forward r b route = Keeps-then (Keeps-dispatch_to_client r route.session_id) (Keeps-pure b)

  Keeps-reject_in :
      (n : Option MappingName) (e : BusinessMessageReject)
      → Keeps Q (business_message_reject_in n e)
  unfolding business_message_reject_in
  Keeps-reject_in none e = Keeps-skip
  Keeps-reject_in (some n) e = Keeps-relay n _ _ (λ r.
      Keeps-forward
        (Response.business_message_reject (record e { business_reject_ref_id = r.req_id })) false r)

  added_from :
      (name : Text) (id : ℕ) (b : Bool) (w : World)
      → contains name w.subscriptions.user.client_to_session ≡ b
      → Q w
      → Q (user_add name id w).1
  unfolding user_add throw ◌>>◌
  added_from name id true w e h = rw e h
  added_from name id false w e h =
      elim (Bool-cases (contains id w.subscriptions.user.session_to_client)) [
        | inl held ↦ rw (e, held) (q.half_added name id _ (absent _ _ e) h)
        | inr free ↦ rw (e, free) (q.user_added name id _ (absent _ _ e) (absent _ _ free) h)
      ]

  pub Keeps-user_add : (name : Text) (id : ℕ) → Keeps Q (user_add name id)
  Keeps-user_add name id = record { at = λ w h. added_from name id _ w refl h }

  pub Keeps-on_security_list : (e : SecurityList) → Keeps Q (on_security_list e)
  unfolding on_security_list
  Keeps-on_security_list e = Keeps-relay security e.security_req_id _ (λ r.
      Keeps-forward (Response.security_list (record e { security_req_id = r.req_id }))
        (not (is_valid_list e.security_request_result) || not r.keep_alive) r)

  pub Keeps-on_security_definition : (e : SecurityDefinition) → Keeps Q (on_security_definition e)
  unfolding on_security_definition
  Keeps-on_security_definition e = Keeps-relay security e.security_req_id _ (λ r.
      Keeps-forward (Response.security_definition (record e { security_req_id = r.req_id }))
        (not (is_accepted e.security_response_type) || not r.keep_alive) r)

  pub Keeps-on_security_status : (e : SecurityStatus) → Keeps Q (on_security_status e)
  unfolding on_security_status
  Keeps-on_security_status e = Keeps-relay security_status e.security_status_req_id _ (λ r.
      Keeps-forward (Response.security_status (record e { security_status_req_id = r.req_id }))
        (not r.keep_alive) r)

  pub Keeps-on_market_data_request_reject :
      (e : MarketDataRequestReject) → Keeps Q (on_market_data_request_reject e)
  unfolding on_market_data_request_reject
  Keeps-on_market_data_request_reject e = Keeps-relay md e.md_req_id _ (λ r.
      Keeps-forward (Response.market_data_request_reject (record e { md_req_id = r.req_id })) true
        r)

  pub Keeps-on_market_data_snapshot_full_refresh :
      (e : MarketDataSnapshotFullRefresh) → Keeps Q (on_market_data_snapshot_full_refresh e)
  unfolding on_market_data_snapshot_full_refresh
  Keeps-on_market_data_snapshot_full_refresh e = Keeps-relay md e.md_req_id _ (λ r.
      Keeps-forward (Response.market_data_snapshot_full_refresh (record e { md_req_id = r.req_id }))
        (not r.keep_alive) r)

  pub Keeps-on_market_data_incremental_refresh :
      (e : MarketDataIncrementalRefresh) → Keeps Q (on_market_data_incremental_refresh e)
  unfolding on_market_data_incremental_refresh
  Keeps-on_market_data_incremental_refresh e = Keeps-relay md e.md_req_id _ (λ r.
      Keeps-forward (Response.market_data_incremental_refresh (record e { md_req_id = r.req_id }))
        false r)

  pub Keeps-on_trade_capture_report_request_ack :
      (e : TradeCaptureReportRequestAck) → Keeps Q (on_trade_capture_report_request_ack e)
  unfolding on_trade_capture_report_request_ack
  Keeps-on_trade_capture_report_request_ack e = Keeps-relay trade e.trade_request_id _ (λ r.
      Keeps-forward
        (Response.trade_capture_report_request_ack (record e { trade_request_id = r.req_id }))
        (not r.keep_alive) r)

  pub Keeps-on_trade_capture_report : (e : TradeCaptureReport) → Keeps Q (on_trade_capture_report e)
  unfolding on_trade_capture_report
  Keeps-on_trade_capture_report e = Keeps-relay trade e.trade_request_id _ (λ r.
      Keeps-forward (Response.trade_capture_report (record e { trade_request_id = r.req_id }))
        (e.last_rpt_requested && not r.keep_alive) r)

  pub Keeps-on_business_message_reject :
      (e : BusinessMessageReject) → Keeps Q (on_business_message_reject e)
  unfolding on_business_message_reject
  Keeps-on_business_message_reject e = Keeps-reject_in (rejected_mapping e.ref_msg_type) e
