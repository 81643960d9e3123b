-- ===== src/Invariant/Reports.antt =====
-- The handlers of user responses, of positions and of the reports on orders keep every invariant.
use roq_fix_proxy.Prelude.{
  ℕ, ◌≡◌, refl, Bool, true, false, Option, none, some, inl, inr, nat_eq, if◌then◌else◌, ◌&&◌, ◌||◌,
  not, Bool-cases, nat_beq,
}
use roq_fix_proxy.Prelude.Text.{Text, text_eq, is_empty}
use roq_fix_proxy.Prelude.Map.{find, contains}
use roq_fix_proxy.Prelude.Effect.{
  skip, throw, Keeps, Keeps-skip, Keeps-bind, Keeps-then, Keeps-if, Keeps-gets,
}
use roq_fix_proxy.Externals.{Externals}
use roq_fix_proxy.Message.Enums.{UserStatus}
use roq_fix_proxy.Message.Response.{
  Response, UserResponse, RequestForPositionsAck, PositionReport, ExecutionReport,
  OrderCancelReject, OrderMassCancelReport,
}
use roq_fix_proxy.Mapping.{Route}
use roq_fix_proxy.World.{World}
use roq_fix_proxy.World.Mappings.{ord_status, mass_status, pos, cl_ord, mass_cancel}
use roq_fix_proxy.World.Access.{modify_users}
use roq_fix_proxy.Client.Deliver.{is_ready}
use roq_fix_proxy.Controller.Disconnect.{forget_user}
use roq_fix_proxy.Controller.Utilities.{
  broadcast, user_remove, get_client_from_parties, is_pending, get_client_cl_ord_id,
}
use roq_fix_proxy.Controller.Responses.{
  update_user, user_answered, on_user_response, ack_positions, report_position, on_position_report,
  on_request_for_positions_ack, is_valid_pos, is_rejected_pos,
}
use roq_fix_proxy.Controller.Reports.{
  on_order_cancel_reject, on_order_mass_cancel_report, order_status_report, mass_status_report,
  order_rejected, order_accepted, order_action_report, on_execution_report, is_rejected,
  client_view,
}
use roq_fix_proxy.Invariant.{IsStable}
use roq_fix_proxy.Invariant.Sessions.{Keeps-session_at}
use roq_fix_proxy.Invariant.Connection.{Keeps-deliver}
use roq_fix_proxy.Invariant.Relays.{
  Keeps-relay, Keeps-forward, Keeps-remove_req_id, Keeps-dispatch_to_client, Keeps-user_add,
  Keeps-set_total, Keeps-ensure_cl_ord_id, Keeps-remove_cl_ord_id,
}

module _ (Q : World → Type 0) (q : IsStable Q) where
  removed_from :
      (name : Text) (ready : Bool) (found : Option ℕ) (w : World)
      → find name w.subscriptions.user.client_to_session ≡ found
      → Q w
      → Q (user_remove name ready w).1
  unfolding user_remove throw skip forget_user
  removed_from name true none w e h = rw (e, user_remove) h
  removed_from name false none w e h = rw (e, user_remove) h
  removed_from name ready (some id) w e h = rw (e, user_remove) (q.user_removed name id _ (inl e) h)

  Keeps-user_remove : (name : Text) (ready : Bool) → Keeps Q (user_remove name ready)
  Keeps-user_remove name ready = record { at = λ w h. removed_from name ready _ w refl h }

module _ (Q : World → Type 0) (q : IsStable Q) ⦃ext : Externals⦄ where
  Keeps-update_user : (s : UserStatus) (name : Text) (id : ℕ) → Keeps Q (update_user s name id)
  unfolding update_user
  Keeps-update_user UserStatus.logged_in name id = Keeps-user_add Q q name id
  Keeps-update_user UserStatus.not_logged_in name id =
      Keeps-bind (Keeps-session_at Q id) (λ c. Keeps-user_remove Q q name (is_ready c.state))
  Keeps-update_user (UserStatus.other n) name id = Keeps-skip

  Keeps-user_answered : (e : UserResponse) (id : ℕ) → Keeps Q (user_answered e id)
  unfolding user_answered modify_users
  Keeps-user_answered e id = Keeps-then (Keeps-update_user e.user_status e.username id) (
      Keeps-then (record { at = λ w h. q.user_answers e.user_request_id id _ h })
        (Keeps-deliver Q q id (Response.user_response e)))

  answered_from :
      (e : UserResponse) (found : Option ℕ) (w : World)
      → find e.user_request_id w.subscriptions.user.server_to_client ≡ found
      → Q w
      → Q (on_user_response e w).1
  unfolding on_user_response
  answered_from e none w f h = rw (f, on_user_response) h
  answered_from e (some id) w f h = elim (Bool-cases (contains id w.sessions)) [
    | inl known ↦ rw (f, on_user_response, known) ((Keeps-user_answered e id).at w h)
    | inr gone ↦ rw (f, on_user_response, gone) ((Keeps-user_remove Q q e.username false).at w h)
  ]

  pub Keeps-on_user_response : (e : UserResponse) → Keeps Q (on_user_response e)
  Keeps-on_user_response e = record { at = λ w h. answered_from e _ w refl h }

  Keeps-ack_positions : (e : RequestForPositionsAck) (r : Route) → Keeps Q (ack_positions e r)
  unfolding ack_positions
  Keeps-ack_positions e r = Keeps-then (Keeps-set_total Q q _) (
      Keeps-forward Q q (Response.request_for_positions_ack (record e { pos_req_id = r.req_id }))
        ((not (is_valid_pos e.pos_req_result) || is_rejected_pos e.pos_req_status)
          || nat_beq e.total_num_pos_reports 0)
        r)

  pub Keeps-on_request_for_positions_ack :
      (e : RequestForPositionsAck) → Keeps Q (on_request_for_positions_ack e)
  unfolding on_request_for_positions_ack
  Keeps-on_request_for_positions_ack e = Keeps-relay Q q pos e.pos_req_id _ (Keeps-ack_positions e)

  Keeps-report_position : (e : PositionReport) (r : Route) → Keeps Q (report_position e r)
  unfolding report_position
  Keeps-report_position e r = Keeps-bind (Keeps-gets _) (λ total.
      Keeps-forward Q q (Response.position_report (record e { pos_req_id = r.req_id }))
        (if is_valid_pos e.pos_req_result then nat_beq total 0 && not r.keep_alive else true) r)

  pub Keeps-on_position_report : (e : PositionReport) → Keeps Q (on_position_report e)
  unfolding on_position_report
  Keeps-on_position_report e = Keeps-bind (Keeps-gets _) (λ total.
      Keeps-then (Keeps-set_total Q q _)
        (Keeps-relay Q q pos e.pos_req_id _ (Keeps-report_position e)))

  pub Keeps-on_order_cancel_reject : (e : OrderCancelReject) → Keeps Q (on_order_cancel_reject e)
  unfolding on_order_cancel_reject
  Keeps-on_order_cancel_reject e =
      Keeps-then
        (Keeps-relay Q q cl_ord e.cl_ord_id _ (λ r.
          Keeps-forward Q q
            (Response.order_cancel_reject (record e {
              cl_ord_id = r.req_id;
              orig_cl_ord_id = get_client_cl_ord_id e.orig_cl_ord_id;
            }))
            false r))
        (Keeps-remove_req_id Q q cl_ord e.cl_ord_id)

  pub Keeps-on_order_mass_cancel_report :
      (e : OrderMassCancelReport) → Keeps Q (on_order_mass_cancel_report e)
  unfolding on_order_mass_cancel_report
  Keeps-on_order_mass_cancel_report e =
      Keeps-then
        (Keeps-relay Q q mass_cancel e.cl_ord_id _ (λ r.
          Keeps-forward Q q (Response.order_mass_cancel_report (record e { cl_ord_id = r.req_id }))
            false r))
        (Keeps-remove_req_id Q q mass_cancel e.cl_ord_id)

  Keeps-order_status_report : (e : ExecutionReport) → Keeps Q (order_status_report e)
  unfolding order_status_report
  Keeps-order_status_report e = Keeps-then (Keeps-ensure_cl_ord_id Q q e.cl_ord_id e.ord_status) (
      Keeps-relay Q q ord_status e.ord_status_req_id _ (λ r.
        Keeps-forward Q q
          (Response.execution_report (record (client_view e) { ord_status_req_id = r.req_id })) true
          r))

  Keeps-mass_status_report : (e : ExecutionReport) → Keeps Q (mass_status_report e)
  unfolding mass_status_report
  Keeps-mass_status_report e = Keeps-then (Keeps-ensure_cl_ord_id Q q e.cl_ord_id e.ord_status) (
      Keeps-relay Q q mass_status e.mass_status_req_id _ (λ r.
        Keeps-forward Q q
          (Response.execution_report (record (client_view e) { mass_status_req_id = r.req_id }))
          e.last_rpt_requested r))

  Keeps-order_rejected : (e : ExecutionReport) → Keeps Q (order_rejected e)
  unfolding order_rejected
  Keeps-order_rejected e =
      Keeps-relay Q q cl_ord e.cl_ord_id _
        (Keeps-forward Q q (Response.execution_report (client_view e)) false)

  broadcast_from :
      (r : Response) (client : Text) (found : Option ℕ) (w : World)
      → find client w.subscriptions.user.client_to_session ≡ found
      → Q w
      → Q (broadcast r client w).1
  unfolding broadcast
  broadcast_from r client none w f h = rw (f, broadcast) h
  broadcast_from r client (some id) w f h =
      rw (f, broadcast) ((Keeps-dispatch_to_client Q q r id).at w h)

  Keeps-broadcast : (r : Response) (client : Text) → Keeps Q (broadcast r client)
  Keeps-broadcast r client = record { at = λ w h. broadcast_from r client _ w refl h }

  Keeps-order_accepted : (e : ExecutionReport) → Keeps Q (order_accepted e)
  unfolding order_accepted
  Keeps-order_accepted e =
      Keeps-then
        (Keeps-if (ext.is_order_complete e.ord_status) (Keeps-remove_cl_ord_id Q q e.cl_ord_id) (
          Keeps-if (is_pending e.exec_type) (Keeps-ensure_cl_ord_id Q q e.cl_ord_id e.ord_status)
            Keeps-skip))
        (Keeps-then
          (Keeps-if (not (is_pending e.exec_type) && not (is_empty e.orig_cl_ord_id))
            (Keeps-remove_cl_ord_id Q q e.orig_cl_ord_id) Keeps-skip)
          (Keeps-broadcast (Response.execution_report (client_view e))
            (get_client_from_parties e.no_party_ids)))

  Keeps-order_action_report : (e : ExecutionReport) → Keeps Q (order_action_report e)
  unfolding order_action_report
  Keeps-order_action_report e =
      Keeps-then
        (Keeps-if (is_rejected e.exec_type) (Keeps-order_rejected e) (Keeps-order_accepted e))
        (Keeps-if (is_pending e.exec_type) Keeps-skip (Keeps-remove_req_id Q q cl_ord e.cl_ord_id))

  pub Keeps-on_execution_report : (e : ExecutionReport) → Keeps Q (on_execution_report e)
  unfolding on_execution_report
  Keeps-on_execution_report e =
      Keeps-if (not (is_empty e.ord_status_req_id)) (Keeps-order_status_report e) (
        Keeps-if (not (is_empty e.mass_status_req_id)) (Keeps-mass_status_report e)
          (Keeps-order_action_report e))
