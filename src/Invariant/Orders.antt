-- ===== src/Invariant/Orders.antt =====
-- The handlers of a client's requests about orders keep every invariant.
use roq_fix_proxy.Prelude.{ℕ, ◌≡◌, refl, Bool, true, false, Option, none, some, nat_eq}
use roq_fix_proxy.Prelude.Text.{Text, text_eq, codes, is_empty}
use roq_fix_proxy.Prelude.Effect.{
  ◌>>◌, Keeps, Keeps-bind, Keeps-then, Keeps-if, Leads-then, Leads-of_Keeps,
}
use roq_fix_proxy.Externals.{Externals}
use roq_fix_proxy.Message.Enums.{CxlRejReason}
use roq_fix_proxy.Message.Request.{
  Request, OrderStatusRequest, NewOrderSingle, OrderCancelReplaceRequest, OrderCancelRequest,
  OrderMassStatusRequest, OrderMassCancelRequest,
}
use roq_fix_proxy.Mapping.{find_client}
use roq_fix_proxy.World.{World}
use roq_fix_proxy.World.Mappings.{MappingName, get, ord_status, mass_status, cl_ord, mass_cancel}
use roq_fix_proxy.World.Access.{Method, modify_mapping}
use roq_fix_proxy.Server.Send.{dispatch_to_server}
use roq_fix_proxy.Controller.Utilities.{add_req_id, get_client_from_parties, client_request_id}
use roq_fix_proxy.Controller.Subscribe.{lookup_req_id}
use roq_fix_proxy.Controller.Requests.{error_validation}
use roq_fix_proxy.Controller.OrderRequests.{
  forward_order, forward_unnamed, order_status_reject, order_status_reject_message,
  forward_order_status, on_order_status_request, new_order_reject, new_order_reject_message,
  on_new_order_single, cancel_replace_reject, cancel_replace_reject_message,
  on_order_cancel_replace_request, cancel_reject, cancel_reject_message, on_order_cancel_request,
  error_duplicate_cl_ord_id, error_duplicate_ord_status_req_id,
}
use roq_fix_proxy.Controller.MassRequests.{
  mass_status_reject, mass_status_reject_message, on_order_mass_status_request, mass_cancel_reject,
  mass_cancel_reject_message, on_order_mass_cancel_request,
}
use roq_fix_proxy.Invariant.{IsStable}
use roq_fix_proxy.Invariant.Sessions.{
  Keeps-quiet, dispatch_to_server-IsQuiet, Keeps-dispatch_to_server, Keeps-create_request_id,
}
use roq_fix_proxy.Invariant.Relays.{Keeps-dispatch_to_client}
use roq_fix_proxy.Invariant.Requests.{IsUnused, Leads-add_req_id}

module _ (Q : World → Type 0) (q : IsStable Q) where
  module _ (n : MappingName) (id : ℕ) (req_id request_id : Text) (message : Request) (k : Bool)
      (duplicate : Method) (duplicates : Keeps Q duplicate) where
    ordered :
        (found : Option Text) (w : World)
        → find_client id req_id (get n w.subscriptions) ≡ found
        → Q w
        → Q
            ((elim found as (λ _. Method) [
              | some other ↦ duplicate
              | none ↦ (dispatch_to_server message >> add_req_id n req_id request_id id k)
            ])
              w).1
    ordered none w e h =
        (Leads-then
            (Leads-of_Keeps (
              Keeps-quiet (IsUnused n id req_id) (Keeps-dispatch_to_server Q q message)
                (dispatch_to_server-IsQuiet message).subscriptions))
            (λ v x. x.0) (Leads-add_req_id Q q n req_id request_id id k)).at
          w (h, e)
    ordered (some r) w e h = duplicates.at w h

    Keeps-forward_order : Keeps Q (forward_order n id req_id request_id message k duplicate)
    unfolding forward_order lookup_req_id modify_mapping ◌>>◌
    Keeps-forward_order = record { at = λ w h. ordered _ _ refl (q.opened n id _ h) }

  Keeps-forward_unnamed :
      (id : ℕ) (r : Text) (message : Request) → Keeps Q (forward_unnamed id r message)
  unfolding forward_unnamed modify_mapping
  Keeps-forward_unnamed id r message =
      Keeps-then (record { at = λ w h. q.opened ord_status id _ h })
        (Keeps-then (Keeps-dispatch_to_server Q q message)
          (record { at = λ w h. q.unnamed r id _ h }))

module _ (Q : World → Type 0) (q : IsStable Q) ⦃ext : Externals⦄ where
  Keeps-order_status_reject :
      (e : OrderStatusRequest) (id : ℕ) (t : Text) → Keeps Q (order_status_reject e id t)
  unfolding order_status_reject
  Keeps-order_status_reject e id t =
      Keeps-bind (Keeps-create_request_id Q q)
        (λ r. Keeps-dispatch_to_client Q q (order_status_reject_message e t r) id)

  Keeps-new_order_reject :
      (e : NewOrderSingle) (id : ℕ) (t : Text) → Keeps Q (new_order_reject e id t)
  unfolding new_order_reject
  Keeps-new_order_reject e id t =
      Keeps-bind (Keeps-create_request_id Q q)
        (λ r. Keeps-dispatch_to_client Q q (new_order_reject_message e t r) id)

  Keeps-cancel_replace_reject :
      (e : OrderCancelReplaceRequest) (id : ℕ) (r : CxlRejReason) (t : Text)
      → Keeps Q (cancel_replace_reject e id r t)
  unfolding cancel_replace_reject
  Keeps-cancel_replace_reject e id r t =
      Keeps-dispatch_to_client Q q (cancel_replace_reject_message e r t) id

  Keeps-cancel_reject :
      (e : OrderCancelRequest) (id : ℕ) (r : CxlRejReason) (t : Text)
      → Keeps Q (cancel_reject e id r t)
  unfolding cancel_reject
  Keeps-cancel_reject e id r t = Keeps-dispatch_to_client Q q (cancel_reject_message e r t) id

  Keeps-mass_status_reject :
      (e : OrderMassStatusRequest) (id : ℕ) (t : Text) → Keeps Q (mass_status_reject e id t)
  unfolding mass_status_reject
  Keeps-mass_status_reject e id t =
      Keeps-bind (Keeps-create_request_id Q q)
        (λ r. Keeps-dispatch_to_client Q q (mass_status_reject_message e t r) id)

  Keeps-mass_cancel_reject :
      (e : OrderMassCancelRequest) (id : ℕ) (t : Text) → Keeps Q (mass_cancel_reject e id t)
  unfolding mass_cancel_reject
  Keeps-mass_cancel_reject e id t = Keeps-dispatch_to_client Q q (mass_cancel_reject_message e t) id

  Keeps-forward_order_status :
      (e : OrderStatusRequest) (id : ℕ) → Keeps Q (forward_order_status e id)
  unfolding forward_order_status
  Keeps-forward_order_status e id =
      let client_id = get_client_from_parties e.no_party_ids in
      let request_id = client_request_id client_id e.ord_status_req_id in
      let message = Request.order_status_request (record e {
        ord_status_req_id = request_id;
        cl_ord_id = client_request_id client_id e.cl_ord_id;
      }) in
      Keeps-if (is_empty e.ord_status_req_id) (Keeps-forward_unnamed Q q id request_id message) (
        Keeps-forward_order Q q ord_status id e.ord_status_req_id request_id message false _
          (Keeps-order_status_reject e id error_duplicate_ord_status_req_id))

  pub Keeps-on_order_status_request :
      (e : OrderStatusRequest) (id : ℕ) → Keeps Q (on_order_status_request e id)
  unfolding on_order_status_request
  Keeps-on_order_status_request e id =
      Keeps-if (ext.is_valid (Request.order_status_request e)) (Keeps-forward_order_status e id)
        (Keeps-order_status_reject e id error_validation)

  pub Keeps-on_new_order_single : (e : NewOrderSingle) (id : ℕ) → Keeps Q (on_new_order_single e id)
  unfolding on_new_order_single
  Keeps-on_new_order_single e id =
      let request_id = client_request_id (get_client_from_parties e.no_party_ids) e.cl_ord_id in
      Keeps-if (ext.is_valid (Request.new_order_single e))
        (Keeps-forward_order Q q cl_ord id e.cl_ord_id request_id
          (Request.new_order_single (record e { cl_ord_id = request_id })) true _
          (Keeps-new_order_reject e id error_duplicate_cl_ord_id))
        (Keeps-new_order_reject e id error_validation)

  pub Keeps-on_order_cancel_replace_request :
      (e : OrderCancelReplaceRequest) (id : ℕ) → Keeps Q (on_order_cancel_replace_request e id)
  unfolding on_order_cancel_replace_request
  Keeps-on_order_cancel_replace_request e id =
      let client_id = get_client_from_parties e.no_party_ids in
      let request_id = client_request_id client_id e.cl_ord_id in
      Keeps-if (ext.is_valid (Request.order_cancel_replace_request e))
        (Keeps-forward_order Q q cl_ord id e.cl_ord_id request_id
          (Request.order_cancel_replace_request (record e {
            cl_ord_id = request_id;
            orig_cl_ord_id = client_request_id client_id e.orig_cl_ord_id;
          }))
          true _
          (Keeps-cancel_replace_reject e id CxlRejReason.duplicate_cl_ord_id
            error_duplicate_cl_ord_id))
        (Keeps-cancel_replace_reject e id CxlRejReason.other error_validation)

  pub Keeps-on_order_cancel_request :
      (e : OrderCancelRequest) (id : ℕ) → Keeps Q (on_order_cancel_request e id)
  unfolding on_order_cancel_request
  Keeps-on_order_cancel_request e id =
      let client_id = get_client_from_parties e.no_party_ids in
      let request_id = client_request_id client_id e.cl_ord_id in
      Keeps-if (ext.is_valid (Request.order_cancel_request e))
        (Keeps-forward_order Q q cl_ord id e.cl_ord_id request_id
          (Request.order_cancel_request (record e {
            cl_ord_id = request_id;
            orig_cl_ord_id = client_request_id client_id e.orig_cl_ord_id;
          }))
          true _
          (Keeps-cancel_reject e id CxlRejReason.duplicate_cl_ord_id
            error_duplicate_ord_status_req_id))
        (Keeps-cancel_reject e id CxlRejReason.other error_validation)

  pub Keeps-on_order_mass_status_request :
      (e : OrderMassStatusRequest) (id : ℕ) → Keeps Q (on_order_mass_status_request e id)
  unfolding on_order_mass_status_request
  Keeps-on_order_mass_status_request e id =
      let request_id =
        client_request_id (get_client_from_parties e.no_party_ids) e.mass_status_req_id in
      Keeps-if (ext.is_valid (Request.order_mass_status_request e))
        (Keeps-forward_order Q q mass_status id e.mass_status_req_id request_id
          (Request.order_mass_status_request (record e { mass_status_req_id = request_id })) false _
          (Keeps-mass_status_reject e id (codes "DUPLICATE_MASS_STATUS_REQ_ID")))
        (Keeps-mass_status_reject e id error_validation)

  pub Keeps-on_order_mass_cancel_request :
      (e : OrderMassCancelRequest) (id : ℕ) → Keeps Q (on_order_mass_cancel_request e id)
  unfolding on_order_mass_cancel_request
  Keeps-on_order_mass_cancel_request e id =
      let request_id = client_request_id (get_client_from_parties e.no_party_ids) e.cl_ord_id in
      Keeps-if (ext.is_valid (Request.order_mass_cancel_request e))
        (Keeps-forward_order Q q mass_cancel id e.cl_ord_id request_id
          (Request.order_mass_cancel_request (record e { cl_ord_id = request_id })) false _
          (Keeps-mass_cancel_reject e id error_duplicate_cl_ord_id))
        (Keeps-mass_cancel_reject e id error_validation)
