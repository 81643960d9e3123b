-- ===== src/Controller/Accepted.antt =====
-- The reports on orders that are not rejected, and the tracking of the orders' status (controller.cpp,
-- ExecutionReport, ensure_cl_ord_id and remove_cl_ord_id).
use roq_fix_proxy.Prelude.{
  ℕ, ◌≡◌, refl, Bool, true, false, some, [], ◌∷◌, nat_eq, not, if◌then◌else◌, Bool-cases, inl, inr,
}
use roq_fix_proxy.Prelude.Text.{Text, text_eq, is_empty}
use roq_fix_proxy.Prelude.Map.{Map, find, erase, assign}
use roq_fix_proxy.Prelude.Effect.{ok, ◌>>◌, skip}
use roq_fix_proxy.Externals.{Externals}
use roq_fix_proxy.Message.Enums.{OrdStatus}
use roq_fix_proxy.Message.Response.{Response, ExecutionReport}
use roq_fix_proxy.World.{World, ClientState, ClientSession}
use roq_fix_proxy.World.Access.{Method, modify_mapping}
use roq_fix_proxy.Client.Deliver.{deliver, send_if_ready}
use roq_fix_proxy.Controller.Utilities.{
  get_client_cl_ord_id, remove_req_id, get_client_from_parties, is_pending, remove_cl_ord_id,
  ensure_cl_ord_id, broadcast,
}
use roq_fix_proxy.Controller.Reports.{
  client_view, is_rejected, order_action_report, order_accepted, on_execution_report,
}
use roq_fix_proxy.Client.Connection.{client_header}
use roq_fix_proxy.Controller.Delivery.{to_session, sent, delivered}
use roq_fix_proxy.Controller.Orders.{IsAction}

-- What the proxy notes of an order's status concerns nothing else.
abbrev pub Tracks : Method → Type 0
Tracks a = (w : World) → (m : Map Text OrdStatus) × (a w ≡ (ok tt, record w { cl_ord_id = m }))

Tracks-skip : Tracks skip
unfolding skip
Tracks-skip w = (w.cl_ord_id, refl)

Tracks-if : (b : Bool) (a d : Method) → Tracks a → Tracks d → Tracks (if b then a else d)
Tracks-if true a d ta td = ta
Tracks-if false a d ta td = td

Tracks-remove_cl_ord_id : (t : Text) → Tracks (remove_cl_ord_id t)
unfolding remove_cl_ord_id
Tracks-remove_cl_ord_id [] w = (w.cl_ord_id, refl)
Tracks-remove_cl_ord_id (b ∷ t) w = elim (Bool-cases w.shared.settings.disable_remove_cl_ord_id) [
  | inl kept ↦ (w.cl_ord_id, rw (kept, remove_cl_ord_id) refl)
  | inr gone ↦ (erase (b ∷ t) w.cl_ord_id, rw (gone, remove_cl_ord_id) refl)
]

pub Tracks-ensure_cl_ord_id : (t : Text) (s : OrdStatus) → Tracks (ensure_cl_ord_id t s)
unfolding ensure_cl_ord_id
Tracks-ensure_cl_ord_id [] s w = (w.cl_ord_id, refl)
Tracks-ensure_cl_ord_id (b ∷ t) s w = (assign (b ∷ t) s w.cl_ord_id, refl)

module _ ⦃ext : Externals⦄ where
  broadcast-sent :
      (name : Text) (s : ℕ) (c : ClientSession) (r : Response) (w : World)
      → deliver s r ≡ send_if_ready s r
      → find name w.subscriptions.user.client_to_session ≡ some s
      → find s w.sessions ≡ some c
      → c.state ≡ ClientState.ready
      → broadcast r name w ≡ (ok tt, sent s c r w)
  unfolding broadcast
  broadcast-sent name s c r w passed names there up =
      rw (names, broadcast) (delivered s c r w passed there up)

  -- A report on an order that is neither rejected nor pending, whose parties name a client for whom a
  -- session is logged on that is ready: the call returns and the report goes to that session and to no
  -- other, whoever sent the order, with the ids as the client knows them.
  pub on_execution_report-Accepted :
      (e : ExecutionReport) (s : ℕ) (c : ClientSession) (w : World)
      → IsAction e
      → is_rejected e.exec_type ≡ false
      → is_pending e.exec_type ≡ false
      → find (get_client_from_parties e.no_party_ids) w.subscriptions.user.client_to_session
        ≡ some s
      → find s w.sessions ≡ some c
      → c.state ≡ ClientState.ready
      → ((on_execution_report e w).0 ≡ ok tt)
        × ((on_execution_report e w).1.out
            ≡ to_session s c
                (Response.execution_report (record e {
                  cl_ord_id = get_client_cl_ord_id e.cl_ord_id;
                  orig_cl_ord_id = get_client_cl_ord_id e.orig_cl_ord_id;
                }))
                w
              ∷ w.out)
  unfolding client_view on_execution_report order_action_report order_accepted remove_req_id
      modify_mapping ◌>>◌ deliver client_header
  on_execution_report-Accepted e s c w is accepted done names there up =
      let (m, first) =
        Tracks-if (ext.is_order_complete e.ord_status) _ _ (Tracks-remove_cl_ord_id e.cl_ord_id)
          Tracks-skip w in
      let (n, second) =
        Tracks-if (not (is_empty e.orig_cl_ord_id)) _ _ (Tracks-remove_cl_ord_id e.orig_cl_ord_id)
          Tracks-skip (record w { cl_ord_id = m }) in
      rw
        (
          is.alone,
          is.single,
          accepted,
          done,
          first,
          second,
          broadcast-sent (get_client_from_parties e.no_party_ids) s c
              (Response.execution_report (client_view e)) (record w { cl_ord_id = n }) refl names
              there up,
        )
        (refl, refl)
