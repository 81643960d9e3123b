-- ===== src/Invariant/Routing.antt =====
-- The ten mappings in every state that the event loop reaches.
use roq_fix_proxy.Prelude.{refl, true, false, inl, nat_eq}
use roq_fix_proxy.Prelude.Text.{text_eq}
use roq_fix_proxy.Externals.{Externals}
use roq_fix_proxy.Mapping.Routing.{
  open_client-IsRouted, emplace_server-IsRouted, remove_req_id-IsRouted, add_req_id-IsRouted,
  set_keep_alive-IsRouted,
}
use roq_fix_proxy.World.{World}
use roq_fix_proxy.World.Mappings.{get, is_optional, pos, ord_status, AllRouted, put-AllRouted}
use roq_fix_proxy.Events.{Reach}
use roq_fix_proxy.Invariant.{IsClosed}
use roq_fix_proxy.Invariant.Clearing.{clear_req_ids_lem}
use roq_fix_proxy.Invariant.Forgetting.{AllRouted-users}
use roq_fix_proxy.Invariant.Closure.{Reach-Holds}

AllRouted-IsClosed : IsClosed AllRouted
AllRouted-IsClosed = record {
  opened = λ n id s v.
      put-AllRouted _ s v n (open_client-IsRouted (is_optional n) (get n s) (v.at n) id);
  added = λ n c r id k s unused v.
      put-AllRouted _ s v n
        (add_req_id-IsRouted (is_optional n) (get n s) (v.at n) c r id k unused);
  unnamed = λ r id s v.
      put-AllRouted _ s v ord_status
        (emplace_server-IsRouted true (get ord_status s) (v.at ord_status) r _ (inl refl));
  removed = λ n r s v.
      put-AllRouted _ s v n (remove_req_id-IsRouted (is_optional n) (get n s) (v.at n) r);
  relaxed =
      λ r k m s e v. put-AllRouted _ s v pos (set_keep_alive-IsRouted false _ m (v.at pos) r k e);
  cleared =
      λ n id callback quiet. record { at = λ w v. (clear_req_ids_lem n id callback quiet w v).0 };
  user_added = λ name id s a b v. AllRouted-users _ s v;
  half_added = λ name id s a v. AllRouted-users _ s v;
  user_removed = λ name id s a v. AllRouted-users _ s v;
  user_awaits = λ r id s v. AllRouted-users _ s v;
  user_registers = λ r id s v. AllRouted-users _ s v;
  user_answers = λ r id s v. AllRouted-users _ s v;
}

module _ ⦃ext : Externals⦄ where
  -- In every state that the event loop reaches from one where it is so, each request that the server
  -- knows by an id stands among the requests of the session that made it, under the id that the
  -- session gave it, in each of the ten mappings; an order status request without an id of the
  -- session's own is excepted.
  pub Reach-AllRouted :
      (w v : World) → Reach w v → AllRouted w.subscriptions → AllRouted v.subscriptions
  Reach-AllRouted w v r h = Reach-Holds AllRouted AllRouted-IsClosed w v r h
