-- ===== src/Invariant/Closure.antt =====
-- A predicate on the subscriptions that is closed under their changes is an invariant.
use roq_fix_proxy.Prelude.{ℕ, Bool-cases, inl, inr, ltb}
use roq_fix_proxy.Prelude.Effect.{Keeps, Keeps-bind, Keeps-then, Keeps-gets, ◌>>◌}
use roq_fix_proxy.Externals.{Externals}
use roq_fix_proxy.Message.Enums.{MsgType}
use roq_fix_proxy.World.{World, Body}
use roq_fix_proxy.World.Access.{emit, put_session, modify_session, modify_shared}
use roq_fix_proxy.Server.Send.{send_helper, send_logon, send_admin}
use roq_fix_proxy.Server.Inbound.{on_logon, on_connected}
use roq_fix_proxy.Client.Connection.{send, become_zombie, set_state}
use roq_fix_proxy.Manager.{on_connection, remove_zombies}
use roq_fix_proxy.Invariant.{Predicate, Holds, IsClosed, IsStable, IsLasting}
use roq_fix_proxy.Invariant.Sessions.{Keeps-session_at}
use roq_fix_proxy.Invariant.Loop.{IsInvariant, Anyhow, Along-Anyhow, Reach-Q}
use roq_fix_proxy.Events.{Reach}

module _ (Q : Predicate) (q : IsClosed Q) where
  sends : (id : ℕ) (t : MsgType) (b : Body) → Keeps (Holds Q) (send id t b)
  unfolding send put_session emit
  sends id t b = Keeps-bind (Keeps-session_at (Holds Q) id) (λ c.
      Keeps-then (record { at = λ w h. h })
        (Keeps-bind (Keeps-gets _) (λ h. record { at = λ w h. h })))

  zombies : (id : ℕ) → Keeps (Holds Q) (become_zombie id)
  unfolding become_zombie set_state modify_session put_session modify_shared
  zombies id =
      Keeps-then (Keeps-bind (Keeps-session_at (Holds Q) id) (λ c. record { at = λ w h. h }))
        (record { at = λ w h. h })

  collects : (now : ℕ) → Keeps (Holds Q) (remove_zombies now)
  unfolding remove_zombies
  collects now = record {
    at = λ w h. elim (Bool-cases (ltb now w.next_garbage_collection)) [
      | inl early ↦ rw early h
      | inr due ↦ rw due h
    ];
  }

  Holds-IsStable : IsStable (Holds Q)
  unfolding send_helper emit
  Holds-IsStable = record {
    opened = λ n id w h. q.opened n id w.subscriptions h;
    added = λ n c r id k w unused h. q.added n c r id k w.subscriptions unused h;
    unnamed = λ r id w h. q.unnamed r id w.subscriptions h;
    removed = λ n r w h. q.removed n r w.subscriptions h;
    relaxed = λ r k m w e h. q.relaxed r k m w.subscriptions e h;
    cleared = λ n id callback quiet keeps. q.cleared n id callback quiet;
    user_added = λ name id w a b h. q.user_added name id w.subscriptions a b h;
    half_added = λ name id w a h. q.half_added name id w.subscriptions a h;
    user_removed = λ name id w own h. q.user_removed name id w.subscriptions own h;
    user_awaits = λ r id w h. q.user_awaits r id w.subscriptions h;
    user_registers = λ r id w h. q.user_registers r id w.subscriptions h;
    user_answers = λ r id w h. q.user_answers r id w.subscriptions h;
    sent_to_server = λ t b. record { at = λ w h. h };
    sent_to_client = sends;
    client_closed = λ id. record { at = λ w h. h };
    session_changed = λ id c d w there same alive dead h. h;
    zombie_made = zombies;
    shared_changed = λ s w same more h. h;
    orders_changed = λ m w h. h;
    total_changed = λ n w h. h;
  }

  Holds-IsLasting : IsLasting (Holds Q)
  unfolding on_logon emit ◌>>◌
  Holds-IsLasting = record {
    stable = Holds-IsStable;
    server_changed = λ s w a b h. h;
    logged_on = record { at = λ w h. h };
    flag_lowered = λ w h. h;
    clock_changed = λ c w h. h;
    sent_to_auth = λ t. record { at = λ w h. h };
    collected = collects;
  }

  pub Holds-IsInvariant : IsInvariant Anyhow (Holds Q)
  unfolding on_connection on_connected send_logon send_admin send_helper ◌>>◌
  Holds-IsInvariant = record {
    lasting = Holds-IsLasting;
    connection = λ c w a h. h;
    connected = λ c w a h. h;
    server_reset = λ u a w down h. h;
  }

module _ ⦃ext : Externals⦄ where
  -- What holds of the subscriptions at first holds ever after.
  pub Reach-Holds : (Q : Predicate) → IsClosed Q → (w v : World) → Reach w v → Holds Q w → Holds Q v
  Reach-Holds Q q w v r h =
      Reach-Q Anyhow (Holds Q) (Holds-IsInvariant Q q) w v r (Along-Anyhow w v r) h
