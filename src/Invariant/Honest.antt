-- ===== src/Invariant/Honest.antt =====
-- The ready flag in every state that the event loop reaches, as long as the gateway's connection does
-- not come up twice.
use roq_fix_proxy.Prelude.{◌≡◌, refl, true, false}
use roq_fix_proxy.Prelude.Effect.{◌>>◌}
use roq_fix_proxy.Externals.{Externals}
use roq_fix_proxy.World.{World, ServerState}
use roq_fix_proxy.World.Access.{emit}
use roq_fix_proxy.Server.Send.{send_helper, send_logon, send_admin}
use roq_fix_proxy.Server.Inbound.{on_logon, on_connected, set_ready, modify_server}
use roq_fix_proxy.Manager.{on_connection, remove_zombies}
use roq_fix_proxy.Events.{Event, Reach}
use roq_fix_proxy.Invariant.{IsStable, IsLasting}
use roq_fix_proxy.Invariant.Loop.{Granted, Along, IsInvariant, Reach-Q}
use roq_fix_proxy.Invariant.Sight.{
  Keeps-become_zombie, Keeps-collect, Keeps-send_freely, Sight, Sees, Sees-IsStable,
}
use roq_fix_proxy.Invariant.Returning.{IsHonest}

-- The connection manager reports a new connection once the last one is known to be gone.
abbrev pub Orderly : Granted
Orderly Event.server_connected w = w.ready ≡ false
Orderly _ w = Unit {0}

abbrev Honest : Sight
Honest s flag sessions out last ids due = flag ≡ true → s.state ≡ ServerState.ready

Honest-IsStable : IsStable (Sees Honest)
unfolding send_helper emit
Honest-IsStable =
    Sees-IsStable Honest (λ t b. record { at = λ w h. h })
      (Keeps-send_freely Honest (λ m w h. h) (λ id x b w h. h)) (λ id. record { at = λ w h. h })
      (λ id c d w there same alive dead h. h) (Keeps-become_zombie Honest (λ id c w e h. h))
      (λ ids w more h. h)

Honest-IsLasting : IsLasting (Sees Honest)
unfolding on_logon set_ready modify_server ◌>>◌ emit remove_zombies
Honest-IsLasting = record {
  stable = Honest-IsStable;
  server_changed = λ s w state out h up. rw state (h up);
  logged_on = record { at = λ w h up. refl };
  flag_lowered = λ w h up. absurd cc;
  clock_changed = λ c w h. h;
  sent_to_auth = λ t. record { at = λ w h. h };
  collected = Keeps-collect Honest (λ ids due w h all. h);
}

Honest-IsInvariant : IsInvariant Orderly (Sees Honest)
unfolding on_connection on_connected modify_server send_logon send_admin send_helper ◌>>◌
Honest-IsInvariant = record {
  lasting = Honest-IsLasting;
  connection = λ c w a h. h;
  connected = λ c w down h up. absurd cc;
  server_reset = λ u a w down h up. absurd cc;
}

module _ ⦃ext : Externals⦄ where
  -- In every state that the event loop reaches from one where it is so, the controller's ready flag
  -- says that the server session is ready only if it is, provided that the gateway's connection never
  -- comes up while the flag is up.
  pub Reach-IsHonest : (w v : World) (r : Reach w v) → Along Orderly r → IsHonest w → IsHonest v
  Reach-IsHonest w v r a h = record {
    at = Reach-Q Orderly (Sees Honest) Honest-IsInvariant w v r a h.at;
  }
