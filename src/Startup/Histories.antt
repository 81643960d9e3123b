-- ===== src/Startup/Histories.antt =====
-- The states that the proxy reaches from where it starts (controller.cpp, the constructor and the
-- handlers of the events).
use roq_fix_proxy.Prelude.{◌≡◌, refl, List, []}
use roq_fix_proxy.Prelude.Text.{Text}
use roq_fix_proxy.Prelude.Map.{find}
use roq_fix_proxy.Prelude.Effect.{ok}
use roq_fix_proxy.Externals.{Externals}
use roq_fix_proxy.Config.{Config}
use roq_fix_proxy.Mapping.Routing.{IsRouted, empty-IsRouted}
use roq_fix_proxy.Shared.{Settings}
use roq_fix_proxy.World.{World, Clock, Subscriptions}
use roq_fix_proxy.World.Mappings.{
  MappingName, get, is_optional, AllRouted, security, security_status, trad_ses, md, ord_status,
  mass_status, pos, trade, cl_ord, mass_cancel,
}
use roq_fix_proxy.Events.{Reach}
use roq_fix_proxy.Invariant.Loop.{Along}
use roq_fix_proxy.Invariant.Routing.{Reach-AllRouted}
use roq_fix_proxy.Invariant.Locks.{IsLocked, Reach-IsLocked}
use roq_fix_proxy.Invariant.Returning.{IsHonest}
use roq_fix_proxy.Invariant.Honest.{Orderly, Reach-IsHonest}
use roq_fix_proxy.Invariant.Numbers.{IsNumbered, Reach-IsNumbered}
use roq_fix_proxy.Invariant.Counts.{IsCounted, FewSessions, Reach-IsCounted}
use roq_fix_proxy.Invariant.Noted.{AreNoted, Reach-AreNoted}
use roq_fix_proxy.Startup.{start, no_subscriptions}
use roq_fix_proxy.Startup.Initial.{IsInitial, start-IsInitial}

-- What holds of the proxy at any time, besides the numbers of the messages to the server.
pub record IsSettled (w : World) : Type 0 where
  pub routed : AllRouted w.subscriptions
  pub locked : IsLocked w.subscriptions.user
  pub honest : IsHonest w
  pub counted : IsCounted w.sessions w.out w.shared.next_session_id
  pub noted : AreNoted w.sessions w.shared.sessions_to_remove

-- What holds of the proxy after a history.
pub record IsSound ⦃ext : Externals⦄ {w v : World} (r : Reach w v) : Type 0 where
  pub settled : IsSettled v
  pub unnumbered : w.server.outbound_msg_seq_num ≡ 0
  pub silent : w.out ≡ []
  pub numbered : IsNumbered r

no_subscriptions-AllRouted : (s : Subscriptions) → s ≡ no_subscriptions → AllRouted s
no_subscriptions-AllRouted s e = rw e (record { at = routed })
  where
    routed : (n : MappingName) → IsRouted (is_optional n) (get n no_subscriptions)
    routed security = empty-IsRouted _
    routed security_status = empty-IsRouted _
    routed trad_ses = empty-IsRouted _
    routed md = empty-IsRouted _
    routed ord_status = empty-IsRouted _
    routed mass_status = empty-IsRouted _
    routed pos = empty-IsRouted _
    routed trade = empty-IsRouted _
    routed cl_ord = empty-IsRouted _
    routed mass_cancel = empty-IsRouted _

no_subscriptions-IsLocked : (s : Subscriptions) → s ≡ no_subscriptions → IsLocked s.user
unfolding find
no_subscriptions-IsLocked s e = rw e (record { at = λ name id f. absurd cc })

module _ (config : Config) (w : World) (i : IsInitial config w) where
  initial-IsCounted : IsCounted w.sessions w.out w.shared.next_session_id
  unfolding find
  initial-IsCounted =
      rw (i.alone, i.silent)
        (record {
          own = λ id c f. absurd cc;
          every = λ id. (0, refl);
          known = λ id c f. absurd cc;
          unknown = λ id l. refl;
        })

  initial-AreNoted : AreNoted w.sessions w.shared.sessions_to_remove
  unfolding find
  initial-AreNoted = rw i.alone (record { at = λ id c f e. absurd cc })

  initial-IsSettled : IsSettled w
  initial-IsSettled = record {
    routed = no_subscriptions-AllRouted _ i.unsubscribed;
    locked = no_subscriptions-IsLocked _ i.unsubscribed;
    honest = record { at = λ up. absurd (let d = i.down in cc) };
    counted = initial-IsCounted;
    noted = initial-AreNoted;
  }

module _ ⦃ext : Externals⦄ where
  Reach-IsSettled :
      (w v : World) (r : Reach w v)
      → Along Orderly r
      → Along FewSessions r
      → IsSettled w
      → IsSettled v
  Reach-IsSettled w v r orderly few s = record {
    routed = Reach-AllRouted w v r s.routed;
    locked = Reach-IsLocked w v r s.locked;
    honest = Reach-IsHonest w v r orderly s.honest;
    counted = Reach-IsCounted w v r few s.counted;
    noted = Reach-AreNoted w v r s.noted;
  }

  -- In every state that a proxy reaches from its start, provided that the gateway's connection never
  -- comes up while the ready flag is up and that there are fewer than 2 ^ 64 sessions: each request that
  -- the server knows by an id stands among the requests of its session, but for order status requests
  -- without an id, each user that a session stands for is locked by it, the ready flag is up only if the
  -- server session is ready, the messages to each client are numbered from 1 without a gap, so are the
  -- messages to the server since its connection was lost last or else since the start, both modulo 2 ^ 64,
  -- and each zombie waits for its removal.
  pub start-IsSound :
      (settings : Settings) (config : Config) (connections : List Text) (clock : Clock)
      (w v : World)
      → start settings config connections clock ≡ ok w
      → (r : Reach w v) → Along Orderly r
      → Along FewSessions r
      → IsSound r
  start-IsSound settings config connections clock w v started r orderly few =
      let i = (start-IsInitial settings config connections clock w started).1 in
      record {
        settled = Reach-IsSettled w v r orderly few (initial-IsSettled config w i);
        unnumbered = i.unnumbered;
        silent = i.silent;
        numbered = Reach-IsNumbered w v r;
      }
