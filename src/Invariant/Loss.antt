-- ===== src/Invariant/Loss.antt =====
-- The server is lost: what the controller's handler of server::Session::Disconnected leaves.
use roq_fix_proxy.Prelude.{ℕ, ◌≡◌, refl, ◌∙◌, ap, false, some, nat_eq}
use roq_fix_proxy.Prelude.Map.{Map, find, find-assign}
use roq_fix_proxy.Prelude.Effect.{ok, ◌>>◌}
use roq_fix_proxy.Externals.{Externals}
use roq_fix_proxy.World.{World, ClientState, ClientSession}
use roq_fix_proxy.Client.Connection.{force_disconnect}
use roq_fix_proxy.Server.Inbound.{set_ready, server_disconnected}
use roq_fix_proxy.Invariant.Each.{Settled, same_session, for_each-Settled}
use roq_fix_proxy.Invariant.Dropping.{Down-LetsDrop, made, force_live, force_dead, closing}

abbrev Down : World → Type 0
Down w = w.ready ≡ false

abbrev Dies : ClientSession → ClientSession → Type 0
Dies c d = d.state ≡ ClientState.zombie

module _ ⦃ext : Externals⦄ (i : ℕ) (w : World) (c : ClientSession)
    (there : find i w.sessions ≡ some c) (down : Down w) where
  live-Settled : (c.state ≡ ClientState.zombie → ⊥) → Settled Down Dies c i w (force_disconnect i w)
  live-Settled live = rw (force_live i c w live there) (
      let x = made Down Down-LetsDrop i c c.state (closing i c w) live there down in
      (
        x.0,
        x.1,
        (
          record c { state = ClientState.zombie },
          (λ id. ap (find id) x.2 ∙ find-assign i id _ w.sessions),
          refl,
        ),
      ))

  from-Settled : (t : ClientState) → c.state ≡ t → Settled Down Dies c i w (force_disconnect i w)
  from-Settled ClientState.zombie e =
      rw (force_dead i c w e there) (refl, down, (c, same_session i c w there, e))
  from-Settled ClientState.waiting_logon e = live-Settled (λ z. absurd cc)
  from-Settled ClientState.waiting_create_route e = live-Settled (λ z. absurd cc)
  from-Settled ClientState.ready e = live-Settled (λ z. absurd cc)
  from-Settled ClientState.waiting_remove_route e = live-Settled (λ z. absurd cc)

-- Every session in the store is a zombie.
pub record AllZombies (sessions : Map ℕ ClientSession) : Type 0 where
  pub at : (id : ℕ) (c : ClientSession) → find id sessions ≡ some c → c.state ≡ ClientState.zombie

module _ ⦃ext : Externals⦄ where
  -- Once the connection to the server is lost, the controller's handler returns, the ready flag is down,
  -- and every session that is in the store is a zombie.
  pub server_disconnected-AllZombies :
      (w : World)
      → ((server_disconnected w).0 ≡ ok tt)
        × ((server_disconnected w).1.ready ≡ false)
        × AllZombies (server_disconnected w).1.sessions
  unfolding server_disconnected set_ready ◌>>◌
  server_disconnected-AllZombies w =
      let x =
        for_each-Settled Down Dies force_disconnect
          (λ i c v there down. from-Settled i v c there down c.state refl) (λ b c d p q. q)
          (record w { ready = false }) refl in
      (x.0, x.1, record { at = λ id d f. (x.2 id d f).2 })
