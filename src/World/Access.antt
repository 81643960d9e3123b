-- ===== src/World/Access.antt =====
-- How the methods of the source reach the state: members, references and the shared helpers, as
-- actions on the world.
use roq_fix_proxy.Prelude.{ℕ, none, some, ◌∷◌, nat_eq}
use roq_fix_proxy.Prelude.Text.{Text, text_eq}
use roq_fix_proxy.Prelude.Map.{find, assign}
use roq_fix_proxy.Prelude.Effect.{Result, ok, err, malformed, not_ready, fatal, dangling, ◌>>=◌}
use roq_fix_proxy.Externals.{Externals}
use roq_fix_proxy.Shared
use roq_fix_proxy.Shared.{Shared}
use roq_fix_proxy.Mapping.{Mapping}
use roq_fix_proxy.World.{World, ClientSession, Users, Output}
use roq_fix_proxy.World.Mappings.{MappingName, get, put}

-- A method that returns nothing.
abbrev pub Method : Type 0
Method = World → Result (Unit {0}) × World

unfoldable pub emit : Output → Method
emit o w = (ok tt, record w { out = o ∷ w.out })

-- *this of a client session
unfoldable pub session_at : ℕ → World → Result ClientSession × World
session_at id w = elim (find id w.sessions) [ none ↦ (err dangling, w) | some c ↦ (ok c, w) ]

unfoldable pub put_session : ℕ → ClientSession → Method
put_session id c w = (ok tt, record w { sessions = assign id c w.sessions })

unfoldable pub modify_session : ℕ → (ClientSession → ClientSession) → Method
unfolding session_at put_session
modify_session id f = do c ← session_at id; put_session id (f c)

unfoldable pub modify_shared : (Shared → Shared) → Method
modify_shared f w = (ok tt, record w { shared = f w.shared })

unfoldable pub modify_mapping : MappingName → (Mapping → Mapping) → Method
modify_mapping n f w =
    (ok tt, record w { subscriptions = put n (f (get n w.subscriptions)) w.subscriptions })

unfoldable pub modify_users : (Users → Users) → Method
modify_users f w =
    (ok tt, record w { subscriptions = record w.subscriptions { user = f w.subscriptions.user } })

-- try { m } catch (std::exception &) { handler }. Neither log::fatal nor a fault is caught.
abbrev pub recover : Result (Unit {0}) → Method → Method
recover (ok a) handler w = (ok a, w)
recover (err (not_ready t)) handler w = handler w
recover (err malformed) handler w = handler w
recover (err fatal) handler w = (err fatal, w)
recover (err dangling) handler w = (err dangling, w)

unfoldable pub try_catch : Method → Method → Method
try_catch m handler w = let (r, v) = m w in recover r handler v

module _ ⦃ext : Externals⦄ where
  unfoldable pub create_request_id : World → Result Text × World
  unfolding Shared.create_request_id
  create_request_id w =
      let (id, s) = Shared.create_request_id w.shared in (ok id, record w { shared = s })
