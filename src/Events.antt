-- ===== src/Events.antt =====
-- The event loop: one event after the other, each handled to its end (controller.cpp, the handlers
-- of io and of auth::Session, and the order of `dispatch`).
use roq_fix_proxy.Prelude.{ℕ, ◌≡◌, List}
use roq_fix_proxy.Prelude.Text.{Text}
use roq_fix_proxy.Prelude.Effect.{ok, ◌>>◌}
use roq_fix_proxy.Externals.{Externals}
use roq_fix_proxy.World.{World, Clock, Header}
use roq_fix_proxy.World.Access.{Method}
use roq_fix_proxy.Server
use roq_fix_proxy.Server.Inbound.{ServerMessage}
use roq_fix_proxy.Client
use roq_fix_proxy.Client.Inbound.{ClientMessage}
use roq_fix_proxy.Manager
use roq_fix_proxy.Auth.Session as Auth

pub data Event : Type 0 where
  -- of a client's connection
  connection : Event
  client_read : ℕ → List (Header × ClientMessage) → Event
  client_disconnected : ℕ → Event
  -- of the server's connection
  server_connected server_disconnected : Event
  server_read : List (Header × ServerMessage) → Event
  -- of the authentication service
  auth_ready : Event
  auth_text : Text → Event
  timer : ℕ → Event

module _ ⦃ext : Externals⦄ where
  unfoldable pub on_timer : ℕ → Method
  unfolding Server.Inbound.on_timer Manager.on_timer
  on_timer now = do Server.Inbound.on_timer now; Manager.on_timer now

  unfoldable pub handle : Event → Method
  handle Event.connection = Manager.on_connection
  handle (Event.client_read id messages) = Client.Read.on_read id messages
  handle (Event.client_disconnected id) = Client.Read.on_disconnected id
  handle Event.server_connected = Server.Inbound.on_connected
  handle Event.server_disconnected = Server.Inbound.on_disconnected
  handle (Event.server_read messages) = Server.Inbound.on_read messages
  handle Event.auth_ready = Auth.on_ready
  handle (Event.auth_text payload) = Auth.on_text payload
  handle (Event.timer now) = on_timer now

  -- One turn of the event loop, with what the clocks read.
  unfoldable pub turn : Clock → Event → Method
  unfolding handle
  turn clock e w = handle e (record w { clock = clock })

  -- A history: turns that ended without an error. An error ends the process.
  pub data Reach (w : World) : World → Type 0 where
    here : Reach w w
    next :
        {u v : World} (clock : Clock) (e : Event)
        → Reach w u
        → turn clock e u ≡ (ok tt, v)
        → Reach w v
