-- ===== src/Invariant.antt =====
-- Invariants of the event loop. An invariant has to be stable under the few ways in which the code
-- changes the state (IsStable); the modules below then carry it through every handler. One that
-- speaks of the subscriptions only is stable where it is closed under the changes of these (IsClosed).
pub mod Closure
pub mod Sight
pub mod Honest
pub mod Numbers
pub mod Counts
pub mod Noted
pub mod Gone
pub mod Sweep
pub mod Overdue
pub mod Sessions
pub mod Alive
pub mod Clearing
pub mod Forgetting
pub mod Connection
pub mod Relays
pub mod Reports
pub mod Requests
pub mod Queries
pub mod Orders
pub mod Logons
pub mod Clients
pub mod Reads
pub mod Loop
pub mod Routing
pub mod Locks
pub mod Returning
pub mod Dropping
pub mod Loss
pub mod Each
pub mod Timer
use roq_fix_proxy.Prelude.{ℕ, ◌≡◌, ◌⊎◌, Bool, true, false, Option, none, some, [], ◌∷◌, nat_eq}
use roq_fix_proxy.Prelude.Text.{Text, text_eq}
use roq_fix_proxy.Prelude.Map.{Map, find, erase, assign}
use roq_fix_proxy.Prelude.Effect.{Keeps}
use roq_fix_proxy.Externals.{Externals}
use roq_fix_proxy.Mapping.{
  Mapping, Route, find_client, open_client, add_req_id, remove_req_id, emplace_server,
  set_keep_alive, erase_server, close_client, entries,
}
use roq_fix_proxy.Message.Enums.{MsgType, OrdStatus}
use roq_fix_proxy.Shared.{Shared}
use roq_fix_proxy.World.{
  World, Subscriptions, Users, ServerState, ServerSession, ClientSession, ClientState, Clock, Body,
  Output,
}
use roq_fix_proxy.World.Mappings.{MappingName, get, put, pos, ord_status}
use roq_fix_proxy.World.Access.{Method, emit}
use roq_fix_proxy.Server.Send.{send_helper}
use roq_fix_proxy.Server.Inbound.{on_logon}
use roq_fix_proxy.Client.Connection.{send, become_zombie}
use roq_fix_proxy.Manager.{remove_zombies}
use roq_fix_proxy.Manager.Removal.{listed}
use roq_fix_proxy.Controller.Disconnect.{clear_req_ids, forget_user, await_response}
use roq_fix_proxy.Controller.Responses.{answered}
use roq_fix_proxy.Controller.Requests.{register}

abbrev pub Predicate : Type 1
Predicate = Subscriptions → Type 0

abbrev pub Holds : Predicate → World → Type 0
Holds Q w = Q w.subscriptions

-- A callback that leaves alone what the invariant speaks of.
pub record IsQuiet (m : Method) : Type 0 where
  pub subscriptions : (w : World) → (m w).1.subscriptions ≡ w.subscriptions

abbrev pub with_user : Users → Subscriptions → Subscriptions
with_user u s = record s { user = u }

pub record IsClosed (Q : Predicate) : Type 0 where
  pub opened :
      (n : MappingName) (id : ℕ) (s : Subscriptions) → Q s → Q (put n (open_client id (get n s)) s)
  pub added :
      (n : MappingName) (c r : Text) (id : ℕ) (k : Bool) (s : Subscriptions)
      → find_client id c (get n s) ≡ none
      → Q s
      → Q (put n (add_req_id c r id k (get n s)) s)
  pub unnamed :
      (r : Text) (id : ℕ) (s : Subscriptions)
      → Q s
      → Q (
          put ord_status
            (emplace_server r
              (record { session_id = id; req_id = []; keep_alive = false })
              (get ord_status s))
            s)
  pub removed :
      (n : MappingName) (r : Text) (s : Subscriptions)
      → Q s
      → Q (put n (remove_req_id r (get n s)).1 s)
  pub relaxed :
      (r : Text) (k : Bool) (m : Mapping) (s : Subscriptions)
      → set_keep_alive r k (get pos s) ≡ some m
      → Q s
      → Q (put pos m s)
  pub cleared :
      (n : MappingName) (id : ℕ) (callback : Text → Method)
      → ((r : Text) → IsQuiet (callback r))
      → Keeps (Holds Q) (clear_req_ids n id callback)
  pub user_added :
      (name : Text) (id : ℕ) (s : Subscriptions)
      → find name s.user.client_to_session ≡ none
      → find id s.user.session_to_client ≡ none
      → Q s
      → Q (
          with_user
            (record s.user {
              client_to_session = (name, id) ∷ s.user.client_to_session;
              session_to_client = (id, name) ∷ s.user.session_to_client;
            })
            s)
  -- user_add ends the process half way where the session has a user already.
  pub half_added :
      (name : Text) (id : ℕ) (s : Subscriptions)
      → find name s.user.client_to_session ≡ none
      → Q s
      → Q (
          with_user (record s.user { client_to_session = (name, id) ∷ s.user.client_to_session }) s)
  pub user_removed :
      (name : Text) (id : ℕ) (s : Subscriptions)
      → (find name s.user.client_to_session ≡ some id)
        ⊎ (find id s.user.session_to_client ≡ some name)
      → Q s
      → Q (with_user (forget_user id name s.user) s)
  pub user_awaits :
      (r : Text) (id : ℕ) (s : Subscriptions) → Q s → Q (with_user (await_response r id s.user) s)
  pub user_registers :
      (r : Text) (id : ℕ) (s : Subscriptions) → Q s → Q (with_user (register r id s.user) s)
  pub user_answers :
      (r : Text) (id : ℕ) (s : Subscriptions) → Q s → Q (with_user (answered r id s.user) s)

-- The world with another mapping under a name.
abbrev pub with_mapping : MappingName → (Mapping → Mapping) → World → World
with_mapping n f w = record w { subscriptions = put n (f (get n w.subscriptions)) w.subscriptions }

abbrev pub with_users : (Users → Users) → World → World
with_users f w = record w { subscriptions = with_user (f w.subscriptions.user) w.subscriptions }

-- What the handlers of the messages, of the timer and of a lost connection do to the state.
pub record IsStable (P : World → Type 0) : Type 0 where
  pub opened : (n : MappingName) (id : ℕ) (w : World) → P w → P (with_mapping n (open_client id) w)
  pub added :
      (n : MappingName) (c r : Text) (id : ℕ) (k : Bool) (w : World)
      → find_client id c (get n w.subscriptions) ≡ none
      → P w
      → P (with_mapping n (add_req_id c r id k) w)
  pub unnamed :
      (r : Text) (id : ℕ) (w : World)
      → P w
      → P (
          with_mapping ord_status
            (emplace_server r (record { session_id = id; req_id = []; keep_alive = false }))
            w)
  pub removed :
      (n : MappingName) (r : Text) (w : World)
      → P w
      → P (with_mapping n (λ m. (remove_req_id r m).1) w)
  pub relaxed :
      (r : Text) (k : Bool) (m : Mapping) (w : World)
      → set_keep_alive r k (get pos w.subscriptions) ≡ some m
      → P w
      → P (with_mapping pos (λ before. m) w)
  pub cleared :
      (n : MappingName) (id : ℕ) (callback : Text → Method)
      → ((r : Text) → IsQuiet (callback r))
      → ((r : Text) → Keeps P (callback r))
      → Keeps P (clear_req_ids n id callback)
  pub user_added :
      (name : Text) (id : ℕ) (w : World)
      → find name w.subscriptions.user.client_to_session ≡ none
      → find id w.subscriptions.user.session_to_client ≡ none
      → P w
      → P (
          with_users
            (λ u. record u {
              client_to_session = (name, id) ∷ u.client_to_session;
              session_to_client = (id, name) ∷ u.session_to_client;
            })
            w)
  pub half_added :
      (name : Text) (id : ℕ) (w : World)
      → find name w.subscriptions.user.client_to_session ≡ none
      → P w
      → P (with_users (λ u. record u { client_to_session = (name, id) ∷ u.client_to_session }) w)
  pub user_removed :
      (name : Text) (id : ℕ) (w : World)
      → (find name w.subscriptions.user.client_to_session ≡ some id)
        ⊎ (find id w.subscriptions.user.session_to_client ≡ some name)
      → P w
      → P (with_users (forget_user id name) w)
  pub user_awaits : (r : Text) (id : ℕ) (w : World) → P w → P (with_users (await_response r id) w)
  pub user_registers : (r : Text) (id : ℕ) (w : World) → P w → P (with_users (register r id) w)
  pub user_answers : (r : Text) (id : ℕ) (w : World) → P w → P (with_users (answered r id) w)
  pub sent_to_server : (t : MsgType) (b : Body) → Keeps P (send_helper t b)
  pub sent_to_client : (id : ℕ) (t : MsgType) (b : Body) → Keeps P (send id t b)
  pub zombie_made : (id : ℕ) → Keeps P (become_zombie id)
  pub client_closed : (id : ℕ) → Keeps P (emit (Output.close_client id))
  pub session_changed :
      (id : ℕ) (c d : ClientSession) (w : World)
      → find id w.sessions ≡ some c
      → d.outbound_msg_seq_num ≡ c.outbound_msg_seq_num
      → (d.state ≡ ClientState.zombie → c.state ≡ ClientState.zombie)
      → (c.state ≡ ClientState.zombie → d.state ≡ ClientState.zombie)
      → P w
      → P (record w { sessions = assign id d w.sessions })
  pub shared_changed :
      (s : Shared) (w : World)
      → s.next_session_id ≡ w.shared.next_session_id
      → ((id : ℕ)
          → listed id w.shared.sessions_to_remove ≡ true
          → listed id s.sessions_to_remove ≡ true)
      → P w
      → P (record w { shared = s })
  pub orders_changed : (m : Map Text OrdStatus) (w : World) → P w → P (record w { cl_ord_id = m })
  pub total_changed : (n : ℕ) (w : World) → P w → P (record w { total_num_pos_reports = n })

-- What the events do besides. That a connection comes up, and that the server's is lost, is left to each
-- invariant.
pub record IsLasting (P : World → Type 0) : Type 0 where
  pub stable : IsStable P
  pub server_changed :
      (s : ServerSession) (w : World)
      → s.state ≡ w.server.state
      → s.outbound_msg_seq_num ≡ w.server.outbound_msg_seq_num
      → P w
      → P (record w { server = s })
  pub logged_on : Keeps P on_logon
  pub flag_lowered : (w : World) → P w → P (record w { ready = false })
  pub clock_changed : (c : Clock) (w : World) → P w → P (record w { clock = c })
  pub sent_to_auth : (t : Text) → Keeps P (emit (Output.to_auth t))
  pub collected : (now : ℕ) → Keeps P (remove_zombies now)
