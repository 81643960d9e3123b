-- ===== src/Startup/Initial.antt =====
-- What the state is like in which the proxy starts.
use roq_fix_proxy.Prelude.{
  ℕ, ◌≡◌, refl, ◌∙◌, false, Option, none, some, List, [], ◌∷◌, ◌==◌, if◌then◌else◌, arith,
}
use roq_fix_proxy.Prelude.Text.{Text, text_eq, text_beq_iff}
use roq_fix_proxy.Prelude.Map.{Map, find, find-try_emplace}
use roq_fix_proxy.Prelude.Effect.{Result, ok, err}
use roq_fix_proxy.Crypto.{Method}
use roq_fix_proxy.Config.{Config, User}
use roq_fix_proxy.Shared.{Settings}
use roq_fix_proxy.World.{World, Clock}
use roq_fix_proxy.Startup.{add_users, start_with, start_server, start, no_subscriptions}

-- The password and the strategy of the first user of that name.
abbrev pub configured : Text → Map Text User → Option (Text × ℕ)
configured name [] = none
configured name ((key, u) ∷ us) =
    if u.username == name then some (u.password, u.strategy_id) else configured name us

abbrev first_of : Option (Text × ℕ) → Option (Text × ℕ) → Option (Text × ℕ)
first_of none b = b
first_of (some a) b = some a

find-add_users :
    (name : Text) (us : Map Text User) (acc : Map Text (Text × ℕ))
    → find name (add_users us acc) ≡ first_of (find name acc) (configured name us)
unfolding add_users
find-add_users name [] acc = ground arith
find-add_users name ((key, u) ∷ us) acc =
    find-add_users name us _
    ∙ ground (
      arith,
      find-try_emplace u.username name (u.password, u.strategy_id) acc,
      text_beq_iff u.username name,
    )

-- A proxy that has started.
pub record IsInitial (config : Config) (w : World) : Type 0 where
  pub known :
      (name : Text)
      → find name w.shared.username_to_password_and_strategy_id ≡ configured name config.users
  pub nobody : w.shared.username_to_session ≡ []
  pub nowhere : w.shared.session_to_username ≡ []
  pub alone : w.sessions ≡ []
  pub down : w.ready ≡ false
  pub unsubscribed : w.subscriptions ≡ no_subscriptions
  pub silent : w.out ≡ []
  pub unnumbered : w.server.outbound_msg_seq_num ≡ 0

start_with-IsInitial :
    (settings : Settings) (config : Config) (clock : Clock) (r : Result Method) (w : World)
    → start_with settings config clock r ≡ ok w
    → IsInitial config w
unfolding start_with find
start_with-IsInitial settings config clock (err e) w h = absurd cc
start_with-IsInitial settings config clock (ok method) w h = record {
  known = λ name. rw (← known) (find-add_users name config.users []);
  nobody = cc;
  nowhere = cc;
  alone = cc;
  down = cc;
  unsubscribed = cc;
  silent = cc;
  unnumbered = cc;
}
  where
    known : add_users config.users [] ≡ w.shared.username_to_password_and_strategy_id
    known = cc

start_server-lem :
    (connections : List Text) (r : Result World) (w : World)
    → start_server connections r ≡ ok w
    → ((uri : Text) × (connections ≡ uri ∷ [])) × (r ≡ ok w)
unfolding start_server
start_server-lem [] r w h = absurd cc
start_server-lem (uri ∷ []) r w h = ((uri, refl), h)
start_server-lem (uri ∷ other ∷ rest) r w h = absurd cc

-- A proxy that starts has exactly one connection to a gateway to make, knows each name by the first
-- configured user who bears it and no other names, and has no session, no user logged on, no request
-- under way, nothing sent, 0 as the last number of a message to the server, and its ready flag down.
pub start-IsInitial :
    (settings : Settings) (config : Config) (connections : List Text) (clock : Clock) (w : World)
    → start settings config connections clock ≡ ok w
    → ((uri : Text) × (connections ≡ uri ∷ [])) × IsInitial config w
unfolding start
start-IsInitial settings config connections clock w h =
    let (one, started) = start_server-lem connections _ w h in
    (one, start_with-IsInitial settings config clock _ w started)
