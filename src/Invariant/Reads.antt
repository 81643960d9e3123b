-- ===== src/Invariant/Reads.antt =====
-- The events of a client session keep every invariant.
use roq_fix_proxy.Prelude.{ℕ, List, [], ◌∷◌, nat_eq, ltb, refl}
use roq_fix_proxy.Prelude.Text.{codes}
use roq_fix_proxy.Prelude.Effect.{Keeps, Keeps-skip, Keeps-bind, Keeps-then, Keeps-if, Keeps-gets}
use roq_fix_proxy.Externals.{Externals}
use roq_fix_proxy.Message.Response.{Admin}
use roq_fix_proxy.World.{World, ClientState, ClientSession, Header}
use roq_fix_proxy.World.Access.{try_catch}
use roq_fix_proxy.Client.Connection.{close}
use roq_fix_proxy.Client.Inbound.{ClientMessage}
use roq_fix_proxy.Client.Read.{
  is_zombie, check, read_messages, read_from, on_read, on_disconnected, timed_out, probe, ping,
  timer_from, on_timer,
}
use roq_fix_proxy.Invariant.{IsStable}
use roq_fix_proxy.Invariant.Sessions.{Keeps-session_at, Keeps-modify_session}
use roq_fix_proxy.Invariant.Connection.{
  Keeps-send_admin, Keeps-send_and_close, Keeps-make_zombie, Keeps-close, Keeps-try_catch,
}
use roq_fix_proxy.Invariant.Clients.{Keeps-parse}

module _ (Q : World → Type 0) (q : IsStable Q) ⦃ext : Externals⦄ where
  Keeps-check : (id : ℕ) (h : Header) → Keeps Q (check id h)
  unfolding check
  Keeps-check id h = Keeps-modify_session Q q id _ (λ c. refl) (λ c. refl)

  Keeps-read_messages :
      (id : ℕ) (ms : List (Header × ClientMessage)) → Keeps Q (read_messages id ms)
  unfolding read_messages
  Keeps-read_messages id [] = Keeps-skip
  Keeps-read_messages id ((h, m) ∷ rest) = Keeps-then (Keeps-check id h) (
      Keeps-then (Keeps-parse Q q id h m) (
        Keeps-bind (Keeps-session_at Q id)
          (λ c. Keeps-if (is_zombie c.state) Keeps-skip (Keeps-read_messages id rest))))

  Keeps-open :
      (id : ℕ) (ms : List (Header × ClientMessage))
      → Keeps Q (try_catch (read_messages id ms) (close id))
  Keeps-open id ms = Keeps-try_catch Q q (Keeps-read_messages id ms) (Keeps-close Q q id)

  Keeps-read_from :
      (s : ClientState) (id : ℕ) (ms : List (Header × ClientMessage)) → Keeps Q (read_from s id ms)
  unfolding read_from
  Keeps-read_from ClientState.zombie id ms = Keeps-skip
  Keeps-read_from ClientState.waiting_logon id ms = Keeps-open id ms
  Keeps-read_from ClientState.waiting_create_route id ms = Keeps-open id ms
  Keeps-read_from ClientState.ready id ms = Keeps-open id ms
  Keeps-read_from ClientState.waiting_remove_route id ms = Keeps-open id ms

  pub Keeps-on_read : (id : ℕ) (ms : List (Header × ClientMessage)) → Keeps Q (on_read id ms)
  unfolding on_read
  Keeps-on_read id ms = Keeps-bind (Keeps-session_at Q id) (λ c. Keeps-read_from c.state id ms)

  pub Keeps-on_disconnected : (id : ℕ) → Keeps Q (on_disconnected id)
  unfolding on_disconnected
  Keeps-on_disconnected id = Keeps-make_zombie Q q id

  Keeps-timed_out : (id now : ℕ) (c : ClientSession) → Keeps Q (timed_out id now c)
  unfolding timed_out
  Keeps-timed_out id now c =
      Keeps-if (ltb c.user_response_timeout now)
        (Keeps-send_and_close Q q id (Admin.logout (codes "USER_RESPONSE_TIMEOUT"))) Keeps-skip

  Keeps-probe : (id now : ℕ) (c : ClientSession) → Keeps Q (probe id now c)
  unfolding probe
  Keeps-probe id now c =
      Keeps-if c.waiting_for_heartbeat
        (Keeps-send_and_close Q q id (Admin.logout (codes "MISSING HEARTBEAT")))
        (Keeps-then (Keeps-send_admin Q q id (Admin.test_request (ext.format_nanoseconds now)))
          (Keeps-modify_session Q q id _ (λ c. refl) (λ c. refl)))

  Keeps-ping : (id now : ℕ) (c : ClientSession) → Keeps Q (ping id now c)
  unfolding ping
  Keeps-ping id now c =
      Keeps-if (ltb c.next_heartbeat now)
        (Keeps-bind (Keeps-gets _) (λ freq.
          Keeps-then (Keeps-modify_session Q q id _ (λ c. refl) (λ c. refl))
            (Keeps-probe id now c)))
        Keeps-skip

  Keeps-timer_from :
      (s : ClientState) (id now : ℕ) (c : ClientSession) → Keeps Q (timer_from s id now c)
  unfolding timer_from
  Keeps-timer_from ClientState.waiting_logon id now c =
      Keeps-if (ltb c.logon_timeout now) (Keeps-close Q q id) Keeps-skip
  Keeps-timer_from ClientState.waiting_create_route id now c = Keeps-timed_out id now c
  Keeps-timer_from ClientState.ready id now c = Keeps-ping id now c
  Keeps-timer_from ClientState.waiting_remove_route id now c = Keeps-timed_out id now c
  Keeps-timer_from ClientState.zombie id now c = Keeps-skip

  pub Keeps-on_timer : (now id : ℕ) → Keeps Q (on_timer now id)
  unfolding on_timer
  Keeps-on_timer now id =
      Keeps-bind (Keeps-session_at Q id) (λ c. Keeps-timer_from c.state id now c)
