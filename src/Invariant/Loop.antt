-- ===== src/Invariant/Loop.antt =====
-- The events of the server's connection, the client manager and the event loop keep every invariant.
use roq_fix_proxy.Prelude.{ℕ, List, [], ◌∷◌, nat_eq, leb, subst}
use roq_fix_proxy.Prelude.Effect.{
  Result, malformed, Keeps, Keeps-skip, Keeps-bind, Keeps-then, Keeps-if, Keeps-gets, Keeps-throw,
  Keeps-for_each,
}
use roq_fix_proxy.Externals.{Externals}
use roq_fix_proxy.Message.Response.{Response, Admin}
use roq_fix_proxy.World.{World, ServerState, ServerSession, Header, Clock}
use roq_fix_proxy.Server.Send.{send_admin, send_heartbeat, send_test_request}
use roq_fix_proxy.Server.Inbound
use roq_fix_proxy.Server.Inbound.{
  ServerMessage, modify_server, set_ready, on_connected, on_logon, server_disconnected,
  on_disconnected, handle_response, heartbeat_due, timer_from, session_ids,
}
use roq_fix_proxy.Manager
use roq_fix_proxy.Manager.{on_connection, remove_zombies}
use roq_fix_proxy.Events
use roq_fix_proxy.Events.{Event, handle, turn, Reach, here, next}
use roq_fix_proxy.Invariant.{IsLasting}
use roq_fix_proxy.Invariant.Loss.{server_disconnected-AllZombies}
use roq_fix_proxy.Auth.Json.{Json}
use roq_fix_proxy.Auth.Session.{
  lift, string_at, apply_entry, handle_entry, on_json, on_text, on_insert, on_remove, on_ready,
  values,
}
use roq_fix_proxy.Shared.{add_user, remove_user}
use roq_fix_proxy.Prelude.Text.{Text, text_eq, codes}
use roq_fix_proxy.Prelude.Effect.{ok, err, resume, ◌>>◌}
use roq_fix_proxy.Prelude.{◌≡◌, refl, ◌==◌, false, Option, none, some}
use roq_fix_proxy.Invariant.Sessions.{Keeps-modify_shared}
use roq_fix_proxy.Invariant.Connection.{Keeps-force_disconnect}
use roq_fix_proxy.Invariant.Relays.{
  Keeps-on_business_message_reject, Keeps-on_security_list, Keeps-on_security_definition,
  Keeps-on_security_status, Keeps-on_market_data_request_reject,
  Keeps-on_market_data_snapshot_full_refresh, Keeps-on_market_data_incremental_refresh,
  Keeps-on_trade_capture_report_request_ack, Keeps-on_trade_capture_report,
}
use roq_fix_proxy.Invariant.Reports.{
  Keeps-on_user_response, Keeps-on_order_cancel_reject, Keeps-on_order_mass_cancel_report,
  Keeps-on_execution_report, Keeps-on_request_for_positions_ack, Keeps-on_position_report,
}
use roq_fix_proxy.Invariant.Reads.{Keeps-on_read, Keeps-on_disconnected, Keeps-on_timer}

-- What each event may take for granted.
abbrev pub Granted : Type 1
Granted = Event → World → Type 0

-- Nothing.
abbrev pub Anyhow : Granted
Anyhow e w = Unit {0}

-- The server session without a connection.
abbrev pub new_server : ServerSession
new_server = record {
  state = ServerState.disconnected;
  inbound_msg_seq_num = 0;
  outbound_msg_seq_num = 0;
  next_heartbeat = 0;
}

-- An invariant of the event loop: it outlasts what the code does, and a new or a lost connection, on what
-- the event takes for granted.
pub record IsInvariant (A : Granted) (Q : World → Type 0) : Type 0 where
  pub lasting : IsLasting Q
  pub connection :
      (c : Clock) (w : World)
      → A Event.connection w
      → Q (record w { clock = c })
      → Q (on_connection (record w { clock = c })).1
  pub connected :
      (c : Clock) (w : World)
      → A Event.server_connected w
      → Q (record w { clock = c })
      → Q (on_connected (record w { clock = c })).1
  pub server_reset :
      (u : World)
      → A Event.server_disconnected u
      → (w : World) → w.ready ≡ false
      → Q w
      → Q (record w { server = new_server })

module _ (Q : World → Type 0) (l : IsLasting Q) where
  Keeps-send_admin : (a : Admin) → Keeps Q (send_admin a)
  unfolding send_admin
  Keeps-send_admin a = l.stable.sent_to_server _ _

  Keeps-modify_server :
      (f : ServerSession → ServerSession)
      → ((s : ServerSession) → (f s).state ≡ s.state)
      → ((s : ServerSession) → (f s).outbound_msg_seq_num ≡ s.outbound_msg_seq_num)
      → Keeps Q (modify_server f)
  unfolding modify_server
  Keeps-modify_server f a b = record { at = λ w h. l.server_changed _ w (a _) (b _) h }

module _ (Q : World → Type 0) (l : IsLasting Q) ⦃ext : Externals⦄ where
  Keeps-server_disconnected : Keeps Q server_disconnected
  unfolding server_disconnected set_ready
  Keeps-server_disconnected =
      Keeps-then (record { at = l.flag_lowered })
        (Keeps-bind (Keeps-gets _) (λ ids. Keeps-for_each ids (Keeps-force_disconnect Q l.stable)))

  resets :
      (r : Result (Unit {0})) (v : World) (f : ServerSession → ServerSession)
      → r ≡ ok tt
      → Q (record v { server = f v.server })
      → Q (resume r (λ _. modify_server f) v).1
  unfolding modify_server
  resets (ok tt) v f e h = h
  resets (err x) v f e h = absurd cc

  Keeps-server_on_disconnected :
      ((w : World) → w.ready ≡ false → Q w → Q (record w { server = new_server }))
      → Keeps Q on_disconnected
  unfolding on_disconnected ◌>>◌
  Keeps-server_on_disconnected reset = record {
    at = λ w h.
        let x = server_disconnected-AllZombies w in
        resets _ _ _ x.0 (reset _ x.1 (Keeps-server_disconnected.at w h));
  }

  Keeps-handle_admin : (a : Admin) → Keeps Q (Inbound.handle_admin a)
  unfolding Inbound.handle_admin send_heartbeat
  Keeps-handle_admin (Admin.reject e) = Keeps-skip
  Keeps-handle_admin Admin.resend_request = Keeps-skip
  Keeps-handle_admin (Admin.logon e) = l.logged_on
  Keeps-handle_admin (Admin.logout t) = Keeps-skip
  Keeps-handle_admin (Admin.heartbeat t) = Keeps-skip
  Keeps-handle_admin (Admin.test_request t) = Keeps-send_admin Q l (Admin.heartbeat t)

  Keeps-handle_response : (r : Response) → Keeps Q (handle_response r)
  unfolding handle_response
  Keeps-handle_response (Response.business_message_reject e) =
      Keeps-on_business_message_reject Q l.stable e
  Keeps-handle_response (Response.user_response e) = Keeps-on_user_response Q l.stable e
  Keeps-handle_response (Response.security_list e) = Keeps-on_security_list Q l.stable e
  Keeps-handle_response (Response.security_definition e) = Keeps-on_security_definition Q l.stable e
  Keeps-handle_response (Response.security_status e) = Keeps-on_security_status Q l.stable e
  Keeps-handle_response (Response.market_data_request_reject e) =
      Keeps-on_market_data_request_reject Q l.stable e
  Keeps-handle_response (Response.market_data_snapshot_full_refresh e) =
      Keeps-on_market_data_snapshot_full_refresh Q l.stable e
  Keeps-handle_response (Response.market_data_incremental_refresh e) =
      Keeps-on_market_data_incremental_refresh Q l.stable e
  Keeps-handle_response (Response.order_cancel_reject e) = Keeps-on_order_cancel_reject Q l.stable e
  Keeps-handle_response (Response.order_mass_cancel_report e) =
      Keeps-on_order_mass_cancel_report Q l.stable e
  Keeps-handle_response (Response.execution_report e) = Keeps-on_execution_report Q l.stable e
  Keeps-handle_response (Response.request_for_positions_ack e) =
      Keeps-on_request_for_positions_ack Q l.stable e
  Keeps-handle_response (Response.position_report e) = Keeps-on_position_report Q l.stable e
  Keeps-handle_response (Response.trade_capture_report_request_ack e) =
      Keeps-on_trade_capture_report_request_ack Q l.stable e
  Keeps-handle_response (Response.trade_capture_report e) =
      Keeps-on_trade_capture_report Q l.stable e

  Keeps-parse : (m : ServerMessage) → Keeps Q (Inbound.parse m)
  unfolding Inbound.parse
  Keeps-parse (ServerMessage.admin a) = Keeps-handle_admin a
  Keeps-parse (ServerMessage.response r) = Keeps-handle_response r
  Keeps-parse ServerMessage.unexpected = Keeps-skip
  Keeps-parse ServerMessage.undecodable = Keeps-throw malformed

  Keeps-server_on_read : (ms : List (Header × ServerMessage)) → Keeps Q (Inbound.on_read ms)
  unfolding Inbound.on_read Inbound.check
  Keeps-server_on_read [] = Keeps-skip
  Keeps-server_on_read ((h, m) ∷ rest) =
      Keeps-then (Keeps-modify_server Q l _ (λ s. refl) (λ s. refl))
        (Keeps-then (Keeps-parse m) (Keeps-server_on_read rest))

  Keeps-heartbeat_due : (now : ℕ) (s : ServerSession) → Keeps Q (heartbeat_due now s)
  unfolding heartbeat_due send_test_request
  Keeps-heartbeat_due now s =
      Keeps-if (leb s.next_heartbeat now)
        (Keeps-bind (Keeps-gets _) (λ freq.
          Keeps-then (Keeps-modify_server Q l _ (λ s. refl) (λ s. refl))
            (Keeps-send_admin Q l (Admin.test_request (ext.format now)))))
        Keeps-skip

  Keeps-timer_from : (t : ServerState) (now : ℕ) (s : ServerSession) → Keeps Q (timer_from t now s)
  unfolding timer_from
  Keeps-timer_from ServerState.ready now s = Keeps-heartbeat_due now s
  Keeps-timer_from ServerState.logon_sent now s = Keeps-skip
  Keeps-timer_from ServerState.disconnected now s = Keeps-skip

  Keeps-timer : (now : ℕ) → Keeps Q (Events.on_timer now)
  unfolding Events.on_timer Inbound.on_timer Manager.on_timer
  Keeps-timer now = Keeps-then (Keeps-bind (Keeps-gets _) (λ s. Keeps-timer_from s.state now s)) (
      Keeps-bind (Keeps-gets _)
        (λ ids. Keeps-then (Keeps-for_each ids (Keeps-on_timer Q l.stable now)) (l.collected now)))

  -- The events of the authentication service.
  Keeps-lift : {B : Type 0} (r : Result B) → Keeps Q (lift r)
  unfolding lift
  Keeps-lift r = record { at = λ w h. h }

  Keeps-string_at : (k : Text) (j : Json) → Keeps Q (string_at k j)
  unfolding string_at
  Keeps-string_at k j = Keeps-lift _

  Keeps-apply_entry : (a c u : Text) (j : Json) → Keeps Q (apply_entry a c u j)
  unfolding apply_entry on_insert on_remove add_user remove_user
  Keeps-apply_entry a c u j =
      Keeps-if (a == codes "insert")
        (Keeps-bind (Keeps-string_at _ j) (λ p.
          Keeps-bind (Keeps-lift _)
            (λ i. Keeps-modify_shared Q l.stable (add_user u p i) (λ s. refl) (λ s. refl))))
        (Keeps-if (a == codes "remove")
          (Keeps-modify_shared Q l.stable (remove_user u) (λ s. refl) (λ s. refl)) Keeps-skip)

  Keeps-handle_entry : (j : Json) → Keeps Q (handle_entry j)
  unfolding handle_entry
  Keeps-handle_entry j = Keeps-bind (Keeps-string_at _ j) (λ a.
      Keeps-bind (Keeps-string_at _ j)
        (λ c. Keeps-bind (Keeps-string_at _ j) (λ u. Keeps-apply_entry a c u j)))

  Keeps-on_json : (o : Option Json) → Keeps Q (on_json o)
  unfolding on_json
  Keeps-on_json none = record { at = λ w h. h }
  Keeps-on_json (some j) = record {
    at = (Keeps-bind (Keeps-lift _) (λ r. Keeps-for_each (values r) Keeps-handle_entry)).at;
  }

  Keeps-on_text : (t : Text) → Keeps Q (on_text t)
  unfolding on_text
  Keeps-on_text t = Keeps-on_json _

module _ ⦃ext : Externals⦄ where
  -- Each event of the history finds what it takes for granted.
  abbrev pub Along : Granted → {w v : World} → Reach w v → Type 0
  Along A here = Unit {0}
  Along A (next {u} clock e r s) = Along A r × A e u

module _ (A : Granted) (Q : World → Type 0) (i : IsInvariant A Q) ⦃ext : Externals⦄ where
  pub Keeps-turn : (c : Clock) (e : Event) (w : World) → A e w → Q w → Q (turn c e w).1
  unfolding turn handle on_ready
  Keeps-turn c e w a h = handled e a (i.lasting.clock_changed c w h)
    where
      handled :
          (e : Event) → A e w → Q (record w { clock = c }) → Q (handle e (record w { clock = c })).1
      handled Event.connection a h = i.connection c w a h
      handled (Event.client_read id ms) a h = (Keeps-on_read Q i.lasting.stable id ms).at _ h
      handled (Event.client_disconnected id) a h =
          (Keeps-on_disconnected Q i.lasting.stable id).at _ h
      handled Event.server_connected a h = i.connected c w a h
      handled Event.server_disconnected a h =
          (Keeps-server_on_disconnected Q i.lasting (i.server_reset w a)).at _ h
      handled (Event.server_read ms) a h = (Keeps-server_on_read Q i.lasting ms).at _ h
      handled Event.auth_ready a h = (i.lasting.sent_to_auth _).at _ h
      handled (Event.auth_text t) a h = (Keeps-on_text Q i.lasting t).at _ h
      handled (Event.timer now) a h = (Keeps-timer Q i.lasting now).at _ h

  -- What holds at first holds ever after, where each event finds what it takes for granted.
  pub Reach-Q : (w v : World) (r : Reach w v) → Along A r → Q w → Q v
  Reach-Q w v here a h = h
  Reach-Q w v (next {u} clock e r s) a h =
      subst (λ (x : Result (Unit {0}) × World). Q x.1) s
        (Keeps-turn clock e u a.1 (Reach-Q w u r a.0 h))

module _ ⦃ext : Externals⦄ where
  pub Along-Anyhow : (w v : World) (r : Reach w v) → Along Anyhow r
  Along-Anyhow w v here = tt
  Along-Anyhow w v (next {u} clock e r s) = (Along-Anyhow w u r, tt)
