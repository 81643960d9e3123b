-- ===== src/Invariant/Logons.antt =====
-- Logging on and off keeps every invariant (client/session.cpp, the operators on Logon and Logout).
use roq_fix_proxy.Prelude.{◌≢◌, ℕ, Option, none, some, nat_eq, refl, ◌≡◌}
use roq_fix_proxy.Prelude.Text.{Text, text_eq}
use roq_fix_proxy.Prelude.Effect.{
  Result, ok, err, not_ready, malformed, fatal, dangling, Leads, Leads-bind, Leads-then, Leads-gets,
  Leads-of_Keeps, Leads-weaken, Keeps, Keeps-skip, Keeps-bind, Keeps-gets,
}
use roq_fix_proxy.Externals.{Externals}
use roq_fix_proxy.Message.Enums.{UserRequestType}
use roq_fix_proxy.Message.Response.{Logon}
use roq_fix_proxy.Shared
use roq_fix_proxy.Crypto.{validate}
use roq_fix_proxy.Prelude.Map.{find}
use roq_fix_proxy.Prelude.{Bool, arith}
use roq_fix_proxy.Shared.{after_check, Shared, LogonResult, success, failure}
use roq_fix_proxy.World.{World, ClientState, ClientSession, Header}
use roq_fix_proxy.World.Access.{Method, modify_session}
use roq_fix_proxy.Client.Logon.{
  catch_from, catch_not_ready, request_user, logon_result, session_logon, reject_logon,
  logon_outcome, authenticate, logon_from, logout_from,
}
use roq_fix_proxy.Invariant.{IsStable}
use roq_fix_proxy.Invariant.Sessions.{
  Keeps-session_at, Keeps-modify_session, Keeps-create_request_id,
}
use roq_fix_proxy.Invariant.Sessions
use roq_fix_proxy.Invariant.Alive.{
  Alive, IsLive, Keeps-both, Leads-set_state, Live-modify_session, Live-on_user_request,
  Live-create_request_id,
}
use roq_fix_proxy.Invariant.Connection.{Keeps-make_zombie, Keeps-send_reject_and_close}
use roq_fix_proxy.Invariant.Queries.{Keeps-on_user_request}

module _ (Q : World → Type 0) (q : IsStable Q) where
  caught :
      (r : Result (Unit {0})) (handler : Text → Method) (w : World)
      → ((t : Text) → Keeps Q (handler t))
      → Q w
      → Q (catch_from r handler w).1
  unfolding catch_from
  caught (ok tt) handler w k h = h
  caught (err (not_ready t)) handler w k h = (k t).at w h
  caught (err malformed) handler w k h = h
  caught (err fatal) handler w k h = h
  caught (err dangling) handler w k h = h

  Leads-catch_not_ready :
      {P : World → Type 0} {m : Method} {handler : Text → Method}
      → Leads P Q m
      → ((t : Text) → Keeps Q (handler t))
      → Leads P Q (catch_not_ready m handler)
  unfolding catch_not_ready
  Leads-catch_not_ready {m = m} {handler = handler} lm kh = record {
    at = λ w h. caught (m w).0 handler (m w).1 kh (lm.at w h);
  }

abbrev SameIds : Shared → Shared → Type 0
SameIds t s =
    (t.next_session_id ≡ s.next_session_id) × (t.sessions_to_remove ≡ s.sessions_to_remove)

module _ ⦃ext : Externals⦄ where
  after_check-SameIds :
      (id : ℕ) (u : Text) (k : ℕ) (s : Shared) (r : Result Bool) (l : LogonResult) (t : Shared)
      → after_check id u k s r ≡ ok (l, t)
      → SameIds t s
  unfolding after_check
  after_check-SameIds id u k s r l t e = (ground arith, ground arith)

  session_logon-SameIds :
      (now id : ℕ) (u p raw : Text) (s : Shared) (l : LogonResult) (t : Shared)
      → Shared.session_logon now id u p raw s ≡ ok (l, t)
      → SameIds t s
  unfolding Shared.session_logon
  session_logon-SameIds now id u p raw s l t e =
      known (find u s.username_to_password_and_strategy_id) refl
    where
      known :
          (found : Option (Text × ℕ))
          → find u s.username_to_password_and_strategy_id ≡ found
          → SameIds t s
      known none f = (ground (arith, f, e), ground (arith, f, e))
      known (some (secret, k)) f =
          after_check-SameIds id u k s (validate s.crypto now p secret raw) l t
            (rw (f, Shared.session_logon) at e)

module _ (Q : World → Type 0) (q : IsStable Q) ⦃ext : Externals⦄ where
  Leads-request_user :
      (t : UserRequestType) (s : ClientState) (id : ℕ)
      → s ≢ ClientState.zombie
      → Leads (Alive Q q id) Q (request_user t s id)
  unfolding request_user
  Leads-request_user t s id live =
      Leads-bind (Leads-of_Keeps (Sessions.Keeps-session_at (Alive Q q id) id)) (λ w h. h.0)
        (λ c.
          Leads-bind
            (Leads-of_Keeps (Keeps-both (Keeps-create_request_id Q q) (Live-create_request_id id)))
            (λ w h. h.0)
            (λ r.
              Leads-then
                (Leads-of_Keeps
                  (Keeps-both (Keeps-on_user_request Q q _ id) (Live-on_user_request id _ id)))
                (λ w h. h.0)
                (Leads-then (Leads-set_state Q q id s live) (λ w h. h)
                  (Leads-of_Keeps (
                    Keeps-bind (Keeps-gets _)
                      (λ d. Keeps-modify_session Q q id _ (λ c. refl) (λ c. refl)))))))

  logged_on :
      (r : Result (LogonResult × Shared)) (w : World)
      → ((l : LogonResult) (s : Shared) → r ≡ ok (l, s) → SameIds s w.shared)
      → Q w
      → Q (logon_result r w).1
  unfolding logon_result
  logged_on (ok (l, s)) w same h =
      let (a, b) = same l s refl in q.shared_changed s w a (λ i x. rw b x) h
  logged_on (err e) w same h = h

  Keeps-session_logon : (id : ℕ) (e : Logon) → Keeps Q (session_logon id e)
  unfolding session_logon
  Keeps-session_logon id e = record {
    at = λ w h.
        logged_on _ w
          (session_logon-SameIds w.clock.realtime id e.username e.password e.raw_data w.shared) h;
  }

  Live-session_logon : (id i : ℕ) (e : Logon) → Keeps (IsLive id) (session_logon i e)
  unfolding session_logon logon_result
  Live-session_logon id i e = record { at = λ w h. passed _ w h }
    where
      passed :
          (r : Result (LogonResult × Shared)) (w : World)
          → IsLive id w
          → IsLive id (logon_result r w).1
      passed (ok (l, s)) w h = h
      passed (err e) w h = h

  pub Keeps-reject_logon : (id : ℕ) (h : Header) (t : Text) → Keeps Q (reject_logon id h t)
  unfolding reject_logon
  Keeps-reject_logon id h t = Keeps-send_reject_and_close Q q id h _ t

  -- A change of the session that leaves its state alone.
  Leads-change :
      (id : ℕ) (f : ClientSession → ClientSession)
      → ((c : ClientSession) → (f c).outbound_msg_seq_num ≡ c.outbound_msg_seq_num)
      → ((c : ClientSession) → (f c).state ≡ c.state)
      → Leads (Alive Q q id) (Alive Q q id) (modify_session id f)
  Leads-change id f same state =
      Leads-of_Keeps
        (Keeps-both (Keeps-modify_session Q q id f same state) (Live-modify_session id id f state))

  Leads-logon_outcome :
      (r : LogonResult) (id : ℕ) (h : Header) (e : Logon)
      → Leads (Alive Q q id) Q (logon_outcome r id h e)
  unfolding logon_outcome
  Leads-logon_outcome (failure reason) id h e = Leads-weaken (Keeps-reject_logon id h reason)
  Leads-logon_outcome (success strategy_id) id h e =
      Leads-then (Leads-change id _ (λ c. refl) (λ c. refl)) (λ w k. k.0)
        (Leads-catch_not_ready Q q
          (Leads-request_user UserRequestType.log_on_user ClientState.waiting_create_route id
            (λ e. cc))
          (Keeps-reject_logon id h))

  Leads-authenticate :
      (t : Option Text) (id : ℕ) (h : Header) (e : Logon)
      → Leads (Alive Q q id) Q (authenticate t id h e)
  unfolding authenticate
  Leads-authenticate (some t) id h e = Leads-weaken (Keeps-reject_logon id h t)
  Leads-authenticate none id h e =
      Leads-bind
        (Leads-of_Keeps (Keeps-both (Keeps-session_logon id e) (Live-session_logon id id e)))
        (λ w k. k.0) (λ r. Leads-logon_outcome r id h e)

  -- A handler that was given the session's state.
  abbrev pub Given : ℕ → ClientState → World → Type 0
  Given id s w = Q w × (s ≢ ClientState.zombie → IsLive id w)

  pub Leads-logon_from :
      (s : ClientState) (id : ℕ) (h : Header) (e : Logon)
      → Leads (Given id s) Q (logon_from s id h e)
  unfolding logon_from
  Leads-logon_from ClientState.waiting_logon id h e = record {
    at = λ w k.
        (Leads-then (Leads-change id _ (λ c. refl) (λ c. refl)) (λ w k. k.0)
            (Leads-gets _ _ (λ v k. (Leads-authenticate _ id h e).at v k))).at
          w (k.0, k.1 (λ e. cc));
  }
  Leads-logon_from ClientState.waiting_remove_route id h e = Leads-weaken (Keeps-make_zombie Q q id)
  Leads-logon_from ClientState.zombie id h e = Leads-weaken Keeps-skip
  Leads-logon_from ClientState.waiting_create_route id h e =
      Leads-weaken (Keeps-reject_logon id h _)
  Leads-logon_from ClientState.ready id h e = Leads-weaken (Keeps-reject_logon id h _)

  pub Leads-logout_from :
      (s : ClientState) (id : ℕ) (h : Header) → Leads (Given id s) Q (logout_from s id h)
  unfolding logout_from
  Leads-logout_from ClientState.ready id h = record {
    at = λ w k.
        (Leads-request_user UserRequestType.log_off_user ClientState.waiting_remove_route id
            (λ e. cc)).at
          w (k.0, k.1 (λ e. cc));
  }
  Leads-logout_from ClientState.waiting_remove_route id h = Leads-weaken (Keeps-make_zombie Q q id)
  Leads-logout_from ClientState.zombie id h = Leads-weaken Keeps-skip
  Leads-logout_from ClientState.waiting_logon id h = Leads-weaken (Keeps-reject_logon id h _)
  Leads-logout_from ClientState.waiting_create_route id h = Leads-weaken (Keeps-reject_logon id h _)
