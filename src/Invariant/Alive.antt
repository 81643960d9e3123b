-- ===== src/Invariant/Alive.antt =====
-- A session that is no zombie while a handler is at work on it: what the handler read of its state is
-- true still when the state is changed.
use roq_fix_proxy.Prelude.{
  ℕ, ◌≡◌, ◌≢◌, refl, ◌∙◌, ap, sym, Option, none, some, ◌⊎◌, nat_beq, nat_beq_iff, Bool-cases, false,
  nat_eq, subst, inl, inr,
}
use mathlib.Core.Option.{some-injective}
use roq_fix_proxy.Prelude.Text.{Text, is_empty, text_eq}
use roq_fix_proxy.Prelude.Map.{Map, find, assign, find-assign}
use roq_fix_proxy.Prelude.Effect.{
  fatal, Action, ◌>>=◌, ◌>>◌, gets, throw, Keeps, Keeps-then, Keeps-bind, Keeps-gets, Keeps-if,
  Keeps-throw, Leads,
}
use roq_fix_proxy.Externals.{Externals}
use roq_fix_proxy.Message.Enums.{MsgType, UserRequestType}
use roq_fix_proxy.Message.Request.{Request, UserRequest}
use roq_fix_proxy.World.{World, ServerState, ClientState, ClientSession, Body}
use roq_fix_proxy.World.Access.{
  session_at, put_session, modify_session, modify_users, create_request_id,
}
use roq_fix_proxy.Server.Send.{dispatch_to_server, send_if, send_helper}
use roq_fix_proxy.Client.Connection.{client_header, send, set_state}
use roq_fix_proxy.Controller.Utilities.{user_is_locked}
use roq_fix_proxy.Controller.Requests.{on_user_request, check_user_request}
use roq_fix_proxy.Invariant.{IsStable}

-- What is found after a session is put into the store.
pub found_assigned :
    (id i : ℕ) (d x : ClientSession) (sessions : Map ℕ ClientSession)
    → find i (assign id d sessions) ≡ some x
    → ((id ≡ i) × (d ≡ x)) ⊎ ((nat_beq id i ≡ false) × (find i sessions ≡ some x))
found_assigned id i d x sessions e = elim (Bool-cases (nat_beq id i)) [
  | inl same ↦ inl (
    (nat_beq_iff id i).0 same,
    some-injective _ _ (rw same at (sym (find-assign id i d sessions) ∙ e)),
  )
  | inr other ↦ inr (other, rw other at (sym (find-assign id i d sessions) ∙ e))
]

abbrev pub IsLive : ℕ → World → Type 0
IsLive id w = (c : ClientSession) → find id w.sessions ≡ some c → c.state ≢ ClientState.zombie

pub found-IsLive :
    (id : ℕ) (c : ClientSession) (t : ClientState) (w : World)
    → find id w.sessions ≡ some c
    → c.state ≡ t
    → t ≢ ClientState.zombie
    → IsLive id w
found-IsLive id c t w there state live d e dead =
    live (
      sym state ∙ (ap (λ (y : ClientSession). y.state) (some-injective _ _ (sym there ∙ e)) ∙ dead))

pub Keeps-both :
    {A : Type 0} {P R : World → Type 0} {m : Action World A}
    → Keeps P m
    → Keeps R m
    → Keeps (λ w. P w × R w) m
Keeps-both kp kr = record { at = λ w h. (kp.at w h.0, kr.at w h.1) }

-- What is read of a session holds when the handler goes on.
module _ (P : World → Type 0) (id : ℕ) {A : Type 0} (f : ClientSession → Action World A) where
  read :
      (found : Option ClientSession) (w : World)
      → find id w.sessions ≡ found
      → ((c : ClientSession) → Leads (λ w. P w × (find id w.sessions ≡ some c)) P (f c))
      → P w
      → P ((session_at id >>= f) w).1
  unfolding ◌>>=◌ session_at
  read none w e goes h = rw (e, session_at) h
  read (some c) w e goes h = rw (e, session_at) ((goes c).at w (h, e))

  pub Keeps-session_at :
      ((c : ClientSession) → Leads (λ w. P w × (find id w.sessions ≡ some c)) P (f c))
      → Keeps P (session_at id >>= f)
  Keeps-session_at goes = record { at = λ w h. read _ w refl goes h }

module _ (id : ℕ) where
  assigned-IsLive :
      (i : ℕ) (c d : ClientSession) (w : World)
      → find i w.sessions ≡ some c
      → d.state ≡ c.state
      → IsLive id w
      → IsLive id (record w { sessions = assign i d w.sessions })
  assigned-IsLive i c d w there state live x e dead = elim (found_assigned i id d x w.sessions e) [
    | inl (same, is) ↦
        live c (subst (λ j. find j w.sessions ≡ some c) same there)
          (sym state ∙ (ap (λ (y : ClientSession). y.state) is ∙ dead))
    | inr (other, e) ↦ live x e dead
  ]

  modified-IsLive :
      (i : ℕ) (f : ClientSession → ClientSession) (found : Option ClientSession) (w : World)
      → find i w.sessions ≡ found
      → ((c : ClientSession) → (f c).state ≡ c.state)
      → IsLive id w
      → IsLive id (modify_session i f w).1
  unfolding modify_session ◌>>=◌
  modified-IsLive i f none w e state h = rw (e, session_at) h
  modified-IsLive i f (some c) w e state h =
      rw (e, session_at) (assigned-IsLive i c (f c) w e (state c) h)

  pub Live-modify_session :
      (i : ℕ) (f : ClientSession → ClientSession)
      → ((c : ClientSession) → (f c).state ≡ c.state)
      → Keeps (IsLive id) (modify_session i f)
  Live-modify_session i f state = record { at = λ w h. modified-IsLive i f _ w refl state h }

  posted-IsLive :
      (i : ℕ) (t : MsgType) (b : Body) (found : Option ClientSession) (w : World)
      → find i w.sessions ≡ found
      → IsLive id w
      → IsLive id (send i t b w).1
  unfolding send client_header put_session ◌>>=◌ ◌>>◌ gets
  posted-IsLive i t b none w e h = rw (e, session_at) h
  posted-IsLive i t b (some c) w e h = rw (e, session_at) (assigned-IsLive i c _ w e refl h)

  pub Live-send : (i : ℕ) (t : MsgType) (b : Body) → Keeps (IsLive id) (send i t b)
  Live-send i t b = record { at = λ w h. posted-IsLive i t b _ w refl h }

  Live-dispatch : (r : Request) → Keeps (IsLive id) (dispatch_to_server r)
  unfolding dispatch_to_server send_if send_helper throw
  Live-dispatch r = record { at = λ w h. passed w.server.state w h }
    where
      passed : (t : ServerState) (w : World) → IsLive id w → IsLive id (send_if t r w).1
      passed ServerState.ready w h = h
      passed ServerState.logon_sent w h = h
      passed ServerState.disconnected w h = h

  Live-check_user_request :
      (t : UserRequestType) (name : Text) → Keeps (IsLive id) (check_user_request t name)
  unfolding check_user_request
  Live-check_user_request UserRequestType.log_on_user name = record {
    at = λ w h. elim (Bool-cases (user_is_locked name w)) [
      | inl locked ↦ rw locked h
      | inr free ↦ rw free h
    ];
  }
  Live-check_user_request UserRequestType.log_off_user name = record { at = λ w h. h }
  Live-check_user_request (UserRequestType.other n) name = record { at = λ w h. h }

  pub Live-on_user_request : (e : UserRequest) (i : ℕ) → Keeps (IsLive id) (on_user_request e i)
  unfolding on_user_request modify_users
  Live-on_user_request e i = Keeps-then (Live-check_user_request e.user_request_type e.username) (
      Keeps-bind (Keeps-gets _) (λ tmp.
        Keeps-if (is_empty tmp)
          (Keeps-then (record { at = λ w h. h }) (Live-dispatch (Request.user_request e)))
          (Keeps-throw fatal)))

  pub Live-create_request_id : ⦃ext : Externals⦄ → Keeps (IsLive id) create_request_id
  unfolding create_request_id
  Live-create_request_id = record { at = λ w h. h }

module _ (Q : World → Type 0) (q : IsStable Q) (id : ℕ) where
  -- The invariant, and that the session is no zombie.
  abbrev pub Alive : World → Type 0
  Alive w = Q w × IsLive id w

  set_from :
      (s : ClientState) (found : Option ClientSession) (w : World)
      → s ≢ ClientState.zombie
      → find id w.sessions ≡ found
      → Alive w
      → Q (set_state id s w).1
  unfolding set_state modify_session ◌>>=◌
  set_from s none w live e h = rw (e, session_at) h.0
  set_from s (some c) w live e h =
      rw (e, session_at)
        (q.session_changed id c (record c { state = s }) w e refl (λ z. absurd (live z))
          (λ z. absurd (h.1 c e z)) h.0)

  -- A change to a state other than zombie; that one is `zombie_made`.
  pub Leads-set_state : (s : ClientState) → s ≢ ClientState.zombie → Leads Alive Q (set_state id s)
  Leads-set_state s live = record { at = λ w h. set_from s _ w live refl h }
