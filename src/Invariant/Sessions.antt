-- ===== src/Invariant/Sessions.antt =====
-- What a client session does on its own keeps every invariant: sending, closing, and the
-- controller's part in it.
use roq_fix_proxy.Prelude.{
  ℕ, ◌≡◌, refl, sym, ◌∙◌, Bool, true, false, Option, none, some, arith, inr, nat_eq, if◌then◌else◌,
}
use roq_fix_proxy.Prelude.Text.{Text, text_eq}
use roq_fix_proxy.Prelude.Map.{find}
use roq_fix_proxy.Prelude.Effect.{
  skip, throw, ◌>>=◌, Result, Keeps-if, Keeps, Keeps-skip, Keeps-bind, Keeps-then, Leads,
  Leads-gets, Leads-then, Leads-of_Keeps, Keeps-of_Leads,
}
use roq_fix_proxy.Externals.{Externals}
use roq_fix_proxy.Shared.{Shared}
use roq_fix_proxy.World.{World, Subscriptions, ServerState, ClientSession}
use roq_fix_proxy.World.Mappings.{
  MappingName, security, security_status, trad_ses, md, ord_status, mass_status, pos, trade, cl_ord,
  mass_cancel,
}
use roq_fix_proxy.World.Access.{
  Method, modify_users, session_at, modify_session, modify_shared, create_request_id,
}
use roq_fix_proxy.Message.Request.{Request}
use roq_fix_proxy.Server.Send.{dispatch_to_server, send_if}
use roq_fix_proxy.Controller.Disconnect.{
  release_user, ignore, clear_req_ids, unsubscribe_market_data, await_response, log_off_user,
  client_disconnected,
}
use roq_fix_proxy.Invariant.{IsStable, IsQuiet, with_users}

-- What is sent to the server changes its message number and nothing else that counts here.
pub dispatch_to_server-IsQuiet : (r : Request) → IsQuiet (dispatch_to_server r)
unfolding dispatch_to_server throw
dispatch_to_server-IsQuiet r = record { subscriptions = λ w. ground arith }

pub ignore-IsQuiet : (r : Text) → IsQuiet (ignore r)
unfolding ignore skip
ignore-IsQuiet r = record { subscriptions = λ w. refl }

IsQuiet-if :
    (b : Bool) (m n : Method) → IsQuiet m → IsQuiet n → IsQuiet (λ w. (if b then m else n) w)
IsQuiet-if true m n hm hn = hm
IsQuiet-if false m n hm hn = hn

pub unsubscribe-IsQuiet : (r : Text) → IsQuiet (unsubscribe_market_data r)
unfolding unsubscribe_market_data ignore
unsubscribe-IsQuiet r = record {
  subscriptions = λ w.
      (IsQuiet-if w.ready _ _ (dispatch_to_server-IsQuiet _) (ignore-IsQuiet r)).subscriptions w;
}

-- What a quiet action keeps, it keeps together with whatever is said of the subscriptions.
pub Keeps-quiet :
    {A : Type 0} {Q : World → Type 0} {m : World → Result A × World} (R : Subscriptions → Type 0)
    → Keeps Q m
    → ((w : World) → (m w).1.subscriptions ≡ w.subscriptions)
    → Keeps (λ w. Q w × R w.subscriptions) m
Keeps-quiet R k quiet = record { at = λ w h. (k.at w h.0, rw (quiet w) h.1) }

module _ (Q : World → Type 0) where
  pub Keeps-session_at : (id : ℕ) → Keeps Q (session_at id)
  unfolding session_at
  Keeps-session_at id = record { at = λ w h. ground arith }

module _ (Q : World → Type 0) (q : IsStable Q) where
  changed :
      (id : ℕ) (f : ClientSession → ClientSession) (found : Option ClientSession) (w : World)
      → find id w.sessions ≡ found
      → ((c : ClientSession) → (f c).outbound_msg_seq_num ≡ c.outbound_msg_seq_num)
      → ((c : ClientSession) → (f c).state ≡ c.state)
      → Q w
      → Q (modify_session id f w).1
  unfolding modify_session ◌>>=◌
  changed id f none w e same state h = rw (e, session_at) h
  changed id f (some c) w e same state h =
      rw (e, session_at)
        (q.session_changed id c (f c) w e (same c) (λ z. sym (state c) ∙ z) (λ z. state c ∙ z) h)

  pub Keeps-modify_session :
      (id : ℕ) (f : ClientSession → ClientSession)
      → ((c : ClientSession) → (f c).outbound_msg_seq_num ≡ c.outbound_msg_seq_num)
      → ((c : ClientSession) → (f c).state ≡ c.state)
      → Keeps Q (modify_session id f)
  Keeps-modify_session id f same state = record { at = λ w h. changed id f _ w refl same state h }

  -- What is done to the shared state without a look at the sessions' ids.
  pub Keeps-modify_shared :
      (f : Shared → Shared)
      → ((s : Shared) → (f s).next_session_id ≡ s.next_session_id)
      → ((s : Shared) → (f s).sessions_to_remove ≡ s.sessions_to_remove)
      → Keeps Q (modify_shared f)
  unfolding modify_shared
  Keeps-modify_shared f same ids = record {
    at = λ w h. q.shared_changed _ w (same w.shared) (λ i l. rw (ids w.shared) l) h;
  }

  pub Keeps-dispatch_to_server : (r : Request) → Keeps Q (dispatch_to_server r)
  unfolding dispatch_to_server
  Keeps-dispatch_to_server r = record { at = λ w h. sent w.server.state w h }
    where
      sent : (t : ServerState) (w : World) → Q w → Q (send_if t r w).1
      sent ServerState.ready w h = (q.sent_to_server _ _).at w h
      sent ServerState.logon_sent w h = unfold throw in h
      sent ServerState.disconnected w h = unfold throw in h

  pub Keeps-unsubscribe : (r : Text) → Keeps Q (unsubscribe_market_data r)
  unfolding unsubscribe_market_data
  Keeps-unsubscribe r = record {
    at = λ w h. (Keeps-if w.ready (Keeps-dispatch_to_server _) Keeps-skip).at w h;
  }

  pub Keeps-ignore : (r : Text) → Keeps Q (ignore r)
  unfolding ignore
  Keeps-ignore r = Keeps-skip

  module _ ⦃ext : Externals⦄ where
    pub Keeps-create_request_id : Keeps Q create_request_id
    unfolding create_request_id
    Keeps-create_request_id = record { at = λ w h. q.shared_changed _ w refl (λ i l. l) h }

module _ ⦃ext : Externals⦄ where
  pub create_request_id-IsQuiet :
      (w : World) → (create_request_id w).1.subscriptions ≡ w.subscriptions
  unfolding create_request_id
  create_request_id-IsQuiet w = refl

-- A log off leaves the user's entries for the caller to remove.
pub Keeps-log_off_user :
    ⦃ext : Externals⦄ (P : World → Type 0) (id : ℕ) (name : Text)
    → Keeps P create_request_id
    → ((r : Request) → Keeps P (dispatch_to_server r))
    → ((r : Text) (w : World) → P w → P (with_users (await_response r id) w))
    → Keeps P (log_off_user id name)
unfolding log_off_user modify_users
Keeps-log_off_user P id name creates sends awaits =
    Keeps-bind creates (λ r. Keeps-then (sends _) (record { at = λ w h. awaits r w h }))

-- The entry of a user in a session.
abbrev HasUser : ℕ → Text → Subscriptions → Type 0
HasUser id name s = find id s.user.session_to_client ≡ some name

abbrev WithUser : (World → Type 0) → ℕ → Text → World → Type 0
WithUser Q id name w = Q w × HasUser id name w.subscriptions

module _ (Q : World → Type 0) (q : IsStable Q) ⦃ext : Externals⦄ where
  log_off_if :
      (b : Bool) (id : ℕ) (name : Text)
      → Keeps (WithUser Q id name) (if b then log_off_user id name else skip)
  unfolding await_response
  log_off_if true id name =
      Keeps-log_off_user (WithUser Q id name) id name
        (Keeps-quiet (HasUser id name) (Keeps-create_request_id Q q) create_request_id-IsQuiet)
        (λ r.
          Keeps-quiet (HasUser id name) (Keeps-dispatch_to_server Q q r)
            (dispatch_to_server-IsQuiet r).subscriptions)
        (λ r w h. (q.user_awaits r id w h.0, h.1))
  log_off_if false id name = Keeps-skip

  Leads-release_user :
      (id : ℕ) (name : Text) → Leads (WithUser Q id name) Q (release_user id (some name))
  unfolding release_user modify_users
  Leads-release_user id name = Leads-gets _ _ (λ w h.
      (Leads-then (Leads-of_Keeps (log_off_if w.ready id name)) (λ v k. k.0)
          (record { at = λ v k. q.user_removed name id _ (inr k.1) k.0 })).at
        w h)

  release_of :
      (id : ℕ) (user : Option Text) (w : World)
      → Q w
      → find id w.subscriptions.user.session_to_client ≡ user
      → Q (release_user id user w).1
  unfolding release_user
  release_of id none w h e = unfold skip in h
  release_of id (some name) w h e = (Leads-release_user id name).at w (h, e)

  Keeps-cleared : (n : MappingName) (id : ℕ) → Keeps Q (clear_req_ids n id ignore)
  Keeps-cleared n id = q.cleared n id ignore ignore-IsQuiet (Keeps-ignore Q q)

  pub Keeps-client_disconnected : (id : ℕ) → Keeps Q (client_disconnected id)
  unfolding client_disconnected
  Keeps-client_disconnected id = Keeps-then (Keeps-cleared security id) (
      Keeps-then (Keeps-cleared security_status id) (
        Keeps-then (Keeps-cleared trad_ses id) (
          Keeps-then
            (q.cleared md id unsubscribe_market_data unsubscribe-IsQuiet (Keeps-unsubscribe Q q))
            (Keeps-then (Keeps-cleared ord_status id) (
              Keeps-then (Keeps-cleared mass_status id) (
                Keeps-then (Keeps-cleared pos id) (
                  Keeps-then (Keeps-cleared trade id) (
                    Keeps-then (Keeps-cleared cl_ord id) (
                      Keeps-then (Keeps-cleared mass_cancel id)
                        (Keeps-of_Leads (Leads-gets _ _ (λ w h. release_of id _ w h refl))))))))))))
