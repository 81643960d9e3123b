-- ===== src/Client/Gate.antt =====
-- Before it has logged on, a client reaches the server with nothing.
use roq_fix_proxy.Prelude.{
  ℕ, ◌≡◌, ◌∙◌, ap, ◌+◌, ◌%◌, refl, true, some, ◌∷◌, nat_eq, arith, nat_beq_iff,
}
use roq_fix_proxy.Prelude.Map.{find, assign, find-assign}
use roq_fix_proxy.Prelude.Effect.{ok, ◌>>◌}
use roq_fix_proxy.Externals.{Externals}
use roq_fix_proxy.Shared.{u64, session_remove}
use roq_fix_proxy.Message.Types.{admin_type}
use roq_fix_proxy.Message.Enums.{MsgType, SessionRejectReason}
use roq_fix_proxy.Message.Request.{Request}
use roq_fix_proxy.Message.Response.{Admin}
use roq_fix_proxy.World.{World, ClientState, ClientSession, Header, Output, Body}
use roq_fix_proxy.World.Access.{session_at, emit}
use roq_fix_proxy.Client.Connection.{
  client_header, send, send_admin, send_and_close, close, close_from, make_zombie, zombie_from,
  become_zombie, send_reject_and_close,
}
use roq_fix_proxy.Client.Logon.{reject_logon, error_no_logon}
use roq_fix_proxy.Client.Inbound.{request_from, ClientMessage, dispatch, is_parsed}

module _ ⦃ext : Externals⦄ where
  -- The reject that answers a message before the logon.
  abbrev pub no_logon : Header → Admin
  no_logon header = Admin.reject (record {
    ref_seq_num = header.msg_seq_num;
    text = error_no_logon;
    ref_msg_type = header.msg_type;
    session_reject_reason = SessionRejectReason.other;
  })

  -- What is put into the store is found there.
  pub stored : (id : ℕ) (c : ClientSession) (w : World) → find id (assign id c w.sessions) ≡ some c
  stored id c w = ground (arith, find-assign id id c w.sessions, nat_beq_iff id id)

  abbrev pub counted : ClientSession → ClientSession
  counted c = record c { outbound_msg_seq_num = (c.outbound_msg_seq_num + 1) % u64 }

  abbrev pub told : ℕ → ClientSession → Admin → World → World
  told id c a w = record w {
    sessions = assign id (counted c) w.sessions;
    out =
        Output.to_client id (client_header (admin_type a) ((c.outbound_msg_seq_num + 1) % u64) c w)
          (Body.admin a)
        ∷ w.out;
  }

  pub send_admin-told :
      (id : ℕ) (c : ClientSession) (a : Admin) (w : World)
      → find id w.sessions ≡ some c
      → send_admin id a w ≡ (ok tt, told id c a w)
  unfolding send_admin ◌>>◌
  send_admin-told id c a w there = rw (there, send_admin, send, session_at) refl

  -- A session that waits for its logon is dropped without a word to the controller.
  abbrev dropped : ℕ → ClientSession → World → World
  dropped id c w = record w {
    sessions = assign id (record c { state = ClientState.zombie }) w.sessions;
    shared = session_remove id w.shared;
    out = Output.close_client id ∷ w.out;
  }

  pub zombie_waiting :
      (id : ℕ) (c : ClientSession) (w : World)
      → find id w.sessions ≡ some c
      → zombie_from ClientState.waiting_logon id w ≡ (
        ok tt,
        record w {
          sessions = assign id (record c { state = ClientState.zombie }) w.sessions;
          shared = session_remove id w.shared;
        },
      )
  unfolding zombie_from become_zombie ◌>>◌
  zombie_waiting id c w there = rw (there, session_at) refl

  pub make_waiting :
      (id : ℕ) (c : ClientSession) (w : World)
      → find id w.sessions ≡ some c
      → make_zombie id w ≡ zombie_from c.state id w
  unfolding make_zombie ◌>>◌
  make_waiting id c w there = rw (there, make_zombie, session_at) refl

  close_open :
      (t : ClientState) (id : ℕ) (w : World)
      → t ≡ ClientState.waiting_logon
      → close_from t id w ≡ make_zombie id (record w { out = Output.close_client id ∷ w.out })
  unfolding close_from ◌>>◌ emit
  close_open ClientState.waiting_logon id w e = refl
  close_open ClientState.waiting_create_route id w e = absurd cc
  close_open ClientState.ready id w e = absurd cc
  close_open ClientState.waiting_remove_route id w e = absurd cc
  close_open ClientState.zombie id w e = absurd cc

  pub close_found :
      (id : ℕ) (c : ClientSession) (w : World)
      → find id w.sessions ≡ some c
      → close id w ≡ close_from c.state id w
  unfolding close ◌>>◌
  close_found id c w there = rw (there, close, session_at) refl

  close_waiting :
      (id : ℕ) (c : ClientSession) (w : World)
      → find id w.sessions ≡ some c
      → c.state ≡ ClientState.waiting_logon
      → close id w ≡ (ok tt, dropped id c w)
  close_waiting id c w there state =
      close_found id c w there
      ∙ (close_open c.state id w state
          ∙ (make_waiting id c closing there
              ∙ (ap (λ t. zombie_from t id closing) state ∙ zombie_waiting id c closing there)))
    where
      closing : World
      closing = record w { out = Output.close_client id ∷ w.out }

  reject_waiting :
      (id : ℕ) (c : ClientSession) (a : Admin) (w : World)
      → find id w.sessions ≡ some c
      → c.state ≡ ClientState.waiting_logon
      → send_and_close id a w ≡ (ok tt, dropped id (counted c) (told id c a w))
  unfolding send_and_close ◌>>◌
  reject_waiting id c a w there state =
      rw (send_admin-told id c a w there, send_and_close)
        (close_waiting id (counted c) (told id c a w) (stored id (counted c) w) state)

  refused_from :
      (t : ClientState) (c : ClientSession) (id : ℕ) (header : Header) (r : Request) (w : World)
      → t ≡ ClientState.waiting_logon
      → request_from t c id header r w ≡ send_and_close id (no_logon header) w
  unfolding request_from reject_logon send_reject_and_close
  refused_from ClientState.waiting_logon c id header r w e = refl
  refused_from ClientState.waiting_create_route c id header r w e = absurd cc
  refused_from ClientState.ready c id header r w e = absurd cc
  refused_from ClientState.waiting_remove_route c id header r w e = absurd cc
  refused_from ClientState.zombie c id header r w e = absurd cc

  dispatch-dropped :
      (c : ClientSession) (id : ℕ) (header : Header) (r : Request) (w : World)
      → find id w.sessions ≡ some c
      → c.state ≡ ClientState.waiting_logon
      → is_parsed r ≡ true
      → dispatch c id header (ClientMessage.request r) w
        ≡ (ok tt, dropped id (counted c) (told id c (no_logon header) w))
  unfolding dispatch
  dispatch-dropped c id header r w there state parsed = rw parsed (
      refused_from c.state c id header r w state
      ∙ reject_waiting id c (no_logon header) w there state)

  -- A request of one of the kinds that the proxy forwards, so neither a UserRequest nor a
  -- TradingSessionStatusRequest, from a session that waits for its logon: the call returns, a reject goes
  -- to the client and its connection is closed, nothing is sent to the server, no mapping and no user of
  -- the mappings changes, and the session is a zombie afterwards.
  pub dispatch-Unlogged :
      (c : ClientSession) (id : ℕ) (header : Header) (r : Request) (w : World)
      → find id w.sessions ≡ some c
      → c.state ≡ ClientState.waiting_logon
      → is_parsed r ≡ true
      → ((dispatch c id header (ClientMessage.request r) w).0 ≡ ok tt)
        × ((dispatch c id header (ClientMessage.request r) w).1.out
            ≡ Output.close_client id
              ∷ Output.to_client id
                  (client_header MsgType.reject ((c.outbound_msg_seq_num + 1) % u64) c w)
                  (Body.admin (no_logon header))
              ∷ w.out)
        × ((dispatch c id header (ClientMessage.request r) w).1.subscriptions ≡ w.subscriptions)
        × (find id (dispatch c id header (ClientMessage.request r) w).1.sessions
            ≡ some (record c {
              state = ClientState.zombie;
              outbound_msg_seq_num = (c.outbound_msg_seq_num + 1) % u64;
            }))
  unfolding admin_type
  dispatch-Unlogged c id header r w there state parsed =
      rw (dispatch-dropped c id header r w there state parsed)
        (refl, refl, refl, stored id _ (told id c (no_logon header) w))
