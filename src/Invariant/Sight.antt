-- ===== src/Invariant/Sight.antt =====
-- Invariants that speak of the connections: the server session, the ready flag, the client sessions,
-- what has been sent, the last session id and when zombies are removed. Nothing else that the code writes concerns them.
use roq_fix_proxy.Prelude.{
  ℕ, ◌+◌, ◌%◌, ◌≡◌, refl, ◌∙◌, Bool, Option, none, some, List, [], ◌∷◌, true, nat_eq, Bool-cases,
  inl, inr, ltb, arith,
}
use roq_fix_proxy.Prelude.Text.{Text}
use roq_fix_proxy.Prelude.Map.{Map, find, assign}
use roq_fix_proxy.Prelude.Effect.{
  Keeps, Keeps-bind, Keeps-gets, Keeps-skip, Keeps-then, Keeps-for_each, ◌>>◌, ◌>>=◌, gets,
}
use roq_fix_proxy.Message.Enums.{MsgType}
use roq_fix_proxy.Mapping.{Mapping, erase_server, close_client}
use roq_fix_proxy.Shared.{
  u64, Shared, cleanup_each, session_cleanup, session_remove_helper, session_remove,
}
use roq_fix_proxy.Manager.Removal.{listed}
use roq_fix_proxy.Manager.{erase_all, remove_zombies}
use roq_fix_proxy.Invariant.Sessions.{Keeps-session_at}
use roq_fix_proxy.World.{World, Header, ServerSession, ClientSession, ClientState, Body, Output}
use roq_fix_proxy.World.Mappings.{MappingName}
use roq_fix_proxy.World.Access.{
  Method, modify_mapping, emit, put_session, session_at, modify_session, modify_shared,
}
use roq_fix_proxy.Server.Send.{send_helper}
use roq_fix_proxy.Client.Connection.{client_header, send, become_zombie, set_state}
use roq_fix_proxy.Controller.Disconnect.{clear_entry, clear_found, clear_req_ids}
use roq_fix_proxy.Invariant.{IsStable}

abbrev pub Sight : Type 1
Sight = ServerSession → Bool → Map ℕ ClientSession → List Output → ℕ → List ℕ → ℕ → Type 0

abbrev pub Sees : Sight → World → Type 0
Sees R w =
    R w.server w.ready w.sessions w.out w.shared.next_session_id w.shared.sessions_to_remove
      w.next_garbage_collection

next_session_id-session_remove :
    (id : ℕ) (s : Shared) → (session_remove id s).next_session_id ≡ s.next_session_id
unfolding session_remove
next_session_id-session_remove id s = ground arith

next_session_id-cleanup_each :
    (ids : List ℕ) (s : Shared) → (cleanup_each ids s).next_session_id ≡ s.next_session_id
unfolding cleanup_each session_remove_helper
next_session_id-cleanup_each [] s = refl
next_session_id-cleanup_each (id ∷ ids) s =
    next_session_id-cleanup_each ids (session_remove_helper id s) ∙ ground arith

next_session_id-session_cleanup :
    (s : Shared) → (session_cleanup s).1.next_session_id ≡ s.next_session_id
unfolding session_cleanup
next_session_id-session_cleanup s = next_session_id-cleanup_each s.sessions_to_remove s

module _ (R : Sight) where
  Keeps-modify_mapping :
      (n : MappingName) (f : Mapping → Mapping) → Keeps (Sees R) (modify_mapping n f)
  unfolding modify_mapping
  Keeps-modify_mapping n f = record { at = λ w h. h }

  module _ (n : MappingName) (id : ℕ) (callback : Text → Method)
      (keeps : (r : Text) → Keeps (Sees R) (callback r)) where
    Keeps-clear_entry : (e : Text × Text) → Keeps (Sees R) (clear_entry n callback e)
    unfolding clear_entry
    Keeps-clear_entry (c, q) = Keeps-then (keeps q) (Keeps-modify_mapping n (erase_server q))

    Keeps-clear_found :
        (tmp : Option (Map Text Text)) → Keeps (Sees R) (clear_found n id callback tmp)
    unfolding clear_found
    Keeps-clear_found none = Keeps-skip
    Keeps-clear_found (some tmp) =
        Keeps-then (Keeps-for_each tmp Keeps-clear_entry) (Keeps-modify_mapping n (close_client id))

    Keeps-clear_req_ids : Keeps (Sees R) (clear_req_ids n id callback)
    unfolding clear_req_ids
    Keeps-clear_req_ids = record { at = λ w h. (Keeps-clear_found _).at w h }

  pub Sees-IsStable :
      ((t : MsgType) (b : Body) → Keeps (Sees R) (send_helper t b))
      → ((id : ℕ) (t : MsgType) (b : Body) → Keeps (Sees R) (send id t b))
      → ((id : ℕ) → Keeps (Sees R) (emit (Output.close_client id)))
      → ((id : ℕ) (c d : ClientSession) (w : World)
          → find id w.sessions ≡ some c
          → d.outbound_msg_seq_num ≡ c.outbound_msg_seq_num
          → (d.state ≡ ClientState.zombie → c.state ≡ ClientState.zombie)
          → (c.state ≡ ClientState.zombie → d.state ≡ ClientState.zombie)
          → Sees R w
          → Sees R (record w { sessions = assign id d w.sessions }))
      → ((id : ℕ) → Keeps (Sees R) (become_zombie id))
      → ((ids : List ℕ) (w : World)
          → ((i : ℕ) → listed i w.shared.sessions_to_remove ≡ true → listed i ids ≡ true)
          → Sees R w
          → R w.server w.ready w.sessions w.out w.shared.next_session_id ids
              w.next_garbage_collection)
      → IsStable (Sees R)
  Sees-IsStable server client closed changed zombie grows = record {
    opened = λ n id w h. h;
    added = λ n c r id k w unused h. h;
    unnamed = λ r id w h. h;
    removed = λ n r w h. h;
    relaxed = λ r k m w e h. h;
    cleared = λ n id callback quiet keeps. Keeps-clear_req_ids n id callback keeps;
    user_added = λ name id w a b h. h;
    half_added = λ name id w a h. h;
    user_removed = λ name id w own h. h;
    user_awaits = λ r id w h. h;
    user_registers = λ r id w h. h;
    user_answers = λ r id w h. h;
    sent_to_server = server;
    sent_to_client = client;
    client_closed = closed;
    session_changed = changed;
    zombie_made = zombie;
    shared_changed = λ s w same more h. rw same (grows s.sessions_to_remove w more h);
    orders_changed = λ m w h. h;
    total_changed = λ n w h. h;
  }

  -- A message to a client: the session has its number, and it is the latest that was sent.
  module _
      (posts : (id : ℕ) (c : ClientSession) (h : Header) (b : Body) (w : World)
        → find id w.sessions ≡ some c
        → h.msg_seq_num ≡ (c.outbound_msg_seq_num + 1) % u64
        → Sees R w
        → R w.server w.ready
            (assign id
              (record c { outbound_msg_seq_num = (c.outbound_msg_seq_num + 1) % u64 })
              w.sessions)
            (Output.to_client id h b ∷ w.out)
            w.shared.next_session_id
            w.shared.sessions_to_remove
            w.next_garbage_collection) where
    posted :
        (id : ℕ) (t : MsgType) (b : Body) (found : Option ClientSession) (w : World)
        → find id w.sessions ≡ found
        → Sees R w
        → Sees R (send id t b w).1
    unfolding send client_header put_session emit ◌>>=◌ ◌>>◌ gets
    posted id t b none w e h = rw (e, session_at) h
    posted id t b (some c) w e h = rw (e, session_at) (posts id c _ b w e refl h)

    pub Keeps-send : (id : ℕ) (t : MsgType) (b : Body) → Keeps (Sees R) (send id t b)
    Keeps-send id t b = record { at = λ w h. posted id t b _ w refl h }

  became :
      (id : ℕ) (found : Option ClientSession) (w : World)
      → find id w.sessions ≡ found
      → ((c : ClientSession)
          → find id w.sessions ≡ some c
          → R w.server w.ready
              (assign id (record c { state = ClientState.zombie }) w.sessions)
              w.out
              w.shared.next_session_id
              (session_remove id w.shared).sessions_to_remove
              w.next_garbage_collection)
      → Sees R w
      → Sees R (become_zombie id w).1
  unfolding become_zombie set_state modify_session put_session modify_shared ◌>>◌ ◌>>=◌
  became id none w e dead h = rw (e, session_at) h
  became id (some c) w e dead h =
      rw (e, session_at) (rw (next_session_id-session_remove id w.shared) (dead c e))

  -- A session that becomes a zombie and is noted for its removal.
  pub Keeps-become_zombie :
      ((id : ℕ) (c : ClientSession) (w : World)
        → find id w.sessions ≡ some c
        → Sees R w
        → R w.server w.ready
            (assign id (record c { state = ClientState.zombie }) w.sessions)
            w.out
            w.shared.next_session_id
            (session_remove id w.shared).sessions_to_remove
            w.next_garbage_collection)
      → (id : ℕ) → Keeps (Sees R) (become_zombie id)
  Keeps-become_zombie dead id = record { at = λ w h. became id _ w refl (λ c e. dead id c w e h) h }

  -- The removal of zombies, where the invariant stands the loss of sessions.
  pub Keeps-collect :
      ((ids : List ℕ) (due : ℕ) (w : World)
        → Sees R w
        → ids ≡ w.shared.sessions_to_remove
        → R w.server w.ready (erase_all ids w.sessions) w.out w.shared.next_session_id [] due)
      → (now : ℕ) → Keeps (Sees R) (remove_zombies now)
  unfolding remove_zombies
  Keeps-collect loses now = record {
    at = λ w h. elim (Bool-cases (ltb now w.next_garbage_collection)) [
      | inl early ↦ rw early h
      | inr due ↦
          rw (due, next_session_id-session_cleanup w.shared)
            (loses w.shared.sessions_to_remove _ w h refl)
    ];
  }

  -- A message to a client, where neither the sessions nor what is sent to clients matters.
  pub Keeps-send_freely :
      ((m : Map ℕ ClientSession) (w : World) → Sees R w → Sees R (record w { sessions = m }))
      → ((id : ℕ) (h : Header) (b : Body) (w : World)
          → Sees R w
          → Sees R (record w { out = Output.to_client id h b ∷ w.out }))
      → (id : ℕ) (t : MsgType) (b : Body) → Keeps (Sees R) (send id t b)
  unfolding send put_session emit
  Keeps-send_freely others posts id t b = Keeps-bind (Keeps-session_at (Sees R) id) (λ c.
      Keeps-then (record { at = λ w h. others _ w h })
        (Keeps-bind (Keeps-gets _) (λ x. record { at = λ w h. posts id x b w h })))
