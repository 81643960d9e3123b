-- ===== src/Invariant/Gone.antt =====
-- A zombie in the states that the event loop reaches from there: it is never revived (client/session.cpp,
-- the changes of the state; client/manager.cpp, new sessions).
use roq_fix_proxy.Prelude.{
  ℕ, List, ◌+◌, ◌%◌, ◌≤◌, ◌≡◌, refl, ◌∙◌, sym, ap, subst, inl, inr, some, arith, nat_eq,
  nat_beq_iff,
}
use roq_fix_proxy.Prelude.Map.{Map, find, assign, try_emplace, find-try_emplace}
use roq_fix_proxy.Prelude.Effect.{◌>>◌}
use roq_fix_proxy.Externals.{Externals}
use roq_fix_proxy.Shared.{u64}
use roq_fix_proxy.World.{World, ClientState, ClientSession}
use roq_fix_proxy.World.Access.{emit}
use roq_fix_proxy.Server.Send.{send_helper, send_logon, send_admin}
use roq_fix_proxy.Server.Inbound.{on_logon, on_connected, set_ready, modify_server}
use roq_fix_proxy.Manager.{on_connection, erase_all}
use roq_fix_proxy.Manager.Removal.{find-erase_all}
use roq_fix_proxy.Events.{Reach}
use roq_fix_proxy.Invariant.Alive.{found_assigned}
use roq_fix_proxy.Invariant.{IsStable, IsLasting}
use roq_fix_proxy.Invariant.Loop.{Along, IsInvariant, Reach-Q}
use roq_fix_proxy.Invariant.Counts.{FewSessions}
use roq_fix_proxy.Invariant.Sight.{
  Keeps-send, Keeps-become_zombie, Sight, Sees, Sees-IsStable, Keeps-collect,
}

-- The session under this id, which was given out, is a zombie, if it is in the store at all.
pub record IsGone (id : ℕ) (sessions : Map ℕ ClientSession) (last : ℕ) : Type 0 where
  pub past : id ≤ last
  pub dead : (c : ClientSession) → find id sessions ≡ some c → c.state ≡ ClientState.zombie

module _ (id : ℕ) {sessions : Map ℕ ClientSession} {last : ℕ} (v : IsGone id sessions last) where
  changed-IsGone :
      (i : ℕ) (c d : ClientSession)
      → find i sessions ≡ some c
      → (c.state ≡ ClientState.zombie → d.state ≡ ClientState.zombie)
      → IsGone id (assign i d sessions) last
  changed-IsGone i c d there stays = record {
    past = v.past;
    dead = λ x e. elim (found_assigned i id d x sessions e) [
      | inl (same, is) ↦
          ap (λ (y : ClientSession). y.state) (sym is)
          ∙ stays (v.dead c (subst (λ j. find j sessions ≡ some c) same there))
      | inr (other, e) ↦ v.dead x e
    ];
  }

  lost-IsGone : (ids : List ℕ) → IsGone id (erase_all ids sessions) last
  lost-IsGone ids = record {
    past = v.past;
    dead = λ x e. v.dead x (ground (arith, find-erase_all ids id sessions, e));
  }

  opened-IsGone : (c : ClientSession) → IsGone id (try_emplace (last + 1) c sessions) (last + 1)
  opened-IsGone c = record {
    past = omega (arith, v.past);
    dead = λ x e. v.dead x (
        ground
          (arith, find-try_emplace (last + 1) id c sessions, nat_beq_iff (last + 1) id, v.past, e));
  }

module _ (id : ℕ) where
  Gone : Sight
  Gone s flag sessions out last ids due = IsGone id sessions last

  Gone-IsStable : IsStable (Sees Gone)
  unfolding Gone emit send_helper
  Gone-IsStable =
      Sees-IsStable Gone (λ t b. record { at = λ w h. h })
        (Keeps-send Gone (λ i c x b w there number h. changed-IsGone id h i c _ there (λ z. z)))
        (λ i. record { at = λ w h. h })
        (λ i c d w there same alive dead h. changed-IsGone id h i c d there dead)
        (Keeps-become_zombie Gone (λ i c w e h. changed-IsGone id h i c _ e (λ z. refl)))
        (λ ids w more h. h)

  Gone-IsLasting : IsLasting (Sees Gone)
  unfolding Gone on_logon set_ready modify_server ◌>>◌ emit
  Gone-IsLasting = record {
    stable = Gone-IsStable;
    server_changed = λ s w state same h. h;
    logged_on = record { at = λ w h. h };
    flag_lowered = λ w h. h;
    clock_changed = λ c w h. h;
    sent_to_auth = λ t. record { at = λ w h. h };
    collected = Keeps-collect Gone (λ ids due w h all. lost-IsGone id h ids);
  }

  Gone-IsInvariant : IsInvariant FewSessions (Sees Gone)
  unfolding Gone on_connection on_connected modify_server send_logon send_admin send_helper ◌>>◌
  Gone-IsInvariant = record {
    lasting = Gone-IsLasting;
    connection = λ c w few h.
        let e : (w.shared.next_session_id + 1) % u64 ≡ w.shared.next_session_id + 1 =
          omega (arith, few) in
        rw e (opened-IsGone id h _);
    connected = λ c w a h. h;
    server_reset = λ u a w down h. h;
  }

module _ ⦃ext : Externals⦄ where
  -- A session that is a zombie, or that is not in the store any more though its id was given out, is so
  -- in every state that the event loop reaches from there, with fewer than 2 ^ 64 sessions: a zombie is
  -- never revived, and its id is not given to another session.
  pub Reach-IsGone :
      (id : ℕ) (w v : World) (r : Reach w v)
      → Along FewSessions r
      → IsGone id w.sessions w.shared.next_session_id
      → IsGone id v.sessions v.shared.next_session_id
  unfolding Gone
  Reach-IsGone id w v r a h = Reach-Q FewSessions (Sees (Gone id)) (Gone-IsInvariant id) w v r a h
