-- ===== src/Invariant/Noted.antt =====
-- The zombies in every state that the event loop reaches: they wait for their removal.
use roq_fix_proxy.Prelude.{
  ℕ, ◌≡◌, refl, inl, inr, ◌∙◌, ap, subst, true, ◌||◌, some, List, [], ◌∷◌, arith, nat_eq, nat_beq,
  nat_beq_iff,
}
use roq_fix_proxy.Prelude.Map.{Map, find, assign, try_emplace, find-try_emplace}
use roq_fix_proxy.Prelude.Effect.{◌>>◌}
use roq_fix_proxy.Externals.{Externals}
use roq_fix_proxy.Shared.{Shared, insert_id, session_remove, session_remove_helper}
use roq_fix_proxy.World.{World, ClientSession, ClientState}
use roq_fix_proxy.World.Access.{emit}
use roq_fix_proxy.Server.Send.{send_helper, send_logon, send_admin}
use roq_fix_proxy.Server.Inbound.{on_logon, on_connected, set_ready, modify_server}
use roq_fix_proxy.Manager.{on_connection, erase_all}
use roq_fix_proxy.Manager.Removal.{listed, find-erase_all}
use roq_fix_proxy.Events.{Reach}
use roq_fix_proxy.Invariant.{IsStable, IsLasting}
use roq_fix_proxy.Invariant.Loop.{Anyhow, Along-Anyhow, IsInvariant, Reach-Q}
use roq_fix_proxy.Invariant.Sight.{
  Keeps-send, Sight, Sees, Sees-IsStable, Keeps-become_zombie, Keeps-collect,
}
use roq_fix_proxy.Invariant.Alive.{found_assigned}

-- Each zombie in the store is among the sessions that are to be removed.
pub record AreNoted (sessions : Map ℕ ClientSession) (ids : List ℕ) : Type 0 where
  pub at :
      (id : ℕ) (c : ClientSession)
      → find id sessions ≡ some c
      → c.state ≡ ClientState.zombie
      → listed id ids ≡ true

listed-insert_id :
    (i j : ℕ) (ids : List ℕ) → listed j (insert_id i ids) ≡ (nat_beq i j || listed j ids)
unfolding insert_id
listed-insert_id i j [] = refl
listed-insert_id i j (x ∷ ids) =
    ground (arith, listed-insert_id i j ids, nat_beq_iff x i, nat_beq_iff x j, nat_beq_iff i j)

sessions_to_remove-session_remove :
    (id : ℕ) (s : Shared)
    → (session_remove id s).sessions_to_remove ≡ insert_id id s.sessions_to_remove
unfolding session_remove session_remove_helper
sessions_to_remove-session_remove id s = ground arith

module _ {sessions : Map ℕ ClientSession} {ids : List ℕ} (v : AreNoted sessions ids) where
  changed-AreNoted :
      (id : ℕ) (c d : ClientSession)
      → find id sessions ≡ some c
      → (d.state ≡ ClientState.zombie → c.state ≡ ClientState.zombie)
      → AreNoted (assign id d sessions) ids
  changed-AreNoted id c d there alive = record {
    at = λ i x e dead. elim (found_assigned id i d x sessions e) [
      | inl (same, is) ↦
          subst (λ j. listed j ids ≡ true) same
            (v.at id c there (alive (ap (λ (y : ClientSession). y.state) is ∙ dead)))
      | inr (other, e) ↦ v.at i x e dead
    ];
  }

  more-AreNoted :
      (ids' : List ℕ)
      → ((i : ℕ) → listed i ids ≡ true → listed i ids' ≡ true)
      → AreNoted sessions ids'
  more-AreNoted ids' more = record { at = λ i x e dead. more i (v.at i x e dead) }

  zombie-AreNoted :
      (id : ℕ) (d : ClientSession) → AreNoted (assign id d sessions) (insert_id id ids)
  zombie-AreNoted id d = record {
    at = λ i x e dead. elim (found_assigned id i d x sessions e) [
      | inl (same, is) ↦ ground (arith, listed-insert_id id i ids, nat_beq_iff id i, same)
      | inr (other, e) ↦ ground (arith, listed-insert_id id i ids, v.at i x e dead)
    ];
  }

  -- All that were noted are removed.
  pub none_left :
      (i : ℕ) (x : ClientSession)
      → find i (erase_all ids sessions) ≡ some x
      → x.state ≡ ClientState.zombie
      → ⊥
  none_left i x e dead = ground (arith, find-erase_all ids i sessions, v.at i x, e, dead)

  opened-AreNoted :
      (id : ℕ) (c : ClientSession)
      → c.state ≡ ClientState.waiting_logon
      → AreNoted (try_emplace id c sessions) ids
  opened-AreNoted id c new = record {
    at = λ i x e dead.
        ground (arith, find-try_emplace id i c sessions, v.at i x, nat_beq_iff id i, new, dead, e);
  }

abbrev pub Noted : Sight
Noted s flag sessions out last ids due = AreNoted sessions ids

pub Noted-IsStable : IsStable (Sees Noted)
unfolding emit send_helper
Noted-IsStable =
    Sees-IsStable Noted (λ t b. record { at = λ w h. h })
      (Keeps-send Noted (λ id c x b w there number h. changed-AreNoted h id c _ there (λ z. z)))
      (λ id. record { at = λ w h. h })
      (λ id c d w there same alive dead h. changed-AreNoted h id c d there alive)
      (Keeps-become_zombie Noted
        (λ id c w e h. rw (sessions_to_remove-session_remove id w.shared) (zombie-AreNoted h id _)))
      (λ ids w more h. more-AreNoted h ids more)

Noted-IsLasting : IsLasting (Sees Noted)
unfolding on_logon set_ready modify_server ◌>>◌ emit
Noted-IsLasting = record {
  stable = Noted-IsStable;
  server_changed = λ s w state same h. h;
  logged_on = record { at = λ w h. h };
  flag_lowered = λ w h. h;
  clock_changed = λ c w h. h;
  sent_to_auth = λ t. record { at = λ w h. h };
  collected = Keeps-collect Noted (λ ids due w h all. record {
    at = λ i x e dead. absurd (none_left h i x (rw (← all) e) dead);
  });
}

Noted-IsInvariant : IsInvariant Anyhow (Sees Noted)
unfolding on_connection on_connected modify_server send_logon send_admin send_helper ◌>>◌
Noted-IsInvariant = record {
  lasting = Noted-IsLasting;
  connection = λ c w a h. opened-AreNoted h _ _ refl;
  connected = λ c w a h. h;
  server_reset = λ u a w down h. h;
}

module _ ⦃ext : Externals⦄ where
  -- In every state that the event loop reaches from one where it is so, each zombie is among the
  -- sessions that wait for their removal.
  pub Reach-AreNoted :
      (w v : World)
      → Reach w v
      → AreNoted w.sessions w.shared.sessions_to_remove
      → AreNoted v.sessions v.shared.sessions_to_remove
  Reach-AreNoted w v r h =
      Reach-Q Anyhow (Sees Noted) Noted-IsInvariant w v r (Along-Anyhow w v r) h
