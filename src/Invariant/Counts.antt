-- ===== src/Invariant/Counts.antt =====
-- The messages to each client, in every state that the event loop reaches: they are numbered from 1
-- without a gap.
use roq_fix_proxy.Prelude.{
  ℕ, ◌+◌, ◌%◌, ◌≤◌, ◌<◌, ◌≡◌, refl, ◌⊎◌, inl, inr, ◌∙◌, sym, ap, subst, false, some, List, [], ◌∷◌,
  Bool-cases, arith, nat_eq, nat_beq, nat_beq_iff, if◌then◌else◌,
}
use roq_fix_proxy.Prelude.Map.{Map, find, assign, try_emplace, find-try_emplace}
use roq_fix_proxy.Prelude.Effect.{Keeps, Keeps-then, ◌>>◌}
use roq_fix_proxy.Externals.{Externals}
use roq_fix_proxy.Message.Enums.{MsgType}
use roq_fix_proxy.Shared.{u64}
use roq_fix_proxy.World.{World, ClientSession, Body, Output, Header}
use roq_fix_proxy.World.Access.{emit}
use roq_fix_proxy.Server.Send.{send_helper, send_logon, send_admin}
use roq_fix_proxy.Server.Inbound.{on_logon, on_connected, set_ready, modify_server}
use roq_fix_proxy.Manager.{on_connection, new_session, erase_all}
use roq_fix_proxy.Manager.Removal.{find-erase_all}
use roq_fix_proxy.Events.{Event, Reach}
use roq_fix_proxy.Invariant.Alive.{found_assigned}
use roq_fix_proxy.Invariant.{IsStable, IsLasting}
use roq_fix_proxy.Invariant.Loop.{Granted, Along, IsInvariant, Reach-Q}
use roq_fix_proxy.Invariant.Sight.{
  Keeps-send, Keeps-become_zombie, Sight, Sees, Sees-IsStable, Keeps-collect,
}

-- The numbers of the messages to one client, the latest first.
abbrev pub client_numbers : ℕ → List Output → List ℕ
client_numbers id [] = []
client_numbers id (Output.to_client i h b ∷ out) =
    if nat_beq i id then h.msg_seq_num ∷ client_numbers id out else client_numbers id out
client_numbers id (Output.to_server h b ∷ out) = client_numbers id out
client_numbers id (Output.close_client i ∷ out) = client_numbers id out
client_numbers id (Output.close_server ∷ out) = client_numbers id out
client_numbers id (Output.to_auth t ∷ out) = client_numbers id out

-- The numbers count down from `n` to 1.
abbrev pub CountsTo : ℕ → List ℕ → Type 0
CountsTo n [] = n ≡ 0
CountsTo n (m ∷ ns) = (m ≡ n) × ((p : ℕ) × (n ≡ (p + 1) % u64) × CountsTo p ns)

-- The client sessions of a store and what was sent to them; `last` is the last session id.
pub record IsCounted (sessions : Map ℕ ClientSession) (out : List Output) (last : ℕ) : Type 0 where
  -- The number that a session has used last is that of its last message.
  pub own :
      (id : ℕ) (c : ClientSession)
      → find id sessions ≡ some c
      → CountsTo c.outbound_msg_seq_num (client_numbers id out)
  -- So it was for the sessions that are gone.
  pub every : (id : ℕ) → (n : ℕ) × CountsTo n (client_numbers id out)
  pub known : (id : ℕ) (c : ClientSession) → find id sessions ≡ some c → id ≤ last
  pub unknown : (id : ℕ) → last < id → client_numbers id out ≡ []

-- The session ids do not wrap around.
abbrev pub FewSessions : Granted
FewSessions Event.connection w = w.shared.next_session_id + 1 < u64
FewSessions _ w = Unit {0}

-- The list with one more number.
Counts_more :
    (m k : ℕ) (ns : List ℕ) → m ≡ (k + 1) % u64 → CountsTo k ns → CountsTo ((k + 1) % u64) (m ∷ ns)
Counts_more m k ns e v = (e, (k, refl, v))

module _ {sessions : Map ℕ ClientSession} {out : List Output} {last : ℕ}
    (v : IsCounted sessions out last) where
  module _ (id : ℕ) (c : ClientSession) (there : find id sessions ≡ some c) where
    -- A session that is put back, whose last number is that of its last message.
    put_back :
        (d : ClientSession) (out' : List Output)
        → CountsTo d.outbound_msg_seq_num (client_numbers id out')
        → ((i : ℕ) → nat_beq id i ≡ false → client_numbers i out' ≡ client_numbers i out)
        → IsCounted (assign id d sessions) out' last
    put_back d out' counts others = record {
      own = λ i x e. elim (found_assigned id i d x sessions e) [
        | inl (same, is) ↦
            subst (λ j. CountsTo x.outbound_msg_seq_num (client_numbers j out')) same
              (subst
                (λ (y : ClientSession). CountsTo y.outbound_msg_seq_num (client_numbers id out')) is
                counts)
        | inr (other, e) ↦ rw (others i other) (v.own i x e)
      ];
      every = λ i. elim (Bool-cases (nat_beq id i)) [
        | inl same ↦
            subst (λ j. (n : ℕ) × CountsTo n (client_numbers j out')) ((nat_beq_iff id i).0 same)
              (d.outbound_msg_seq_num, counts)
        | inr other ↦ rw (others i other) (v.every i)
      ];
      known = λ i x e. elim (found_assigned id i d x sessions e) [
        | inl (same, is) ↦ subst (λ j. j ≤ last) same (v.known id c there)
        | inr (other, e) ↦ v.known i x e
      ];
      unknown = λ i l. elim (Bool-cases (nat_beq id i)) [
        | inl same ↦ absurd (ground (arith, (nat_beq_iff id i).0 same, v.known id c there, l))
        | inr other ↦ rw (others i other) (v.unknown i l)
      ];
    }

    -- A message to a client: the session has its number.
    sent-IsCounted :
        (h : Header) (b : Body)
        → h.msg_seq_num ≡ (c.outbound_msg_seq_num + 1) % u64
        → IsCounted
            (assign id
              (record c { outbound_msg_seq_num = (c.outbound_msg_seq_num + 1) % u64 })
              sessions)
            (Output.to_client id h b ∷ out)
            last
    sent-IsCounted h b number =
        put_back _ _
          (rw ((nat_beq_iff id id).1 refl) (
            Counts_more h.msg_seq_num c.outbound_msg_seq_num (client_numbers id out) number
              (v.own id c there)))
          (λ i other. rw other refl)

    changed-IsCounted :
        (d : ClientSession)
        → d.outbound_msg_seq_num ≡ c.outbound_msg_seq_num
        → IsCounted (assign id d sessions) out last
    changed-IsCounted d same = put_back d out (rw same (v.own id c there)) (λ i other. refl)

  -- Sessions that are removed.
  lost-IsCounted : (ids : List ℕ) → IsCounted (erase_all ids sessions) out last
  lost-IsCounted ids = record {
    own = λ i x e. v.own i x (kept i x e);
    every = v.every;
    known = λ i x e. v.known i x (kept i x e);
    unknown = v.unknown;
  }
    where
      kept :
          (i : ℕ) (x : ClientSession)
          → find i (erase_all ids sessions) ≡ some x
          → find i sessions ≡ some x
      kept i x e = ground (arith, find-erase_all ids i sessions)

  -- A session under the next id.
  opened-IsCounted :
      (c : ClientSession)
      → c.outbound_msg_seq_num ≡ 0
      → IsCounted (try_emplace (last + 1) c sessions) out (last + 1)
  opened-IsCounted c none_sent = record {
    own = λ i x e. elim (found_opened i x e) [
      | inl (same, is) ↦
          rw (← same, v.unknown (last + 1) (omega arith))
            (ap (λ (y : ClientSession). y.outbound_msg_seq_num) (sym is) ∙ none_sent)
      | inr e ↦ v.own i x e
    ];
    every = v.every;
    known = λ i x e. elim (found_opened i x e) [
      | inl (same, is) ↦ omega (arith, same)
      | inr e ↦ omega (arith, v.known i x e)
    ];
    unknown = λ i l. v.unknown i (omega arith);
  }
    where
      found_opened :
          (i : ℕ) (x : ClientSession)
          → find i (try_emplace (last + 1) c sessions) ≡ some x
          → ((last + 1 ≡ i) × (c ≡ x)) ⊎ (find i sessions ≡ some x)
      found_opened i x e = ground (
        arith,
        find-try_emplace (last + 1) i c sessions,
        nat_beq_iff (last + 1) i,
        v.known (last + 1) c,
      )

Counted : Sight
Counted s flag sessions out last ids due = IsCounted sessions out last

-- What is done to another connection.
module _ (w : World) (o : Output)
    (same : (i : ℕ) → client_numbers i (o ∷ w.out) ≡ client_numbers i w.out) where
  other-Counted : Sees Counted w → Sees Counted (record w { out = o ∷ w.out })
  unfolding Counted
  other-Counted h = record {
    own = λ i c e. rw (same i) (h.own i c e);
    every = λ i. rw (same i) (h.every i);
    known = h.known;
    unknown = λ i l. rw (same i) (h.unknown i l);
  }

Keeps-send_helper : (t : MsgType) (b : Body) → Keeps (Sees Counted) (send_helper t b)
unfolding send_helper Counted
Keeps-send_helper t b = record { at = λ w h. other-Counted w (Output.to_server _ b) (λ i. refl) h }

Counted-IsStable : IsStable (Sees Counted)
unfolding Counted emit
Counted-IsStable =
    Sees-IsStable Counted Keeps-send_helper
      (Keeps-send Counted (λ id c x b w there number h. sent-IsCounted h id c there x b number))
      (λ id. record { at = λ w h. other-Counted w (Output.close_client id) (λ i. refl) h })
      (λ id c d w there same alive dead h. changed-IsCounted h id c there d same)
      (Keeps-become_zombie Counted (λ id c w e h. changed-IsCounted h id c e _ refl))
      (λ ids w more h. h)

Counted-IsLasting : IsLasting (Sees Counted)
unfolding Counted on_logon set_ready modify_server ◌>>◌ emit
Counted-IsLasting = record {
  stable = Counted-IsStable;
  server_changed = λ s w state same h. h;
  logged_on = record { at = λ w h. h };
  flag_lowered = λ w h. h;
  clock_changed = λ c w h. h;
  sent_to_auth = λ t. record { at = λ w h. other-Counted w (Output.to_auth t) (λ i. refl) h };
  collected = Keeps-collect Counted (λ ids due w h all. lost-IsCounted h ids);
}

Keeps-connected : Keeps (Sees Counted) on_connected
unfolding Counted on_connected modify_server send_logon send_admin
Keeps-connected =
    Keeps-then (record { at = λ w h. (Keeps-send_helper _ _).at w h }) (record { at = λ w h. h })

Counted-IsInvariant : IsInvariant FewSessions (Sees Counted)
unfolding Counted on_connection
Counted-IsInvariant = record {
  lasting = Counted-IsLasting;
  connection = λ c w few h.
      let e : (w.shared.next_session_id + 1) % u64 ≡ w.shared.next_session_id + 1 =
        omega (arith, few) in
      rw e (opened-IsCounted h (new_session _) refl);
  connected = λ c w a h. Keeps-connected.at _ h;
  server_reset = λ u a w down h. h;
}

module _ ⦃ext : Externals⦄ where
  -- In every state that the event loop reaches from one where it is so, with fewer than 2 ^ 64
  -- sessions, the numbers of the messages to each client count from 1 without a gap, modulo 2 ^ 64, the last number
  -- being the one that the client's session has used last where that session is still there.
  pub Reach-IsCounted :
      (w v : World) (r : Reach w v)
      → Along FewSessions r
      → IsCounted w.sessions w.out w.shared.next_session_id
      → IsCounted v.sessions v.out v.shared.next_session_id
  unfolding Counted
  Reach-IsCounted w v r a h = Reach-Q FewSessions (Sees Counted) Counted-IsInvariant w v r a h
