-- ===== src/Invariant/Numbers.antt =====
-- The numbers of the messages to the server, in every state that the event loop reaches
-- (server/session.cpp, `send_helper` and the operator on Disconnected).
use roq_fix_proxy.Prelude.{
  ℕ, ◌+◌, ◌%◌, ◌≡◌, refl, inl, inr, sym, ap, ◌∙◌, subst, Bool, true, false, Bool-cases,
  if◌then◌else◌, List, [], ◌∷◌,
}
use roq_fix_proxy.Prelude.Effect.{Result, ok, err, resume, Keeps, Keeps-then, ◌>>◌}
use roq_fix_proxy.Externals.{Externals}
use roq_fix_proxy.Message.Enums.{MsgType}
use roq_fix_proxy.Shared.{u64}
use roq_fix_proxy.World.{World, Body, Output, Clock}
use roq_fix_proxy.World.Access.{emit}
use roq_fix_proxy.Server.Send.{send_helper, send_logon, send_admin, server_header}
use roq_fix_proxy.Server.Inbound.{on_logon, on_connected, on_disconnected, set_ready, modify_server}
use roq_fix_proxy.Manager.{on_connection}
use roq_fix_proxy.Events.{Event, handle, turn, Reach, here, next}
use roq_fix_proxy.Invariant.{IsStable, IsLasting}
use roq_fix_proxy.Invariant.Loop.{Granted, IsInvariant, Keeps-turn, new_server}
use roq_fix_proxy.Invariant.Loss.{server_disconnected-AllZombies}
use roq_fix_proxy.Invariant.Sight.{
  Keeps-become_zombie, Keeps-collect, Keeps-send_freely, Sight, Sees, Sees-IsStable,
}

-- The numbers of the messages to the server, the latest first.
abbrev pub server_numbers : List Output → List ℕ
server_numbers [] = []
server_numbers (Output.to_server h b ∷ out) = h.msg_seq_num ∷ server_numbers out
server_numbers (Output.to_client id h b ∷ out) = server_numbers out
server_numbers (Output.close_client id ∷ out) = server_numbers out
server_numbers (Output.close_server ∷ out) = server_numbers out
server_numbers (Output.to_auth t ∷ out) = server_numbers out

-- The numbers `ms` are `ns` and, before them, those that are counted up from `k`; the last number is `n`.
pub data CountsOn (k : ℕ) (ns : List ℕ) : ℕ → List ℕ → Type 0 where
  silent : CountsOn k ns k ns
  sent :
      (n : ℕ) (ms : List ℕ)
      → CountsOn k ns n ms
      → CountsOn k ns ((n + 1) % u64) ((n + 1) % u64 ∷ ms)

Numbered : ℕ → List ℕ → Sight
Numbered k ns s flag sessions out last ids due =
    CountsOn k ns s.outbound_msg_seq_num (server_numbers out)

module _ (k : ℕ) (ns : List ℕ) where
  Keeps-send_helper : (t : MsgType) (b : Body) → Keeps (Sees (Numbered k ns)) (send_helper t b)
  unfolding Numbered send_helper server_header
  Keeps-send_helper t b = record { at = λ w h. CountsOn.sent _ _ h }

  Numbered-IsStable : IsStable (Sees (Numbered k ns))
  unfolding Numbered emit
  Numbered-IsStable =
      Sees-IsStable (Numbered k ns) Keeps-send_helper
        (Keeps-send_freely (Numbered k ns) (λ m w h. h) (λ id x b w h. h))
        (λ id. record { at = λ w h. h }) (λ id c d w there same alive dead h. h)
        (Keeps-become_zombie (Numbered k ns) (λ id c w e h. h)) (λ ids w more h. h)

  Numbered-IsLasting : IsLasting (Sees (Numbered k ns))
  unfolding Numbered on_logon set_ready modify_server ◌>>◌ emit
  Numbered-IsLasting = record {
    stable = Numbered-IsStable;
    server_changed = λ s w state same h. rw same h;
    logged_on = record { at = λ w h. h };
    flag_lowered = λ w h. h;
    clock_changed = λ c w h. h;
    sent_to_auth = λ t. record { at = λ w h. h };
    collected = Keeps-collect (Numbered k ns) (λ ids due w h all. h);
  }

  Keeps-connected : Keeps (Sees (Numbered k ns)) on_connected
  unfolding Numbered on_connected modify_server send_logon send_admin send_helper server_header
  Keeps-connected =
      Keeps-then (record { at = λ w h. CountsOn.sent _ _ h }) (record { at = λ w h. h })

-- Whether an event ends the server's connection.
abbrev pub is_lost : Event → Bool
is_lost Event.server_disconnected = true
is_lost Event.connection = false
is_lost (Event.client_read id ms) = false
is_lost (Event.client_disconnected id) = false
is_lost Event.server_connected = false
is_lost (Event.server_read ms) = false
is_lost Event.auth_ready = false
is_lost (Event.auth_text t) = false
is_lost (Event.timer now) = false

-- The event does not end the server's connection.
abbrev Stays : Granted
Stays e w = is_lost e ≡ false

Numbered-IsInvariant : (k : ℕ) (ns : List ℕ) → IsInvariant Stays (Sees (Numbered k ns))
unfolding Numbered on_connection
Numbered-IsInvariant k ns = record {
  lasting = Numbered-IsLasting k ns;
  connection = λ c w a h. h;
  connected = λ c w a h. (Keeps-connected k ns).at _ h;
  server_reset = λ u a w down h. absurd cc;
}

-- After the loss of the connection the last number is 0.
module _ ⦃ext : Externals⦄ where
  after_loss :
      (r : Result (Unit {0})) (v : World)
      → r ≡ ok tt
      → (resume r (λ _. modify_server (λ s. new_server)) v).1.server.outbound_msg_seq_num ≡ 0
  unfolding modify_server
  after_loss (ok tt) v e = refl
  after_loss (err x) v e = absurd cc

  lost :
      (c : Clock) (e : Event) (w : World)
      → is_lost e ≡ true
      → (turn c e w).1.server.outbound_msg_seq_num ≡ 0
  unfolding turn handle on_disconnected ◌>>◌
  lost c Event.server_disconnected w e =
      after_loss _ _ (server_disconnected-AllZombies (record w { clock = c })).0
  lost c Event.connection w e = absurd cc
  lost c (Event.client_read id ms) w e = absurd cc
  lost c (Event.client_disconnected id) w e = absurd cc
  lost c Event.server_connected w e = absurd cc
  lost c (Event.server_read ms) w e = absurd cc
  lost c Event.auth_ready w e = absurd cc
  lost c (Event.auth_text t) w e = absurd cc
  lost c (Event.timer now) w e = absurd cc

  -- From where the messages of the present connection are counted: the last number and the numbers sent
  -- so far, when the connection was lost last or else when the history begins.
  abbrev pub base : {w v : World} → Reach w v → ℕ × List ℕ
  base {w} {v} here = (w.server.outbound_msg_seq_num, server_numbers w.out)
  base {w} {v} (next c e r s) = if is_lost e then (0, server_numbers v.out) else base r

  -- The messages to the server are counted on from there.
  abbrev pub IsNumbered : {w v : World} → Reach w v → Type 0
  IsNumbered {w} {v} r =
      CountsOn (base r).0 (base r).1 v.server.outbound_msg_seq_num (server_numbers v.out)

  turned :
      (c : Clock) (e : Event) (u v : World) (p : ℕ × List ℕ)
      → turn c e u ≡ (ok tt, v)
      → CountsOn p.0 p.1 u.server.outbound_msg_seq_num (server_numbers u.out)
      → CountsOn
          (if is_lost e then (0, server_numbers v.out) else p).0
          (if is_lost e then (0, server_numbers v.out) else p).1
          v.server.outbound_msg_seq_num
          (server_numbers v.out)
  unfolding Numbered
  turned c e u v p s h = elim (Bool-cases (is_lost e)) [
    | inl gone ↦
        rw
          (
            gone,
            sym (ap (λ (x : Result (Unit {0}) × World). x.1.server.outbound_msg_seq_num) s)
                ∙ lost c e u gone,
          )
          CountsOn.silent
    | inr stays ↦ rw stays (
        subst (λ (x : Result (Unit {0}) × World). Sees (Numbered p.0 p.1) x.1) s
          (Keeps-turn Stays (Sees (Numbered p.0 p.1)) (Numbered-IsInvariant p.0 p.1) c e u stays h))
  ]

  -- In every state that the event loop reaches: the messages to the server since its connection was lost
  -- last have the numbers 1, 2, 3 and so on, without a gap and modulo 2 ^ 64, and the counter of the server
  -- session is the last of them, or 0 if there is none. Where the connection was not lost, the numbers go
  -- on from the counter that the history began with.
  pub Reach-IsNumbered : (w v : World) (r : Reach w v) → IsNumbered r
  Reach-IsNumbered w v here = CountsOn.silent
  Reach-IsNumbered w v (next {u} c e r s) = turned c e u v (base r) s (Reach-IsNumbered w u r)
