-- ===== src/Invariant/Timer.antt =====
-- The timer (controller.cpp, the operator on io::sys::Timer::Event, with the operators on Event<Timer>
-- of server/session.cpp, client/session.cpp and client/manager.cpp).
use roq_fix_proxy.Prelude.{
  ℕ, ◌≡◌, ◌≢◌, if◌then◌else◌, refl, false, some, nat_eq, ltb, leb, arith, Bool-cases, inl, inr,
}
use roq_fix_proxy.Prelude.Map.{Map, find}
use roq_fix_proxy.Prelude.Effect.{
  Result, ok, err, ◌>>◌, resume, for_each, Returns, Keeps-for_each, Returns-skip,
}
use roq_fix_proxy.Externals.{Externals}
use roq_fix_proxy.World.{World, ServerState, ServerSession, ClientState, ClientSession}
use roq_fix_proxy.World.Access.{Method, emit}
use roq_fix_proxy.Server.Send.{send_helper, send_admin, send_test_request}
use roq_fix_proxy.Server.Inbound
use roq_fix_proxy.Server.Inbound.{session_ids, modify_server, heartbeat_due, timer_from}
use roq_fix_proxy.Client
use roq_fix_proxy.Manager
use roq_fix_proxy.Manager.{remove_zombies, erase_all}
use roq_fix_proxy.Manager.Removal.{find-erase_all}
use roq_fix_proxy.Events.{on_timer}
use roq_fix_proxy.Invariant.{IsStable}
use roq_fix_proxy.Invariant.Sight.{Sight, Sees, Sees-IsStable, Keeps-send, Keeps-become_zombie}
use roq_fix_proxy.Invariant.Reads.{Keeps-on_timer}
use roq_fix_proxy.Invariant.Noted.{AreNoted, Noted, Noted-IsStable, none_left}
use roq_fix_proxy.Invariant.Returning.{IsHonest}
use roq_fix_proxy.Invariant.Each.{for_each-Settled}
use roq_fix_proxy.Invariant.Overdue.{IsSwept, IsSwept-trans, is_overdue, on_timer-Swept}

-- When zombies are removed next.
abbrev Due : ℕ → Sight
Due g s flag sessions out last ids due = due ≡ g

Due-IsStable : (g : ℕ) → IsStable (Sees (Due g))
unfolding send_helper emit
Due-IsStable g =
    Sees-IsStable (Due g) (λ t b. record { at = λ w h. h })
      (Keeps-send (Due g) (λ id c x b w there number h. h)) (λ id. record { at = λ w h. h })
      (λ id c d w there same alive dead h. h) (Keeps-become_zombie (Due g) (λ id c w e h. h))
      (λ ids w more h. h)

-- What is known when the timer is called.
record Before (g : ℕ) (m : Map ℕ ClientSession) (w : World) : Type 0 where
  pub same : w.sessions ≡ m
  pub honest : IsHonest w
  pub noted : AreNoted w.sessions w.shared.sessions_to_remove
  pub due : w.next_garbage_collection ≡ g

module _ ⦃ext : Externals⦄ (now g : ℕ) (m : Map ℕ ClientSession) where
  Returns-heartbeat_due : (s : ServerSession) → Returns (Before g m) (heartbeat_due now s)
  unfolding heartbeat_due send_test_request modify_server send_admin send_helper ◌>>◌
  Returns-heartbeat_due s = elim (Bool-cases (leb s.next_heartbeat now)) [
    | inl late ↦ rw late (record {
      at = λ w b. (
        refl,
        record {
          same = b.same;
          honest = record { at = b.honest.at };
          noted = b.noted;
          due = b.due;
        },
      );
    })
    | inr early ↦ rw early Returns-skip
  ]

  Returns-timer_from :
      (t : ServerState) (s : ServerSession) → Returns (Before g m) (timer_from t now s)
  unfolding timer_from
  Returns-timer_from ServerState.ready s = Returns-heartbeat_due s
  Returns-timer_from ServerState.logon_sent s = Returns-skip
  Returns-timer_from ServerState.disconnected s = Returns-skip

  -- What is in the store was there before and was swept.
  abbrev AllSwept : World → Type 0
  AllSwept v =
      (id : ℕ) (d : ClientSession)
      → find id v.sessions ≡ some d
      → (c : ClientSession) × (find id m ≡ some c) × IsSwept now c d

  -- All are swept, and once zombies are to be removed none is left.
  abbrev Clean : Result (Unit {0}) × World → Type 0
  Clean x =
      (x.0 ≡ ok tt)
      × AllSwept x.1
      × (ltb now g ≡ false
          → (id : ℕ) (c : ClientSession) → find id x.1.sessions ≡ some c
          → c.state ≢ ClientState.zombie)

  removal-Clean :
      (v : World)
      → AreNoted v.sessions v.shared.sessions_to_remove
      → v.next_garbage_collection ≡ g
      → AllSwept v
      → Clean (remove_zombies now v)
  unfolding remove_zombies
  removal-Clean v noted due fine = elim (Bool-cases (ltb now g)) [
    | inl early ↦ rw (due, early) (refl, fine, λ l. absurd cc)
    | inr late ↦
        rw (due, late)
          (
            refl,
            (λ id c f.
                fine id c
                  (ground (arith, find-erase_all v.shared.sessions_to_remove id v.sessions, f))),
            λ l id c f z. none_left noted id c f z,
          )
  ]

  goes_on :
      (r : Result (Unit {0})) (v : World) (f : Method)
      → r ≡ ok tt
      → Clean (f v)
      → Clean (resume r (λ _. f) v)
  goes_on (ok tt) v f e clean = clean
  goes_on (err x) v f e clean = absurd cc

  manager-Clean : (w : World) → Before g m w → Clean (Manager.on_timer now w)
  unfolding Manager.on_timer ◌>>◌
  manager-Clean w b =
      let ids = session_ids w.sessions in
      let (o, h, fine) =
        for_each-Settled IsHonest (IsSwept now) (Client.Read.on_timer now)
          (λ id c v there h. on_timer-Swept now id c v there h) (IsSwept-trans now) w b.honest in
      goes_on _ _ (remove_zombies now) o (
        removal-Clean (for_each ids (Client.Read.on_timer now) w).1
          ((Keeps-for_each ids (Keeps-on_timer (Sees Noted) Noted-IsStable now)).at w b.noted)
          ((Keeps-for_each ids (Keeps-on_timer (Sees (Due g)) (Due-IsStable g) now)).at w b.due)
          (λ id d f. let (c, from, p) = fine id d f in (c, rw (← b.same) from, p)))

module _ ⦃ext : Externals⦄ where
  -- When the timer is called while the ready flag is honest and zombies wait for their removal: the call
  -- returns, and each session that is in the store afterwards was there before, is a zombie if it had let
  -- the time pass for its logon, for the server's answer on its user or for its answer to a test request,
  -- is in the same state as before if it had not, and is not overdue itself; and if zombies were to be
  -- removed by then, none is left in the store.
  pub on_timer-Clean :
      (now : ℕ) (w : World)
      → IsHonest w
      → AreNoted w.sessions w.shared.sessions_to_remove
      → ((on_timer now w).0 ≡ ok tt)
        × ((id : ℕ) (d : ClientSession)
            → find id (on_timer now w).1.sessions ≡ some d
            → (c : ClientSession) × (find id w.sessions ≡ some c)
              × (d.state ≡ (if is_overdue now c.state c then ClientState.zombie else c.state))
              × (is_overdue now d.state d ≡ false))
        × (ltb now w.next_garbage_collection ≡ false
            → (id : ℕ) (c : ClientSession) → find id (on_timer now w).1.sessions ≡ some c
            → c.state ≢ ClientState.zombie)
  unfolding on_timer Inbound.on_timer ◌>>◌
  on_timer-Clean now w honest noted =
      let g = w.next_garbage_collection in
      let (o, b) =
        (Returns-timer_from now g w.sessions w.server.state w.server).at w
          (record { same = refl; honest = honest; noted = noted; due = refl }) in
      let x = timer_from w.server.state now w.server w in
      let z : Clean now g w.sessions (on_timer now w) =
        goes_on now g w.sessions x.0 x.1 (Manager.on_timer now) o
          (manager-Clean now g w.sessions x.1 b) in
      (z.0, (λ id d f. let y = z.1 id d f in (y.0, y.1, y.2.0, y.2.1)), z.2)
