-- ===== src/Invariant/Overdue.antt =====
-- What the timer does to one session (client/session.cpp, the operator on Event<Timer>): a session that
-- is overdue is dropped.
use roq_fix_proxy.Prelude.{
  ℕ, ◌+◌, ◌≡◌, refl, ◌∙◌, ap, Bool, true, false, ◌&&◌, some, arith, nat_eq, ltb, if◌then◌else◌,
  Bool-cases, inl, inr,
}
use roq_fix_proxy.Prelude.Text.{codes}
use roq_fix_proxy.Prelude.Map.{find, assign, find-assign}
use roq_fix_proxy.Prelude.Effect.{Result, ok, ◌>>=◌, ◌>>◌, skip}
use roq_fix_proxy.Externals.{Externals}
use roq_fix_proxy.Message.Response.{Admin}
use roq_fix_proxy.World.{World, ClientState, ClientSession}
use roq_fix_proxy.World.Access.{session_at, modify_session}
use roq_fix_proxy.Client.Connection.{close, send_admin, send_and_close}
use roq_fix_proxy.Client.Read.{timed_out, probe, ping, timer_from, on_timer}
use roq_fix_proxy.Client.Gate.{stored, counted, told, send_admin-told}
use roq_fix_proxy.Invariant.Each.{Replaced-trans, Settled, Settled-trans, same_session}
use roq_fix_proxy.Invariant.Returning.{IsHonest}
use roq_fix_proxy.Invariant.Dropping.{made, closing, close_live}
use roq_fix_proxy.Invariant.Sweep.{Honest-LetsDrop}

-- A session that has let a time limit pass: for its logon, for the server's answer on its user, or for
-- the answer to a test request.
abbrev pub is_overdue : ℕ → ClientState → ClientSession → Bool
is_overdue now ClientState.waiting_logon c = ltb c.logon_timeout now
is_overdue now ClientState.waiting_create_route c = ltb c.user_response_timeout now
is_overdue now ClientState.waiting_remove_route c = ltb c.user_response_timeout now
is_overdue now ClientState.ready c = ltb c.next_heartbeat now && c.waiting_for_heartbeat
is_overdue now ClientState.zombie c = false

-- The state of a session once its time limits were looked at.
abbrev pub state_after : ℕ → ClientSession → ClientState
state_after now c = if is_overdue now c.state c then ClientState.zombie else c.state

-- The session `c` is `d` now: it was dropped if it was overdue, and only then, and is not overdue any more.
abbrev pub IsSwept : ℕ → ClientSession → ClientSession → Type 0
IsSwept now c d = (d.state ≡ state_after now c) × (is_overdue now d.state d ≡ false)

pub IsSwept-trans :
    (now : ℕ) (b c d : ClientSession) → IsSwept now b c → IsSwept now c d → IsSwept now b d
IsSwept-trans now b c d (e, fine) (f, done) = (f ∙ (rw fine refl ∙ e), done)

modified :
    (id : ℕ) (c : ClientSession) (w : World) (f : ClientSession → ClientSession)
    → find id w.sessions ≡ some c
    → modify_session id f w ≡ (ok tt, record w { sessions = assign id (f c) w.sessions })
unfolding modify_session ◌>>=◌
modified id c w f there = rw (there, session_at) refl

module _ ⦃ext : Externals⦄ (now id : ℕ) where
  abbrev Swept : ClientSession → World → Result (Unit {0}) × World → Type 0
  Swept b w x = Settled IsHonest (IsSwept now) b id w x

  -- Nothing is done to a session that is not overdue.
  skip-Swept :
      (c : ClientSession) (w : World)
      → find id w.sessions ≡ some c
      → IsHonest w
      → is_overdue now c.state c ≡ false
      → Swept c w (skip w)
  unfolding skip
  skip-Swept c w there h fine = (refl, h, (c, same_session id c w there, (rw fine refl, fine)))

  -- What was overdue at first is dropped.
  module _ (b : ClientSession) (late : is_overdue now b.state b ≡ true) where
    close-Swept :
        (c : ClientSession) (w : World)
        → (c.state ≡ ClientState.zombie → ⊥)
        → find id w.sessions ≡ some c
        → IsHonest w
        → Swept b w (close id w)
    close-Swept c w live there h = rw (close_live id c w live there) (
        let x =
          made IsHonest Honest-LetsDrop id c c.state (closing id c w) live there
            (record { at = h.at }) in
        (
          x.0,
          x.1,
          (
            record c { state = ClientState.zombie },
            (λ i. ap (find i) x.2 ∙ find-assign id i _ w.sessions),
            (rw late refl, refl),
          ),
        ))

    send_and_close-Swept :
        (c : ClientSession) (a : Admin) (w : World)
        → (c.state ≡ ClientState.zombie → ⊥)
        → find id w.sessions ≡ some c
        → IsHonest w
        → Swept b w (send_and_close id a w)
    unfolding send_and_close ◌>>◌
    send_and_close-Swept c a w live there h =
        rw (send_admin-told id c a w there, send_and_close)
          (Settled-trans IsHonest (IsSwept now) b id (counted c) w (told id c a w) _
            (λ i. find-assign id i (counted c) w.sessions)
            (close-Swept (counted c) (told id c a w) live (stored id (counted c) w)
              (record { at = h.at })))

  timed_out-Swept :
      (c : ClientSession) (w : World)
      → (c.state ≡ ClientState.zombie → ⊥)
      → find id w.sessions ≡ some c
      → IsHonest w
      → is_overdue now c.state c ≡ ltb c.user_response_timeout now
      → Swept c w (timed_out id now c w)
  unfolding timed_out
  timed_out-Swept c w live there h e = elim (Bool-cases (ltb c.user_response_timeout now)) [
    | inl late ↦ rw late (send_and_close-Swept c (e ∙ late) c _ w live there h)
    | inr early ↦ rw early (skip-Swept c w there h (e ∙ early))
  ]

  -- The session `b` that was ready, after its time for the next heartbeat was passed and put off.
  module _ (b : ClientSession) (ready : b.state ≡ ClientState.ready)
      (passed : ltb b.next_heartbeat now ≡ true) (d : ClientSession) (w : World)
      (state : d.state ≡ ClientState.ready) (early : ltb d.next_heartbeat now ≡ false)
      (there : find id w.sessions ≡ some d) (h : IsHonest w) where
    abbrev awaiting : ClientSession
    awaiting = record (counted d) { waiting_for_heartbeat = true }

    abbrev asked : Admin → World
    asked a = record (told id d a w) {
      sessions = assign id awaiting (assign id (counted d) w.sessions);
    }

    asked-Swept :
        (a : Admin)
        → b.waiting_for_heartbeat ≡ false
        → Swept b w (
            (send_admin id a >> modify_session id (λ s. record s { waiting_for_heartbeat = true }))
              w)
    unfolding ◌>>◌
    asked-Swept a calm =
        rw
          (
            send_admin-told id d a w there,
            modified id (counted d) (told id d a w) (λ s. record s { waiting_for_heartbeat = true })
                (stored id (counted d) w),
          )
          (
            refl,
            record { at = h.at },
            (
              awaiting,
              Replaced-trans id (counted d) awaiting w (told id d a w) (asked a)
                  (λ i. find-assign id i (counted d) w.sessions)
                  (λ i. find-assign id i awaiting (assign id (counted d) w.sessions)),
              (rw (ready, passed, calm) state, rw state (rw early refl)),
            ),
          )

    probe-Swept : Swept b w (probe id now b w)
    unfolding probe
    probe-Swept = from b.waiting_for_heartbeat refl
      where
        from :
            (x : Bool)
            → b.waiting_for_heartbeat ≡ x
            → Swept b w (
                (if x
                    then send_and_close id (Admin.logout (codes "MISSING HEARTBEAT"))
                    else (send_admin id (Admin.test_request (ext.format_nanoseconds now))
                        >> modify_session id (λ s. record s { waiting_for_heartbeat = true })))
                  w)
        from true silent =
            send_and_close-Swept b (rw (ready, passed) silent) d _ w (λ z. absurd cc) there h
        from false calm = asked-Swept _ calm

  module _ (c : ClientSession) (w : World) (state : c.state ≡ ClientState.ready)
      (there : find id w.sessions ≡ some c) (h : IsHonest w) where
    abbrev put_off : ClientSession → ClientSession
    put_off s = record s { next_heartbeat = now + w.shared.settings.client.heartbeat_freq }

    abbrev later : World
    later = record w { sessions = assign id (put_off c) w.sessions }

    later-Swept : ltb c.next_heartbeat now ≡ true → Swept c w (probe id now c later)
    later-Swept passed =
        Settled-trans IsHonest (IsSwept now) c id (put_off c) w later _
          (λ i. find-assign id i (put_off c) w.sessions)
          (probe-Swept c state passed (put_off c) later state (ground arith)
            (stored id (put_off c) w) (record { at = h.at }))

    ping-Swept : Swept c w (ping id now c w)
    unfolding ping ◌>>◌
    ping-Swept = elim (Bool-cases (ltb c.next_heartbeat now)) [
      | inl late ↦ rw (late, modified id c w put_off there) (later-Swept late)
      | inr early ↦ rw early (skip-Swept c w there h (rw state (rw early refl)))
    ]

  from-Swept :
      (c : ClientSession) (w : World) (t : ClientState)
      → c.state ≡ t
      → find id w.sessions ≡ some c
      → IsHonest w
      → Swept c w (timer_from t id now c w)
  unfolding timer_from
  from-Swept c w ClientState.waiting_logon e there h = elim (Bool-cases (ltb c.logon_timeout now)) [
    | inl late ↦ rw late (close-Swept c (rw e late) c w (λ z. absurd cc) there h)
    | inr early ↦ rw early (skip-Swept c w there h (rw e early))
  ]
  from-Swept c w ClientState.waiting_create_route e there h =
      timed_out-Swept c w (λ z. absurd cc) there h (rw e refl)
  from-Swept c w ClientState.ready e there h = ping-Swept c w e there h
  from-Swept c w ClientState.waiting_remove_route e there h =
      timed_out-Swept c w (λ z. absurd cc) there h (rw e refl)
  from-Swept c w ClientState.zombie e there h = skip-Swept c w there h (rw e refl)

  pub on_timer-Swept :
      (c : ClientSession) (w : World)
      → find id w.sessions ≡ some c
      → IsHonest w
      → Swept c w (on_timer now id w)
  unfolding on_timer ◌>>◌
  on_timer-Swept c w there h =
      rw (there, on_timer, session_at) (from-Swept c w c.state refl there h)
