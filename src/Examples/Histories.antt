-- ===== src/Examples/Histories.antt =====
-- The theorems on histories at a concrete one: the proxy starts, two clients connect, one sends a
-- request before its logon, and the gateway comes up and accepts the proxy's logon.
use roq_fix_proxy.Prelude.{
  ℕ, if◌then◌else◌, ◌≡◌, nat_eq, ◌≢◌, some, false, ltb, arith, refl, [], ◌∷◌,
}
use roq_fix_proxy.Prelude.Text.{codes, text_beq}
use roq_fix_proxy.Prelude.Map.{find, assign, try_emplace}
use roq_fix_proxy.Prelude.Effect.{ok, ◌>>=◌, ◌>>◌}
use roq_fix_proxy.Shared.{session_remove}
use roq_fix_proxy.Crypto.{parse_method}
use roq_fix_proxy.World.{World, ClientState, ClientSession}
use roq_fix_proxy.Message.Response.{Admin}
use roq_fix_proxy.Client.Inbound.{ClientMessage}
use roq_fix_proxy.Client.Read
use roq_fix_proxy.Server.Inbound
use roq_fix_proxy.Server.Inbound.{ServerMessage}
use roq_fix_proxy.Manager.{on_connection}
use roq_fix_proxy.Events.{Event, Reach, here, next, turn, on_timer}
use roq_fix_proxy.Invariant.Overdue.{is_overdue}
use roq_fix_proxy.Invariant.Timer.{on_timer-Clean}
use roq_fix_proxy.Invariant.Loop.{Along}
use roq_fix_proxy.Invariant.Returning.{IsHonest}
use roq_fix_proxy.Invariant.Honest.{Orderly, Reach-IsHonest}
use roq_fix_proxy.Invariant.Numbers.{IsNumbered, Reach-IsNumbered}
use roq_fix_proxy.Invariant.Counts.{IsCounted, FewSessions, Reach-IsCounted}
use roq_fix_proxy.Invariant.Gone.{IsGone, Reach-IsGone}
use mathlib.Core.Option.{some-injective}
use roq_fix_proxy.Prelude.{ap, sym}
use roq_fix_proxy.Invariant.Noted.{AreNoted, Reach-AreNoted}
use roq_fix_proxy.Startup.{start, new_world, new_shared}
use roq_fix_proxy.Startup.Histories.{IsSound, start-IsSound}
use roq_fix_proxy.Examples.Data.{settings, header, md_request, config, clock, started, plain}
use roq_fix_proxy.Examples.Runs.{logon}

abbrev after : Event → World → World
after e w = (turn clock e w).1

abbrev request : Event
request = Event.client_read 1 ((header, ClientMessage.request (md_request (codes "n"))) ∷ [])

abbrev accepted : Event
accepted = Event.server_read ((header, ServerMessage.admin (Admin.logon logon)) ∷ [])

abbrev connected : World
connected = after Event.connection (after Event.connection started)

abbrev rejected : World
rejected = after request connected

abbrev greeted : World
greeted = after Event.server_connected rejected

abbrev up : World
up = after accepted greeted

history : Reach started up
unfolding turn find text_beq on_connection Read.on_read ◌>>=◌ try_emplace new_world new_shared ◌>>◌
    assign Inbound.on_connected Inbound.on_read
history =
    next clock accepted
      (next clock Event.server_connected
        (next clock request
          (next clock Event.connection (next clock Event.connection here refl) refl) refl)
        refl)
      refl

history-Orderly : Along Orderly history
unfolding history turn on_connection Read.on_read try_emplace ◌>>◌ ◌>>=◌ assign new_world find
history-Orderly = (((((tt, tt), tt), tt), refl), tt)

history-FewSessions : Along FewSessions history
unfolding history turn on_connection new_world new_shared
history-FewSessions = (((((tt, omega arith), omega arith), tt), tt), tt)

started-IsSound : IsSound {w = started} {v = started} here
unfolding start parse_method
started-IsSound =
    start-IsSound settings config (codes "tcp" ∷ []) clock started started refl here tt tt

start-IsSound_example : IsSound history
unfolding start parse_method
start-IsSound_example =
    start-IsSound settings config (codes "tcp" ∷ []) clock started up refl history history-Orderly
      history-FewSessions

Reach-IsHonest_example : IsHonest up
Reach-IsHonest_example =
    Reach-IsHonest started up history history-Orderly started-IsSound.settled.honest

Reach-IsNumbered_example : IsNumbered history
Reach-IsNumbered_example = Reach-IsNumbered started up history

Reach-IsCounted_example : IsCounted up.sessions up.out up.shared.next_session_id
Reach-IsCounted_example =
    Reach-IsCounted started up history history-FewSessions started-IsSound.settled.counted

Reach-AreNoted_example : AreNoted up.sessions up.shared.sessions_to_remove
Reach-AreNoted_example = Reach-AreNoted started up history started-IsSound.settled.noted

-- The second client has let the time pass for its logon.
on_timer-Clean_example :
    ((on_timer 10 up).0 ≡ ok tt)
    × ((id : ℕ) (d : ClientSession)
        → find id (on_timer 10 up).1.sessions ≡ some d
        → (c : ClientSession) × (find id up.sessions ≡ some c)
          × (d.state ≡ (if is_overdue 10 c.state c then ClientState.zombie else c.state))
          × (is_overdue 10 d.state d ≡ false))
    × (ltb 10 up.next_garbage_collection ≡ false
        → (id : ℕ) (c : ClientSession) → find id (on_timer 10 up).1.sessions ≡ some c
        → c.state ≢ ClientState.zombie)
on_timer-Clean_example = on_timer-Clean 10 up Reach-IsHonest_example Reach-AreNoted_example

-- The first client, whose request was rejected.
rejected-IsGone : IsGone 1 rejected.sessions rejected.shared.next_session_id
unfolding turn find text_beq on_connection Read.on_read ◌>>=◌ try_emplace new_world new_shared ◌>>◌
    assign session_remove
rejected-IsGone = record {
  past = omega arith;
  dead = λ c e. ap (λ (s : ClientSession). s.state) (some-injective _ _ (sym e));
}

since : Reach rejected up
unfolding turn Inbound.on_connected ◌>>◌ Inbound.on_read
since = next clock accepted (next clock Event.server_connected here refl) refl

Reach-IsGone_example : IsGone 1 up.sessions up.shared.next_session_id
unfolding since
Reach-IsGone_example = Reach-IsGone 1 rejected up since ((tt, tt), tt) rejected-IsGone
