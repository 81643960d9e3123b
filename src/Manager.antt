-- ===== src/Manager.antt =====
-- The client manager (src/roq/proxy/fix/client/manager.{hpp,cpp}): new sessions, the timer, and the
-- removal of zombies.
pub mod Removal
use roq_fix_proxy.Prelude.{ℕ, ◌+◌, ◌%◌, false, List, [], ◌∷◌, ltb, nat_eq, if◌then◌else◌}
use roq_fix_proxy.Prelude.Map.{Map, erase, try_emplace}
use roq_fix_proxy.Prelude.Effect.{ok, ◌>>=◌, ◌>>◌, gets, for_each}
use roq_fix_proxy.Externals.{Externals}
use roq_fix_proxy.Shared
use roq_fix_proxy.Shared.{Shared, u64}
use roq_fix_proxy.World.{World, ClientState, ClientSession}
use roq_fix_proxy.World.Access.{Method}
use roq_fix_proxy.Server.Inbound.{session_ids}
use roq_fix_proxy.Client

-- A session as its constructor leaves it.
abbrev pub new_session : ℕ → ClientSession
new_session logon_timeout = record {
  logon_timeout = logon_timeout;
  state = ClientState.waiting_logon;
  outbound_msg_seq_num = 0;
  inbound_msg_seq_num = 0;
  comp_id = [];
  username = [];
  user_response_timeout = 0;
  party_id = [];
  next_heartbeat = 0;
  waiting_for_heartbeat = false;
}

-- The operator on Factory.
unfoldable pub on_connection : Method
on_connection w =
    let session_id = (w.shared.next_session_id + 1) % u64 in
    (
      ok tt,
      record w {
        shared = record w.shared { next_session_id = session_id };
        sessions =
            try_emplace session_id
              (new_session (w.clock.system + w.shared.settings.client.logon_timeout)) w.sessions;
      },
    )

unfoldable pub erase_all : List ℕ → Map ℕ ClientSession → Map ℕ ClientSession
erase_all [] m = m
erase_all (id ∷ rest) m = erase_all rest (erase id m)

-- GARBAGE_COLLECTION_FREQUENCY in nanoseconds
abbrev pub garbage_collection_frequency : ℕ
garbage_collection_frequency = 1000000000

unfoldable pub remove_zombies : ℕ → Method
unfolding erase_all Shared.session_cleanup
remove_zombies now w =
    if ltb now w.next_garbage_collection
    then (ok tt, w)
    else let (ids, s) = Shared.session_cleanup w.shared in
      (
        ok tt,
        record w {
          shared = s;
          sessions = erase_all ids w.sessions;
          next_garbage_collection = now + garbage_collection_frequency;
        },
      )

module _ ⦃ext : Externals⦄ where
  unfoldable pub on_timer : ℕ → Method
  unfolding for_each Client.Read.on_timer remove_zombies
  on_timer now = do
    ids ← gets (λ (w : World). session_ids w.sessions)
    for_each ids (Client.Read.on_timer now)
    remove_zombies now
