-- ===== src/Mapping.antt =====
-- The request id mappings of the controller (src/roq/proxy/fix/controller.hpp, struct Mapping, and
-- add_req_id, remove_req_id and clear_req_ids of controller.cpp): which session made the request
-- that the server knows by an id, and under which id of its own.
pub mod Laws
pub mod Routing
pub mod Clearing
use roq_fix_proxy.Prelude.{ℕ, Bool, true, false, Option, none, some, [], ◌∷◌, nat_eq, if◌then◌else◌}
use roq_fix_proxy.Prelude.Text.{Text, text_eq, is_empty}
use roq_fix_proxy.Prelude.Map.{Map, find, erase, assign, try_emplace}

-- {session_id, req_id(client), keep_alive}
pub record Route : Type 0 where
  pub session_id : ℕ
  pub req_id : Text
  pub keep_alive : Bool

pub record Mapping : Type 0 where
  -- req_id(server) => {session_id, req_id(client), keep_alive}
  pub server_to_client : Map Text Route
  -- session_id => req_id(client) => req_id(server)
  pub client_to_server : Map ℕ (Map Text Text)

abbrev pub empty : Mapping
empty = record { server_to_client = []; client_to_server = [] }

-- The entries of a session, none if the session has no entry.
abbrev pub entries : Option (Map Text Text) → Map Text Text
entries none = []
entries (some m) = m

-- client_to_server.find(req_id) on the entry of the session
unfoldable pub find_client : ℕ → Text → Mapping → Option Text
find_client session_id req_id m = find req_id (entries (find session_id m.client_to_server))

-- mapping.client_to_server[session_id]: makes an empty entry where there is none.
unfoldable pub open_client : ℕ → Mapping → Mapping
open_client session_id m = record m {
  client_to_server = try_emplace session_id [] m.client_to_server;
}

-- client_to_server.emplace(req_id, request_id) on the entry of the session
unfoldable pub emplace_client : ℕ → Text → Text → Mapping → Mapping
emplace_client session_id req_id request_id m = record m {
  client_to_server =
      assign session_id
        (try_emplace req_id request_id (entries (find session_id m.client_to_server)))
        m.client_to_server;
}

-- mapping.server_to_client.try_emplace(request_id, session_id, req_id, keep_alive)
unfoldable pub emplace_server : Text → Route → Mapping → Mapping
emplace_server request_id route m = record m {
  server_to_client = try_emplace request_id route m.server_to_client;
}

unfoldable pub add_req_id : Text → Text → ℕ → Bool → Mapping → Mapping
unfolding emplace_client emplace_server
add_req_id req_id request_id session_id keep_alive m =
    emplace_server request_id
      (record { session_id = session_id; req_id = req_id; keep_alive = keep_alive })
      (emplace_client session_id req_id request_id m)

-- The entry of the session put back, or dropped once it is empty.
unfoldable pub store_client : ℕ → Map Text Text → Mapping → Mapping
store_client session_id [] m = record m { client_to_server = erase session_id m.client_to_server }
store_client session_id (entry ∷ rest) m = record m {
  client_to_server = assign session_id (entry ∷ rest) m.client_to_server;
}

-- (*iter_2).second.erase(client_req_id), where the session has an entry
unfoldable pub erase_client : ℕ → Text → Mapping → Mapping
unfolding store_client
erase_client session_id req_id m = elim (find session_id m.client_to_server) [
  | none ↦ m
  | some inner ↦ store_client session_id (erase req_id inner) m
]

-- mapping.server_to_client.erase(req_id)
unfoldable pub erase_server : Text → Mapping → Mapping
erase_server req_id m = record m { server_to_client = erase req_id m.server_to_client }

-- The result and the mapping afterwards.
unfoldable pub remove_req_id : Text → Mapping → Bool × Mapping
unfolding erase_client erase_server
remove_req_id req_id m =
    if is_empty req_id then (true, m) else elim (find req_id m.server_to_client) [
      | none ↦ (false, m)
      | some route ↦ (true, erase_server req_id (erase_client route.session_id route.req_id m))
    ]

-- keep_alive of the entry of a request that the server knows
unfoldable pub set_keep_alive : Text → Bool → Mapping → Option Mapping
set_keep_alive request_id keep_alive m = elim (find request_id m.server_to_client) [
  | none ↦ none
  | some route ↦ some (record m {
    server_to_client =
        assign request_id (record route { keep_alive = keep_alive }) m.server_to_client;
  })
]

-- mapping.client_to_server.erase(iter)
unfoldable pub close_client : ℕ → Mapping → Mapping
close_client session_id m = record m { client_to_server = erase session_id m.client_to_server }
