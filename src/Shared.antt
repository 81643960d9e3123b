-- ===== src/Shared.antt =====
-- What the sessions share (src/roq/proxy/fix/shared.{hpp,cpp}, error.cpp): the users that may log
-- on, who is logged on in which session, and the source of request ids. The settings are those
-- that the modelled code reads (settings.hpp, flags/*.json).
pub mod Pairing
pub mod Logon
pub mod Users
use roq_fix_proxy.Prelude.{
  ℕ, ◌+◌, ◌%◌, ◌^◌, Bool, true, false, Option, none, some, List, [], ◌∷◌, ◌++◌, nat_eq, nat_beq,
  if◌then◌else◌,
}
use roq_fix_proxy.Prelude.Text.{Text, text_eq, codes}
use roq_fix_proxy.Prelude.Map.{Map, find, erase, assign, try_emplace}
use roq_fix_proxy.Prelude.Effect.{Result, ok, err}
use roq_fix_proxy.Externals.{Externals}
use roq_fix_proxy.Crypto.{Crypto, validate}

pub record ClientSettings : Type 0 where
  pub comp_id : Text
  pub logon_timeout : ℕ
  pub logon_heartbeat_min : ℕ
  pub logon_heartbeat_max : ℕ
  pub heartbeat_freq : ℕ
  pub auth_method : Text
  pub auth_timestamp_tolerance : ℕ

pub record ServerSettings : Type 0 where
  pub username : Text
  pub password : Text
  pub sender_comp_id : Text
  pub target_comp_id : Text
  pub ping_freq : ℕ
  pub request_timeout : ℕ

pub record Settings : Type 0 where
  pub client : ClientSettings
  pub server : ServerSettings
  pub disable_remove_cl_ord_id : Bool

-- error.cpp
abbrev pub not_logged_on : Text
not_logged_on = codes "NOT_LOGGED_ON"

abbrev pub already_logged_on : Text
already_logged_on = codes "ALREADY_LOGGED_ON"

abbrev pub invalid_password : Text
invalid_password = codes "INVALID_PASSWORD"

abbrev pub invalid_username : Text
invalid_username = codes "INVALID_USERNAME"

pub record Shared : Type 0 where
  pub settings : Settings
  pub next_session_id : ℕ
  pub username_to_password_and_strategy_id : Map Text (Text × ℕ)
  pub username_to_session : Map Text ℕ
  pub session_to_username : Map ℕ Text
  pub sessions_to_remove : List ℕ
  pub regex_symbols : List Text
  pub next_request_id : ℕ
  pub crypto : Crypto

-- uint64_t
abbrev pub u64 : ℕ
u64 = 2 ^ 64

-- sessions_to_remove_.emplace(session_id)
unfoldable pub insert_id : ℕ → List ℕ → List ℕ
insert_id session_id [] = session_id ∷ []
insert_id session_id (x ∷ xs) =
    let rest = insert_id session_id xs in if nat_beq x session_id then x ∷ xs else x ∷ rest

unfoldable pub add_user : Text → Text → ℕ → Shared → Shared
add_user username password strategy_id s = record s {
  username_to_password_and_strategy_id =
      assign username (password, strategy_id) s.username_to_password_and_strategy_id;
}

unfoldable pub remove_user : Text → Shared → Shared
remove_user username s = record s {
  username_to_password_and_strategy_id = erase username s.username_to_password_and_strategy_id;
}

unfoldable pub session_remove_helper : ℕ → Shared → Shared
session_remove_helper session_id s = elim (find session_id s.session_to_username) [
  | none ↦ s
  | some username ↦ record s {
    username_to_session = erase username s.username_to_session;
    session_to_username = erase session_id s.session_to_username;
  }
]

unfoldable pub session_remove : ℕ → Shared → Shared
unfolding session_remove_helper insert_id
session_remove session_id s =
    session_remove_helper session_id
      (record s { sessions_to_remove = insert_id session_id s.sessions_to_remove })

-- The reason for a failure, `none` for success; and the state afterwards.
unfoldable pub session_logout_helper : ℕ → Shared → Option Text × Shared
session_logout_helper session_id s = elim (find session_id s.session_to_username) [
  | none ↦ (some not_logged_on, s)
  | some username ↦ (
    none,
    record s {
      username_to_session = erase username s.username_to_session;
      session_to_username = erase session_id s.session_to_username;
    },
  )
]

-- The loop of session_cleanup, without its callback: the sessions are returned for it.
unfoldable pub cleanup_each : List ℕ → Shared → Shared
unfolding session_remove_helper
cleanup_each [] s = s
cleanup_each (session_id ∷ rest) s = cleanup_each rest (session_remove_helper session_id s)

unfoldable pub session_cleanup : Shared → List ℕ × Shared
unfolding cleanup_each
session_cleanup s =
    let t = cleanup_each s.sessions_to_remove s in
    (s.sessions_to_remove, record t { sessions_to_remove = [] })

-- The outcome of session_logon: the strategy id, or why not.
pub data LogonResult : Type 0 where
  success : ℕ → LogonResult
  failure : Text → LogonResult

-- What is recorded of a session that logs on.
unfoldable pub enter : ℕ → Text → Shared → Shared
enter session_id username s = record s {
  username_to_session = try_emplace username session_id s.username_to_session;
  session_to_username = try_emplace session_id username s.session_to_username;
}

module _ ⦃ext : Externals⦄ where
  unfoldable pub include : Text → List Text → Bool
  include symbol [] = false
  include symbol (regex ∷ rest) = if ext.regex_match regex symbol then true else include symbol rest

  -- A user whose password has been checked.
  unfoldable pub admit : ℕ → Text → ℕ → Shared → LogonResult × Shared
  unfolding enter
  admit session_id username strategy_id s = elim (find username s.username_to_session) [
    | some other ↦ (failure already_logged_on, s)
    | none ↦ (success strategy_id, enter session_id username s)
  ]

  -- `checked` is what the check of the password said. `err` is an exception of the check.
  unfoldable pub after_check : ℕ → Text → ℕ → Shared → Result Bool → Result (LogonResult × Shared)
  unfolding admit
  after_check session_id username strategy_id s (err e) = err e
  after_check session_id username strategy_id s (ok false) = ok (failure invalid_password, s)
  after_check session_id username strategy_id s (ok true) =
      ok (admit session_id username strategy_id s)

  -- session_logon_helper at the clock's reading `now`
  unfoldable pub session_logon : ℕ → ℕ → Text → Text → Text → Shared → Result (LogonResult × Shared)
  unfolding after_check
  session_logon now session_id username password raw_data s =
      elim (find username s.username_to_password_and_strategy_id) [
        | none ↦ ok (failure invalid_username, s)
        | some (secret, strategy_id) ↦
            after_check session_id username strategy_id s
              (validate s.crypto now password secret raw_data)
      ]

  -- "proxy-{}" with the next number
  unfoldable pub request_id_text : ℕ → Text
  request_id_text n = codes "proxy-" ++ ext.format n

  unfoldable pub create_request_id : Shared → Text × Shared
  unfolding request_id_text
  create_request_id s =
      let next = (s.next_request_id + 1) % u64 in
      (request_id_text next, record s { next_request_id = next })
