-- ===== src/Client/Logon.antt =====
-- Logging on and off, as the client asks for it (client/session.cpp, the operators on Logon and
-- Logout).
use roq_fix_proxy.Prelude.{
  ℕ, ◌+◌, ◌*◌, Bool, true, false, ◌||◌, Option, none, some, [], ltb, ◌==◌, if◌then◌else◌,
}
use roq_fix_proxy.Prelude.Text.{Text, text_eq, codes}
use roq_fix_proxy.Prelude.Effect.{Result, ok, err, not_ready, ◌>>=◌, ◌>>◌, gets, skip}
use roq_fix_proxy.Externals.{Externals}
use roq_fix_proxy.Message.Enums.{EncryptMethod, SessionRejectReason, UserRequestType}
use roq_fix_proxy.Message.Response.{Logon}
use roq_fix_proxy.Shared
use roq_fix_proxy.Shared.{LogonResult, success, failure, ClientSettings, Shared}
use roq_fix_proxy.World.{World, ClientState, Header}
use roq_fix_proxy.World.Access.{Method, session_at, modify_session, create_request_id}
use roq_fix_proxy.Controller.Requests.{on_user_request}
use roq_fix_proxy.Client.Connection.{send_reject_and_close, make_zombie, set_state}

abbrev pub error_no_logon : Text
error_no_logon = codes "NO LOGON"

unfoldable pub is_none : EncryptMethod → Bool
is_none EncryptMethod.none = true
is_none (EncryptMethod.other n) = false

-- Why the fields of a logon are not acceptable, in the order of the checks.
unfoldable pub invalid_logon : ClientSettings → Header → Logon → Option Text
unfolding is_none
invalid_logon settings header logon =
    let interval = logon.heart_bt_int * 1000000000 in
    if header.target_comp_id == settings.comp_id
    then (if is_none logon.encrypt_method
        then (if ltb interval settings.logon_heartbeat_min
              || ltb settings.logon_heartbeat_max interval
            then some (codes "INVALID_LOGON_HEART_BT_INT")
            else (if logon.reset_seq_num_flag
                then none
                else some (codes "INVALID_LOGON_RESET_SEQ_NUM_FLAG")))
        else some (codes "INVALID_LOGON_ENCRYPT_METHOD"))
    else some (codes "UNKNOWN TARGET_COMP_ID")

-- catch (NotReady &e) { handler(e.what()) }
unfoldable pub catch_from : Result (Unit {0}) → (Text → Method) → Method
catch_from (err (not_ready text)) handler w = handler text w
catch_from r handler w = (r, w)

unfoldable pub catch_not_ready : Method → (Text → Method) → Method
unfolding catch_from
catch_not_ready m handler w = let (r, v) = m w in catch_from r handler v

module _ ⦃ext : Externals⦄ where
  -- The request to the server about the session's user, and the wait for its answer.
  unfoldable pub request_user : UserRequestType → ClientState → ℕ → Method
  unfolding session_at create_request_id on_user_request set_state modify_session
  request_user type next id = do
    c ← session_at id
    user_request_id ← create_request_id
    on_user_request
        (record {
          user_request_id = user_request_id;
          user_request_type = type;
          username = c.party_id;
          password = [];
          new_password = [];
        })
        id
    set_state id next
    deadline ← gets (λ (w : World). w.clock.system + w.shared.settings.server.request_timeout)
    modify_session id (λ s. record s { user_response_timeout = deadline })

  -- shared_.session_logon(session_id_, ...), up to its callbacks
  unfoldable pub logon_result : Result (LogonResult × Shared) → World → Result LogonResult × World
  logon_result (err e) w = (err e, w)
  logon_result (ok (r, s)) w = (ok r, record w { shared = s })

  unfoldable pub session_logon : ℕ → Logon → World → Result LogonResult × World
  unfolding logon_result
  session_logon id logon w =
      logon_result
        (Shared.session_logon w.clock.realtime id logon.username logon.password logon.raw_data
          w.shared)
        w

  unfoldable pub reject_logon : ℕ → Header → Text → Method
  unfolding send_reject_and_close
  reject_logon id header text = send_reject_and_close id header SessionRejectReason.other text

  unfoldable pub logon_outcome : LogonResult → ℕ → Header → Logon → Method
  unfolding reject_logon request_user catch_not_ready modify_session
  logon_outcome (failure reason) id header logon = reject_logon id header reason
  logon_outcome (success strategy_id) id header logon = do
    modify_session id
        (λ c. record c { username = logon.username; party_id = ext.format strategy_id })
    catch_not_ready (request_user UserRequestType.log_on_user ClientState.waiting_create_route id)
        (reject_logon id header)

  unfoldable pub authenticate : Option Text → ℕ → Header → Logon → Method
  unfolding reject_logon session_logon logon_outcome
  authenticate (some text) id header logon = reject_logon id header text
  authenticate none id header logon = do
    result ← session_logon id logon
    logon_outcome result id header logon

  unfoldable pub logon_from : ClientState → ℕ → Header → Logon → Method
  unfolding authenticate reject_logon make_zombie modify_session invalid_logon
  logon_from ClientState.waiting_logon id header logon = do
    modify_session id (λ c. record c { comp_id = header.sender_comp_id })
    reason ← gets (λ (w : World). invalid_logon w.shared.settings.client header logon)
    authenticate reason id header logon
  logon_from ClientState.waiting_remove_route id header logon = make_zombie id
  logon_from ClientState.zombie id header logon = skip
  logon_from _ id header logon = reject_logon id header (codes "UNEXPECTED LOGON")

  unfoldable pub logout_from : ClientState → ℕ → Header → Method
  unfolding reject_logon request_user make_zombie
  logout_from ClientState.ready id header =
      request_user UserRequestType.log_off_user ClientState.waiting_remove_route id
  logout_from ClientState.waiting_remove_route id header = make_zombie id
  logout_from ClientState.zombie id header = skip
  logout_from _ id header = reject_logon id header error_no_logon
