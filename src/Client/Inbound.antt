-- ===== src/Client/Inbound.antt =====
-- What a client session does with each message of the client's (client/session.cpp, `parse` and the
-- operators with a header).
use roq_fix_proxy.Prelude.{ℕ, Bool, true, false, List, [], ◌∷◌, if◌then◌else◌}
use roq_fix_proxy.Prelude.Text.{Text, codes, is_empty}
use roq_fix_proxy.Prelude.Effect.{malformed, ◌>>=◌, ◌>>◌, throw, skip}
use roq_fix_proxy.Externals.{Externals}
use roq_fix_proxy.Message.Enums.{Party, PartyIdSource, PartyRole, BusinessRejectReason}
use roq_fix_proxy.Message.Request.{Request}
use roq_fix_proxy.Message.Response.{Admin}
use roq_fix_proxy.World.{ClientState, ClientSession, Header}
use roq_fix_proxy.World.Access.{Method, session_at, modify_session}
use roq_fix_proxy.Controller.Requests.{
  on_security_list_request, on_security_definition_request, on_security_status_request,
  on_market_data_request, on_trade_capture_report_request,
}
use roq_fix_proxy.Controller.Positions.{on_request_for_positions}
use roq_fix_proxy.Controller.OrderRequests.{
  on_order_status_request, on_new_order_single, on_order_cancel_replace_request,
  on_order_cancel_request,
}
use roq_fix_proxy.Controller.MassRequests.{
  on_order_mass_status_request, on_order_mass_cancel_request,
}
use roq_fix_proxy.Client.Connection.{send_admin, make_zombie, close, send_business_message_reject}
use roq_fix_proxy.Client.Logon.{error_no_logon, reject_logon, logon_from, logout_from}

-- A message of a client's, decoded. `undecodable` is one that T::create refuses by an exception,
-- `unexpected` one of a type that `parse` does not know.
pub data ClientMessage : Type 0 where
  admin : Admin → ClientMessage
  request : Request → ClientMessage
  trading_session_status_request : Text → ClientMessage
  unexpected undecodable : ClientMessage

-- Whether `parse` has a case for the type of a request: it has none for UserRequest, which only the proxy
-- itself sends.
unfoldable pub is_parsed : Request → Bool
is_parsed (Request.user_request e) = false
is_parsed (Request.security_list_request e) = true
is_parsed (Request.security_definition_request e) = true
is_parsed (Request.security_status_request e) = true
is_parsed (Request.market_data_request e) = true
is_parsed (Request.order_status_request e) = true
is_parsed (Request.order_mass_status_request e) = true
is_parsed (Request.new_order_single e) = true
is_parsed (Request.order_cancel_request e) = true
is_parsed (Request.order_cancel_replace_request e) = true
is_parsed (Request.order_mass_cancel_request e) = true
is_parsed (Request.request_for_positions e) = true
is_parsed (Request.trade_capture_report_request e) = true

abbrev pub error_invalid_req_id : Text
error_invalid_req_id = codes "INVALID_REQ_ID"

abbrev pub error_invalid_cl_ord_id : Text
error_invalid_cl_ord_id = codes "INVALID_CL_ORD_ID"

abbrev pub error_invalid_orig_cl_ord_id : Text
error_invalid_orig_cl_ord_id = codes "INVALID_ORIG_CL_ORD_ID"

abbrev pub error_unsupported_msg_type : Text
error_unsupported_msg_type = codes "UNSUPPORTED MSG_TYPE"

abbrev pub error_unsupported_party_ids : Text
error_unsupported_party_ids = codes "UNSUPPORTED PARTY_IDS"

-- The party that add_party_ids adds.
abbrev pub own_party : Text → Party
own_party party_id = record {
  party_id = party_id;
  party_id_source = PartyIdSource.proprietary_custom_code;
  party_role = PartyRole.client_id;
}

-- `if (add_party_ids(event, callback)) {} else { refused }`
unfoldable pub add_party_ids : Text → List Party → (List Party → Method) → Method → Method
add_party_ids party_id [] callback refused = callback (own_party party_id ∷ [])
add_party_ids party_id (p ∷ ps) callback refused = refused

unfoldable pub refuse : ℕ → Header → Text → Text → Method
unfolding send_business_message_reject
refuse id header ref_id text =
    send_business_message_reject id header ref_id BusinessRejectReason.other text

unfoldable pub unexpected_type : ℕ → Header → Text → Method
unfolding send_business_message_reject
unexpected_type id header ref_id =
    send_business_message_reject id header ref_id BusinessRejectReason.unsupported_message_type
      (codes "UNEXPECTED MSG_TYPE")

module _ ⦃ext : Externals⦄ where
  -- `if (!validate_req_id(req_id)) { reject; return; }`
  unfoldable pub checked : ℕ → Header → Text → Text → Method → Method
  unfolding refuse
  checked id header req_id text next =
      if ext.base64_is_valid req_id then next else refuse id header req_id text

  -- What a session that is ready does with a request that `parse` has a case for. There is no other kind
  -- of request but UserRequest, which `dispatch` turns away in every state, so that the first clause is
  -- never used.
  unfoldable pub handle_request : ClientSession → ℕ → Header → Request → Method
  unfolding checked refuse add_party_ids unexpected_type
  handle_request c id header (Request.user_request e) = unexpected_type id header []
  handle_request c id header (Request.security_list_request e) =
      checked id header e.security_req_id error_invalid_req_id (on_security_list_request e id)
  handle_request c id header (Request.security_definition_request e) =
      checked id header e.security_req_id error_invalid_req_id (on_security_definition_request e id)
  handle_request c id header (Request.security_status_request e) =
      checked id header e.security_status_req_id error_invalid_req_id
        (on_security_status_request e id)
  handle_request c id header (Request.market_data_request e) =
      checked id header e.md_req_id (codes "INVALID_MD_REQ_ID") (on_market_data_request e id)
  handle_request c id header (Request.order_status_request e) =
      checked id header e.ord_status_req_id error_invalid_req_id (
        add_party_ids c.party_id e.no_party_ids
          (λ ps. on_order_status_request (record e { no_party_ids = ps }) id)
          (refuse id header e.cl_ord_id error_unsupported_party_ids))
  handle_request c id header (Request.order_mass_status_request e) =
      checked id header e.mass_status_req_id error_invalid_req_id (
        add_party_ids c.party_id e.no_party_ids
          (λ ps. on_order_mass_status_request (record e { no_party_ids = ps }) id)
          (refuse id header e.mass_status_req_id error_unsupported_party_ids))
  handle_request c id header (Request.new_order_single e) =
      checked id header e.cl_ord_id error_invalid_cl_ord_id (
        add_party_ids c.party_id e.no_party_ids
          (λ ps. on_new_order_single (record e { no_party_ids = ps }) id)
          (refuse id header e.cl_ord_id error_unsupported_party_ids))
  handle_request c id header (Request.order_cancel_request e) =
      checked id header e.cl_ord_id error_invalid_cl_ord_id (
        checked id header e.orig_cl_ord_id error_invalid_orig_cl_ord_id (
          add_party_ids c.party_id e.no_party_ids
            (λ ps. on_order_cancel_request (record e { no_party_ids = ps }) id)
            (refuse id header e.cl_ord_id error_unsupported_party_ids)))
  handle_request c id header (Request.order_cancel_replace_request e) =
      checked id header e.cl_ord_id error_invalid_cl_ord_id (
        checked id header e.orig_cl_ord_id error_invalid_orig_cl_ord_id (
          add_party_ids c.party_id e.no_party_ids
            (λ ps. on_order_cancel_replace_request (record e { no_party_ids = ps }) id)
            (refuse id header e.cl_ord_id error_unsupported_party_ids)))
  handle_request c id header (Request.order_mass_cancel_request e) =
      checked id header e.cl_ord_id error_invalid_cl_ord_id (
        add_party_ids c.party_id e.no_party_ids
          (λ ps. on_order_mass_cancel_request (record e { no_party_ids = ps }) id)
          (refuse id header e.cl_ord_id error_unsupported_msg_type))
  handle_request c id header (Request.request_for_positions e) =
      checked id header e.pos_req_id error_invalid_req_id (
        add_party_ids c.party_id e.no_party_ids
          (λ ps. on_request_for_positions (record e { no_party_ids = ps }) id)
          (refuse id header e.pos_req_id error_unsupported_party_ids))
  handle_request c id header (Request.trade_capture_report_request e) =
      checked id header e.trade_request_id error_invalid_req_id (
        add_party_ids c.party_id e.no_party_ids
          (λ ps. on_trade_capture_report_request (record e { no_party_ids = ps }) id)
          (refuse id header e.cl_ord_id error_unsupported_msg_type))

  -- The switch on the session's state in each of the operators. `dispatch` calls it only of a request that
  -- `parse` has a case for, so never of a UserRequest.
  unfoldable pub request_from : ClientState → ClientSession → ℕ → Header → Request → Method
  unfolding handle_request make_zombie reject_logon
  request_from ClientState.ready c id header r = handle_request c id header r
  request_from ClientState.waiting_remove_route c id header r = make_zombie id
  request_from ClientState.zombie c id header r = skip
  request_from _ c id header r = reject_logon id header error_no_logon

  unfoldable pub test_request_from : ClientState → ℕ → Header → Text → Method
  unfolding reject_logon send_admin
  test_request_from ClientState.waiting_logon id header t = reject_logon id header error_no_logon
  test_request_from ClientState.waiting_create_route id header t = send_admin id (Admin.heartbeat t)
  test_request_from ClientState.ready id header t = send_admin id (Admin.heartbeat t)
  test_request_from _ id header t = skip

  unfoldable pub resend_request_from : ClientState → ℕ → Header → Method
  unfolding reject_logon make_zombie
  resend_request_from ClientState.ready id header =
      reject_logon id header error_unsupported_msg_type
  resend_request_from ClientState.waiting_remove_route id header = make_zombie id
  resend_request_from ClientState.zombie id header = skip
  resend_request_from _ id header = reject_logon id header error_no_logon

  unfoldable pub heartbeat_from : ClientState → ℕ → Header → Method
  unfolding reject_logon modify_session
  heartbeat_from ClientState.ready id header =
      modify_session id (λ c. record c { waiting_for_heartbeat = false })
  heartbeat_from ClientState.waiting_remove_route id header = skip
  heartbeat_from ClientState.zombie id header = skip
  heartbeat_from _ id header = reject_logon id header error_no_logon

  unfoldable pub handle_admin : ClientState → ℕ → Header → Admin → Method
  unfolding test_request_from resend_request_from heartbeat_from close
  handle_admin state id header (Admin.test_request t) = test_request_from state id header t
  handle_admin state id header Admin.resend_request = resend_request_from state id header
  handle_admin state id header (Admin.reject e) = close id
  handle_admin state id header (Admin.heartbeat t) = heartbeat_from state id header
  handle_admin state id header (Admin.logon e) = logon_from state id header e
  handle_admin state id header (Admin.logout t) = logout_from state id header

  unfoldable pub dispatch : ClientSession → ℕ → Header → ClientMessage → Method
  unfolding handle_admin request_from unexpected_type is_parsed
  dispatch c id header (ClientMessage.admin a) = handle_admin c.state id header a
  dispatch c id header (ClientMessage.request r) =
      if is_parsed r then request_from c.state c id header r else unexpected_type id header []
  dispatch c id header (ClientMessage.trading_session_status_request t) =
      unexpected_type id header t
  dispatch c id header ClientMessage.unexpected = unexpected_type id header []
  dispatch c id header ClientMessage.undecodable = throw malformed

  -- `if (std::empty(comp_id_)) comp_id_ = message.header.sender_comp_id;` and the dispatch
  unfoldable pub parse : ℕ → Header → ClientMessage → Method
  unfolding session_at modify_session dispatch
  parse id header m = do
    modify_session id (λ c. record c {
      comp_id = if is_empty c.comp_id then header.sender_comp_id else c.comp_id;
    })
    c ← session_at id
    dispatch c id header m
