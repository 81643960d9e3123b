-- ===== src/Controller/Positions.antt =====
-- The handler of a client's RequestForPositions (controller.cpp). Unlike the other subscriptions it
-- goes to the server under the id of the request that it ends.
use roq_fix_proxy.Prelude.{ℕ, Bool, false, Option, none, some, if◌then◌else◌}
use roq_fix_proxy.Prelude.Text.{Text, codes}
use roq_fix_proxy.Prelude.Effect.{err, fatal, ◌>>=◌, ◌>>◌, throw}
use roq_fix_proxy.Externals.{Externals}
use roq_fix_proxy.Message.Enums.{PosReqResult, PosReqStatus}
use roq_fix_proxy.Message.Request.{Request, RequestForPositions}
use roq_fix_proxy.Message.Response.{Response}
use roq_fix_proxy.Mapping.{set_keep_alive}
use roq_fix_proxy.World.Mappings.{get, pos}
use roq_fix_proxy.World.Access.{Method, modify_mapping, create_request_id}
use roq_fix_proxy.Server.Send.{dispatch_to_server}
use roq_fix_proxy.Controller.Utilities.{dispatch_to_client, get_subscription_request_type}
use roq_fix_proxy.Controller.Subscribe.{
  Refusal, validation, unknown_type, duplicate, unknown_id, lookup_req_id, switch, start_request,
  is_some,
}
use roq_fix_proxy.Controller.Requests.{error_validation, error_unknown_subscription_request_type}

-- `keep_alive_2 = keep_alive`, or log::fatal where the server's side has no entry.
unfoldable pub change_keep_alive : Text → Bool → Method
change_keep_alive request_id keep_alive w =
    elim (set_keep_alive request_id keep_alive (get pos w.subscriptions)) [
      | none ↦ (err fatal, w)
      | some m ↦ modify_mapping pos (λ _. m) w
    ]

-- dispatch(false) of a request that exists
unfoldable pub stop_positions : Option Text → RequestForPositions → Method
unfolding change_keep_alive
stop_positions none e = throw fatal
stop_positions (some request_id) e = do
  dispatch_to_server (Request.request_for_positions (record e { pos_req_id = request_id }))
  change_keep_alive request_id false

unfoldable pub position_text : Refusal → Text
position_text validation = error_validation
position_text unknown_type = error_unknown_subscription_request_type
position_text duplicate = codes "DUPLICATED_POS_REQ_ID"
position_text unknown_id = codes "UNKNOWN_POS_REQ_ID"

module _ ⦃ext : Externals⦄ where
  abbrev pub positions_reject_message : RequestForPositions → Refusal → Text → Response
  positions_reject_message e why request_id = Response.request_for_positions_ack (record {
    pos_maint_rpt_id = request_id;
    pos_req_id = e.pos_req_id;
    total_num_pos_reports = 0;
    unsolicited_indicator = false;
    pos_req_result = PosReqResult.invalid_or_unsupported;
    pos_req_status = PosReqStatus.rejected;
    no_party_ids = e.no_party_ids;
    account = e.account;
    account_type = e.account_type;
    text = position_text why;
  })

  unfoldable pub positions_reject : RequestForPositions → ℕ → Refusal → Method
  unfolding create_request_id dispatch_to_client position_text
  positions_reject e session_id why = do
    request_id ← create_request_id
    dispatch_to_client (positions_reject_message e why request_id) session_id

  unfoldable pub subscribe_positions : RequestForPositions → ℕ → Method
  unfolding lookup_req_id switch start_request stop_positions positions_reject create_request_id
      get_subscription_request_type is_some
  subscribe_positions e session_id = do
    existing ← lookup_req_id pos session_id e.pos_req_id
    switch (get_subscription_request_type e.subscription_request_type) (is_some existing)
        (positions_reject e session_id)
        (start_request pos session_id e.pos_req_id create_request_id
          (λ id. Request.request_for_positions (record e { pos_req_id = id })))
        (stop_positions existing e)

  unfoldable pub on_request_for_positions : RequestForPositions → ℕ → Method
  unfolding subscribe_positions positions_reject
  on_request_for_positions e session_id =
      if ext.is_valid (Request.request_for_positions e)
      then subscribe_positions e session_id
      else positions_reject e session_id validation
