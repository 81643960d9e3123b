-- ===== src/Server/Rejected.antt =====
-- The mapping that a BusinessMessageReject is looked up in (controller.cpp, the operator on
-- BusinessMessageReject).
use roq_fix_proxy.Prelude.{◌≡◌, some}
use roq_fix_proxy.Message.Enums.{MsgType}
use roq_fix_proxy.World.Mappings.{MappingName}
use roq_fix_proxy.Controller.Responses.{rejected_mapping}
use roq_fix_proxy.Server.Answers.{asked_in}

-- A reject of a request is looked up where the requests of its type are kept.
pub asked_in-rejected_mapping :
    (t : MsgType) (n : MappingName) → asked_in t ≡ some n → rejected_mapping t ≡ some n
unfolding asked_in rejected_mapping
asked_in-rejected_mapping MsgType.security_list_request n e = e
asked_in-rejected_mapping MsgType.security_definition_request n e = e
asked_in-rejected_mapping MsgType.security_status_request n e = e
asked_in-rejected_mapping MsgType.market_data_request n e = e
asked_in-rejected_mapping MsgType.order_status_request n e = e
asked_in-rejected_mapping MsgType.order_mass_status_request n e = e
asked_in-rejected_mapping MsgType.new_order_single n e = e
asked_in-rejected_mapping MsgType.order_cancel_request n e = e
asked_in-rejected_mapping MsgType.order_cancel_replace_request n e = e
asked_in-rejected_mapping MsgType.request_for_positions n e = e
asked_in-rejected_mapping MsgType.trade_capture_report_request n e = e
asked_in-rejected_mapping MsgType.heartbeat n e = absurd cc
asked_in-rejected_mapping MsgType.test_request n e = absurd cc
asked_in-rejected_mapping MsgType.resend_request n e = absurd cc
asked_in-rejected_mapping MsgType.reject n e = absurd cc
asked_in-rejected_mapping MsgType.logon n e = absurd cc
asked_in-rejected_mapping MsgType.logout n e = absurd cc
asked_in-rejected_mapping MsgType.business_message_reject n e = absurd cc
asked_in-rejected_mapping MsgType.user_request n e = absurd cc
asked_in-rejected_mapping MsgType.user_response n e = absurd cc
asked_in-rejected_mapping MsgType.trading_session_status_request n e = absurd cc
asked_in-rejected_mapping MsgType.security_list n e = absurd cc
asked_in-rejected_mapping MsgType.security_definition n e = absurd cc
asked_in-rejected_mapping MsgType.security_status n e = absurd cc
asked_in-rejected_mapping MsgType.market_data_request_reject n e = absurd cc
asked_in-rejected_mapping MsgType.market_data_snapshot_full_refresh n e = absurd cc
asked_in-rejected_mapping MsgType.market_data_incremental_refresh n e = absurd cc
asked_in-rejected_mapping MsgType.order_mass_cancel_request n e = absurd cc
asked_in-rejected_mapping MsgType.order_cancel_reject n e = absurd cc
asked_in-rejected_mapping MsgType.order_mass_cancel_report n e = absurd cc
asked_in-rejected_mapping MsgType.execution_report n e = absurd cc
asked_in-rejected_mapping MsgType.request_for_positions_ack n e = absurd cc
asked_in-rejected_mapping MsgType.position_report n e = absurd cc
asked_in-rejected_mapping MsgType.trade_capture_report_request_ack n e = absurd cc
asked_in-rejected_mapping MsgType.trade_capture_report n e = absurd cc
asked_in-rejected_mapping (MsgType.other k) n e = absurd cc
