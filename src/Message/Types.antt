-- ===== src/Message/Types.antt =====
-- T::MSG_TYPE of the messages.
use roq_fix_proxy.Message.Enums.{MsgType}
use roq_fix_proxy.Message.Request.{Request}
use roq_fix_proxy.Message.Response.{Response, Admin}

unfoldable pub request_type : Request → MsgType
request_type (Request.user_request e) = MsgType.user_request
request_type (Request.security_list_request e) = MsgType.security_list_request
request_type (Request.security_definition_request e) = MsgType.security_definition_request
request_type (Request.security_status_request e) = MsgType.security_status_request
request_type (Request.market_data_request e) = MsgType.market_data_request
request_type (Request.order_status_request e) = MsgType.order_status_request
request_type (Request.new_order_single e) = MsgType.new_order_single
request_type (Request.order_cancel_replace_request e) = MsgType.order_cancel_replace_request
request_type (Request.order_cancel_request e) = MsgType.order_cancel_request
request_type (Request.order_mass_status_request e) = MsgType.order_mass_status_request
request_type (Request.order_mass_cancel_request e) = MsgType.order_mass_cancel_request
request_type (Request.request_for_positions e) = MsgType.request_for_positions
request_type (Request.trade_capture_report_request e) = MsgType.trade_capture_report_request

unfoldable pub response_type : Response → MsgType
response_type (Response.business_message_reject e) = MsgType.business_message_reject
response_type (Response.user_response e) = MsgType.user_response
response_type (Response.security_list e) = MsgType.security_list
response_type (Response.security_definition e) = MsgType.security_definition
response_type (Response.security_status e) = MsgType.security_status
response_type (Response.market_data_request_reject e) = MsgType.market_data_request_reject
response_type (Response.market_data_snapshot_full_refresh e) =
    MsgType.market_data_snapshot_full_refresh
response_type (Response.market_data_incremental_refresh e) = MsgType.market_data_incremental_refresh
response_type (Response.order_cancel_reject e) = MsgType.order_cancel_reject
response_type (Response.order_mass_cancel_report e) = MsgType.order_mass_cancel_report
response_type (Response.execution_report e) = MsgType.execution_report
response_type (Response.request_for_positions_ack e) = MsgType.request_for_positions_ack
response_type (Response.position_report e) = MsgType.position_report
response_type (Response.trade_capture_report_request_ack e) =
    MsgType.trade_capture_report_request_ack
response_type (Response.trade_capture_report e) = MsgType.trade_capture_report

unfoldable pub admin_type : Admin → MsgType
admin_type (Admin.logon e) = MsgType.logon
admin_type (Admin.logout e) = MsgType.logout
admin_type (Admin.heartbeat e) = MsgType.heartbeat
admin_type (Admin.test_request e) = MsgType.test_request
admin_type Admin.resend_request = MsgType.resend_request
admin_type (Admin.reject e) = MsgType.reject
