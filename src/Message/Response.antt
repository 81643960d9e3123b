-- ===== src/Message/Response.antt =====
-- The messages that the server sends and the proxy delivers to a client, and the messages of the
-- session layer, which either side of the proxy sends on its own.
use roq_fix_proxy.Prelude.{ℕ, Bool, List}
use roq_fix_proxy.Prelude.Text.{Text}
use roq_fix_proxy.Message.Enums.{
  Fields, Party, MsgType, UserStatus, OrdStatus, ExecType, SecurityRequestResult,
  SecurityResponseType, PosReqResult, PosReqStatus, EncryptMethod, MdReqRejReason, OrdRejReason,
  CxlRejReason, CxlRejResponseTo, MassCancelResponse, MassCancelRejectReason, TradeRequestResult,
  TradeRequestStatus, SessionRejectReason, BusinessRejectReason,
}

pub record BusinessMessageReject : Type 0 where
  pub ref_seq_num : ℕ
  pub ref_msg_type : MsgType
  pub business_reject_ref_id : Text
  pub business_reject_reason : BusinessRejectReason
  pub text : Text

pub record UserResponse : Type 0 where
  pub user_request_id : Text
  pub username : Text
  pub user_status : UserStatus
  pub fields : Fields

pub record SecurityList : Type 0 where
  pub security_req_id : Text
  pub security_response_id : Text
  pub security_request_result : SecurityRequestResult
  pub fields : Fields

pub record SecurityDefinition : Type 0 where
  pub security_req_id : Text
  pub security_response_id : Text
  pub security_response_type : SecurityResponseType
  pub symbol : Text
  pub security_exchange : Text
  pub fields : Fields

pub record SecurityStatus : Type 0 where
  pub security_status_req_id : Text
  pub symbol : Text
  pub security_exchange : Text
  pub unsolicited_indicator : Bool
  pub fields : Fields

pub record MarketDataRequestReject : Type 0 where
  pub md_req_id : Text
  pub md_req_rej_reason : MdReqRejReason
  pub text : Text

pub record MarketDataSnapshotFullRefresh : Type 0 where
  pub md_req_id : Text
  pub fields : Fields

pub record MarketDataIncrementalRefresh : Type 0 where
  pub md_req_id : Text
  pub fields : Fields

pub record OrderCancelReject : Type 0 where
  pub order_id : Text
  pub cl_ord_id : Text
  pub orig_cl_ord_id : Text
  pub ord_status : OrdStatus
  pub account : Text
  pub cxl_rej_response_to : CxlRejResponseTo
  pub cxl_rej_reason : CxlRejReason
  pub text : Text
  pub fields : Fields

pub record OrderMassCancelReport : Type 0 where
  pub cl_ord_id : Text
  pub order_id : Text
  pub mass_cancel_request_type : Text
  pub mass_cancel_response : MassCancelResponse
  pub mass_cancel_reject_reason : MassCancelRejectReason
  pub symbol : Text
  pub security_exchange : Text
  pub side : Text
  pub text : Text
  pub no_party_ids : List Party
  pub fields : Fields

pub record ExecutionReport : Type 0 where
  pub order_id : Text
  pub cl_ord_id : Text
  pub orig_cl_ord_id : Text
  pub ord_status_req_id : Text
  pub mass_status_req_id : Text
  pub tot_num_reports : ℕ
  pub last_rpt_requested : Bool
  pub no_party_ids : List Party
  pub exec_id : Text
  pub exec_type : ExecType
  pub ord_status : OrdStatus
  pub ord_rej_reason : OrdRejReason
  pub account : Text
  pub symbol : Text
  pub security_exchange : Text
  pub side : Text
  pub order_qty : Text
  pub price : Text
  pub stop_px : Text
  pub time_in_force : Text
  pub exec_inst : Text
  pub leaves_qty : Text
  pub cum_qty : Text
  pub avg_px : Text
  pub text : Text
  pub fields : Fields

pub record RequestForPositionsAck : Type 0 where
  pub pos_maint_rpt_id : Text
  pub pos_req_id : Text
  pub total_num_pos_reports : ℕ
  pub unsolicited_indicator : Bool
  pub pos_req_result : PosReqResult
  pub pos_req_status : PosReqStatus
  pub no_party_ids : List Party
  pub account : Text
  pub account_type : Text
  pub text : Text

pub record PositionReport : Type 0 where
  pub pos_req_id : Text
  pub pos_req_result : PosReqResult
  pub fields : Fields

pub record TradeCaptureReportRequestAck : Type 0 where
  pub trade_request_id : Text
  pub trade_request_type : Text
  pub trade_request_result : TradeRequestResult
  pub trade_request_status : TradeRequestStatus
  pub symbol : Text
  pub security_exchange : Text
  pub text : Text

pub record TradeCaptureReport : Type 0 where
  pub trade_request_id : Text
  pub last_rpt_requested : Bool
  pub fields : Fields

pub data Response : Type 0 where
  business_message_reject : BusinessMessageReject → Response
  user_response : UserResponse → Response
  security_list : SecurityList → Response
  security_definition : SecurityDefinition → Response
  security_status : SecurityStatus → Response
  market_data_request_reject : MarketDataRequestReject → Response
  market_data_snapshot_full_refresh : MarketDataSnapshotFullRefresh → Response
  market_data_incremental_refresh : MarketDataIncrementalRefresh → Response
  order_cancel_reject : OrderCancelReject → Response
  order_mass_cancel_report : OrderMassCancelReport → Response
  execution_report : ExecutionReport → Response
  request_for_positions_ack : RequestForPositionsAck → Response
  position_report : PositionReport → Response
  trade_capture_report_request_ack : TradeCaptureReportRequestAck → Response
  trade_capture_report : TradeCaptureReport → Response

pub record Logon : Type 0 where
  pub encrypt_method : EncryptMethod
  pub heart_bt_int : ℕ
  pub raw_data : Text
  pub reset_seq_num_flag : Bool
  pub next_expected_msg_seq_num : ℕ
  pub username : Text
  pub password : Text

-- Reject
pub record SessionReject : Type 0 where
  pub ref_seq_num : ℕ
  pub text : Text
  pub ref_msg_type : MsgType
  pub session_reject_reason : SessionRejectReason

-- The messages of the session layer.
pub data Admin : Type 0 where
  logon : Logon → Admin
  logout : Text → Admin
  heartbeat : Text → Admin
  test_request : Text → Admin
  resend_request : Admin
  reject : SessionReject → Admin
