-- ===== src/Message/Enums.antt =====
-- The enumerations of roq::fix, with the values that the source names; `other` stands for the rest.
use roq_fix_proxy.Prelude.{ℕ, List}
use roq_fix_proxy.Prelude.Text.{Text}

-- The tags and values of the fields that are passed on.
abbrev pub Fields : Type 0
Fields = List (ℕ × Text)

pub data SubscriptionRequestType : Type 0 where
  undefined unknown snapshot snapshot_updates unsubscribe : SubscriptionRequestType

pub data UserRequestType : Type 0 where
  log_on_user log_off_user : UserRequestType
  other : ℕ → UserRequestType

pub data UserStatus : Type 0 where
  logged_in not_logged_in : UserStatus
  other : ℕ → UserStatus

pub data OrdStatus : Type 0 where
  rejected : OrdStatus
  other : ℕ → OrdStatus

pub data ExecType : Type 0 where
  pending_new pending_replace pending_cancel rejected order_status : ExecType
  other : ℕ → ExecType

pub data SecurityRequestResult : Type 0 where
  valid invalid_or_unsupported : SecurityRequestResult
  other : ℕ → SecurityRequestResult

pub data SecurityResponseType : Type 0 where
  accept_security_proposal_as_is reject_security_proposal : SecurityResponseType
  other : ℕ → SecurityResponseType

pub data PosReqResult : Type 0 where
  valid invalid_or_unsupported : PosReqResult
  other : ℕ → PosReqResult

pub data PosReqStatus : Type 0 where
  rejected : PosReqStatus
  other : ℕ → PosReqStatus

pub data PartyIdSource : Type 0 where
  proprietary_custom_code : PartyIdSource
  other : ℕ → PartyIdSource

pub data PartyRole : Type 0 where
  client_id : PartyRole
  other : ℕ → PartyRole

pub data EncryptMethod : Type 0 where
  none : EncryptMethod
  other : ℕ → EncryptMethod

pub data MdReqRejReason : Type 0 where
  duplicate_md_req_id unsupported_scope unsupported_subscription_request_type : MdReqRejReason
  unspecified : ℕ → MdReqRejReason

pub data OrdRejReason : Type 0 where
  other : OrdRejReason
  unspecified : ℕ → OrdRejReason

pub data CxlRejReason : Type 0 where
  duplicate_cl_ord_id other : CxlRejReason
  unspecified : ℕ → CxlRejReason

pub data CxlRejResponseTo : Type 0 where
  order_cancel_request order_cancel_replace_request : CxlRejResponseTo

pub data MassCancelResponse : Type 0 where
  cancel_request_rejected : MassCancelResponse
  unspecified : ℕ → MassCancelResponse

pub data MassCancelRejectReason : Type 0 where
  other : MassCancelRejectReason
  unspecified : ℕ → MassCancelRejectReason

pub data TradeRequestResult : Type 0 where
  other : TradeRequestResult
  unspecified : ℕ → TradeRequestResult

pub data TradeRequestStatus : Type 0 where
  rejected : TradeRequestStatus
  unspecified : ℕ → TradeRequestStatus

pub data SessionRejectReason : Type 0 where
  other : SessionRejectReason

pub data BusinessRejectReason : Type 0 where
  other unsupported_message_type : BusinessRejectReason
  unspecified : ℕ → BusinessRejectReason

-- The message types that one of the dispatchers of the source handles.
pub data MsgType : Type 0 where
  heartbeat test_request resend_request reject logon logout : MsgType
  business_message_reject user_request user_response : MsgType
  trading_session_status_request : MsgType
  security_list_request security_list : MsgType
  security_definition_request security_definition : MsgType
  security_status_request security_status : MsgType
  market_data_request market_data_request_reject : MsgType
  market_data_snapshot_full_refresh market_data_incremental_refresh : MsgType
  order_status_request order_mass_status_request new_order_single : MsgType
  order_cancel_request order_cancel_replace_request order_mass_cancel_request : MsgType
  order_cancel_reject order_mass_cancel_report execution_report : MsgType
  request_for_positions request_for_positions_ack position_report : MsgType
  trade_capture_report_request trade_capture_report_request_ack trade_capture_report : MsgType
  other : ℕ → MsgType

pub record Party : Type 0 where
  pub party_id : Text
  pub party_id_source : PartyIdSource
  pub party_role : PartyRole
