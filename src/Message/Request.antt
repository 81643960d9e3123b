-- ===== src/Message/Request.antt =====
-- The messages that a client sends and the proxy forwards to the server.
use roq_fix_proxy.Prelude.{List}
use roq_fix_proxy.Prelude.Text.{Text}
use roq_fix_proxy.Message.Enums.{Fields, SubscriptionRequestType, UserRequestType, Party}

pub record UserRequest : Type 0 where
  pub user_request_id : Text
  pub user_request_type : UserRequestType
  pub username : Text
  pub password : Text
  pub new_password : Text

pub record SecurityListRequest : Type 0 where
  pub security_req_id : Text
  pub subscription_request_type : SubscriptionRequestType
  pub fields : Fields

pub record SecurityDefinitionRequest : Type 0 where
  pub security_req_id : Text
  pub symbol : Text
  pub security_exchange : Text
  pub subscription_request_type : SubscriptionRequestType
  pub fields : Fields

pub record SecurityStatusRequest : Type 0 where
  pub security_status_req_id : Text
  pub symbol : Text
  pub security_exchange : Text
  pub subscription_request_type : SubscriptionRequestType
  pub fields : Fields

pub record MarketDataRequest : Type 0 where
  pub md_req_id : Text
  pub subscription_request_type : SubscriptionRequestType
  pub fields : Fields

pub record OrderStatusRequest : Type 0 where
  pub ord_status_req_id : Text
  pub cl_ord_id : Text
  pub no_party_ids : List Party
  pub account : Text
  pub symbol : Text
  pub security_exchange : Text
  pub side : Text
  pub fields : Fields

pub record NewOrderSingle : Type 0 where
  pub cl_ord_id : Text
  pub no_party_ids : List Party
  pub account : Text
  pub symbol : Text
  pub security_exchange : Text
  pub side : Text
  pub order_qty : Text
  pub price : Text
  pub stop_px : Text
  pub time_in_force : Text
  pub exec_inst : Text
  pub fields : Fields

pub record OrderCancelReplaceRequest : Type 0 where
  pub cl_ord_id : Text
  pub orig_cl_ord_id : Text
  pub no_party_ids : List Party
  pub account : Text
  pub fields : Fields

pub record OrderCancelRequest : Type 0 where
  pub cl_ord_id : Text
  pub orig_cl_ord_id : Text
  pub no_party_ids : List Party
  pub account : Text
  pub fields : Fields

pub record OrderMassStatusRequest : Type 0 where
  pub mass_status_req_id : Text
  pub no_party_ids : List Party
  pub account : Text
  pub symbol : Text
  pub security_exchange : Text
  pub side : Text
  pub fields : Fields

pub record OrderMassCancelRequest : Type 0 where
  pub cl_ord_id : Text
  pub mass_cancel_request_type : Text
  pub no_party_ids : List Party
  pub symbol : Text
  pub security_exchange : Text
  pub side : Text
  pub fields : Fields

pub record RequestForPositions : Type 0 where
  pub pos_req_id : Text
  pub subscription_request_type : SubscriptionRequestType
  pub no_party_ids : List Party
  pub account : Text
  pub account_type : Text
  pub fields : Fields

pub record TradeCaptureReportRequest : Type 0 where
  pub trade_request_id : Text
  pub cl_ord_id : Text
  pub trade_request_type : Text
  pub subscription_request_type : SubscriptionRequestType
  pub no_party_ids : List Party
  pub symbol : Text
  pub security_exchange : Text
  pub fields : Fields

pub data Request : Type 0 where
  user_request : UserRequest → Request
  security_list_request : SecurityListRequest → Request
  security_definition_request : SecurityDefinitionRequest → Request
  security_status_request : SecurityStatusRequest → Request
  market_data_request : MarketDataRequest → Request
  order_status_request : OrderStatusRequest → Request
  new_order_single : NewOrderSingle → Request
  order_cancel_replace_request : OrderCancelReplaceRequest → Request
  order_cancel_request : OrderCancelRequest → Request
  order_mass_status_request : OrderMassStatusRequest → Request
  order_mass_cancel_request : OrderMassCancelRequest → Request
  request_for_positions : RequestForPositions → Request
  trade_capture_report_request : TradeCaptureReportRequest → Request
