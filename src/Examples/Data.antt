-- ===== src/Examples/Data.antt =====
-- The data of the runs: one strategy that is logged on in session 7, with one order and one
-- subscription of market data open.
use roq_fix_proxy.Prelude.{
  ℕ, zero, suc, ◌≡◌, refl, ap, Bool, true, false, Option, none, some, List, [], ◌∷◌, arith,
  if◌then◌else◌, Bool-cases, nat_beq, inl, inr, nat_eq,
}
use roq_fix_proxy.Prelude.Text.{Text, codes, Lacks, text_eq}
use roq_fix_proxy.Externals.{Externals, IsDocumented, pos}
use roq_fix_proxy.Crypto.{Method}
use roq_fix_proxy.Config.Toml.{Scalar, string, other}
use roq_fix_proxy.Auth.Json.{Json, Items, Members, member}
use roq_fix_proxy.Auth.Updates.{Update, items}
use roq_fix_proxy.Shared.{Shared, Settings}
use roq_fix_proxy.Mapping.{Mapping, Route, empty}
use roq_fix_proxy.Message.Request.{Request}
use roq_fix_proxy.Message.Response.{MarketDataSnapshotFullRefresh}
use roq_fix_proxy.Message.Enums.{MsgType, SubscriptionRequestType}
use roq_fix_proxy.Config.{Config}
use roq_fix_proxy.Startup.{new_world, new_shared}
use roq_fix_proxy.World.{
  Clock, World, ServerState, ClientSession, ClientState, Subscriptions, Header,
}

-- A number in the digits `1`, as many as it says.
abbrev pub ones : ℕ → Text
ones zero = []
ones (suc n) = b'1' ∷ ones n

-- The number that a text of digits stands for.
abbrev pub count : Text → ℕ
count [] = 0
count (a ∷ t) = suc (count t)

abbrev pub scalar_length : Scalar → Option ℕ
scalar_length (string t) = none
scalar_length (other t) = some (count t)

-- A user who is added and removed, and then another one.
abbrev pub two_updates_list : List Update
two_updates_list =
    Update.insert (codes "c") (codes "ann") (codes "x") 2
    ∷ Update.remove (codes "c") (codes "ann")
    ∷ Update.insert (codes "c") (codes "bob") (codes "y") 1
    ∷ []

abbrev pub two_updates : Json
two_updates =
    Json.object
      (member (codes "result") (Json.array (items ones two_updates_list Items.none)) Members.empty)

-- An update, and an entry that says nothing.
abbrev pub one_update_list : List Update
one_update_list = Update.insert (codes "c") (codes "ann") (codes "x") 2 ∷ []

abbrev pub broken : Json
broken = Json.object (
    member (codes "result")
      (Json.array (items ones one_update_list (Items.more Json.null Items.none))) Members.empty)

abbrev pub json_of : Text → Json
json_of [] = two_updates
json_of (a ∷ t) = broken

abbrev pub no_colon : Text → Bool
no_colon [] = true
no_colon (a ∷ t) = if nat_beq a b':' then false else no_colon t

-- Functions in place of the libraries that the proxy uses.
instance abbrev pub plain : Externals
plain = record {
  format = ones;
  format_nanoseconds = ones;
  base64_is_valid = no_colon;
  base64_encode = λ t. t;
  hmac_sha256 = λ key text. key;
  from_chars = λ t. some (pos 0);
  regex_match = λ p t. true;
  is_order_complete = λ s. false;
  is_valid = λ r. true;
  toml_parse = λ t. none;
  toml_uint32 = scalar_length;
  json_parse = λ t. some (json_of t);
  json_uint32 = count;
}

pub count-ones : (n : ℕ) → count (ones n) ≡ n
count-ones zero = refl
count-ones (suc n) = ap suc (count-ones n)

ones-Lacks : (n : ℕ) → Lacks b':' (ones n)
ones-Lacks zero = tt
ones-Lacks (suc n) = (refl, ones-Lacks n)

ones_injective : (m n : ℕ) → ones m ≡ ones n → m ≡ n
ones_injective zero zero e = refl
ones_injective zero (suc n) e = absurd cc
ones_injective (suc m) zero e = absurd cc
ones_injective (suc m) (suc n) e = ap suc (ones_injective m n cc)

no_colon-Lacks : (t : Text) → no_colon t ≡ true → Lacks b':' t
no_colon-Lacks [] e = tt
no_colon-Lacks (a ∷ t) e = elim (Bool-cases (nat_beq a b':')) [
  | inl hit ↦ absurd (ground (arith, hit, e))
  | inr miss ↦ (miss, no_colon-Lacks t (ground (arith, miss, e)))
]

pub plain-IsDocumented : IsDocumented plain
plain-IsDocumented = record {
  format_digits = ones-Lacks;
  format_injective = ones_injective;
  base64_alphabet = no_colon-Lacks;
}

abbrev pub user : Text
user = codes "joe"

abbrev pub secret : Text
secret = codes "pw"

abbrev pub settings : Settings
settings = record {
  client = record {
    comp_id = codes "proxy";
    logon_timeout = 5;
    logon_heartbeat_min = 1;
    logon_heartbeat_max = 100;
    heartbeat_freq = 10;
    auth_method = [];
    auth_timestamp_tolerance = 0;
  };
  server = record {
    username = user;
    password = secret;
    sender_comp_id = codes "proxy";
    target_comp_id = codes "gateway";
    ping_freq = 10;
    request_timeout = 5;
  };
  disable_remove_cl_ord_id = false;
}

-- One user, who is not logged on.
abbrev pub idle : Shared
idle = record {
  settings = settings;
  next_session_id = 7;
  username_to_password_and_strategy_id = (user, (secret, 3)) ∷ [];
  username_to_session = [];
  session_to_username = [];
  sessions_to_remove = [];
  regex_symbols = [];
  next_request_id = 100;
  crypto = record { method = Method.undefined; timestamp_tolerance = 0 };
}

-- The same user, logged on in session 7.
abbrev pub busy : Shared
busy = record idle { username_to_session = (user, 7) ∷ []; session_to_username = (7, user) ∷ [] }

abbrev pub session : ClientState → ClientSession
session state = record {
  logon_timeout = 0;
  state = state;
  outbound_msg_seq_num = 4;
  inbound_msg_seq_num = 4;
  comp_id = codes "client";
  username = user;
  user_response_timeout = 0;
  party_id = ones 3;
  next_heartbeat = 0;
  waiting_for_heartbeat = false;
}

abbrev pub route : Text → Route
route req_id = record { session_id = 7; req_id = req_id; keep_alive = true }

-- The request `c` of session 7 is the server's `r`.
abbrev pub one_route : Text → Text → Mapping
one_route c r = record {
  server_to_client = (r, route c) ∷ [];
  client_to_server = (7, (c, r) ∷ []) ∷ [];
}

abbrev pub subscriptions : Subscriptions
subscriptions = record {
  user = record {
    client_to_session = (ones 3, 7) ∷ [];
    session_to_client = (7, ones 3) ∷ [];
    server_to_client = [];
    client_to_server = [];
  };
  security_req_id = empty;
  security_status_req_id = empty;
  trad_ses_req_id = empty;
  md_req_id = one_route (codes "m") (codes "proxy-11");
  ord_status_req_id = empty;
  mass_status_req_id = empty;
  pos_req_id = empty;
  trade_request_id = empty;
  cl_ord_id = one_route (codes "o") (codes "proxy-111:o");
  mass_cancel_cl_ord_id = empty;
}

abbrev pub world : ClientState → World
world state = record {
  shared = busy;
  server = record {
    state = ServerState.ready;
    inbound_msg_seq_num = 1;
    outbound_msg_seq_num = 1;
    next_heartbeat = 0;
  };
  sessions = (7, session state) ∷ [];
  next_garbage_collection = 0;
  ready = true;
  subscriptions = subscriptions;
  cl_ord_id = [];
  total_num_pos_reports = 0;
  clock = record { system = 0; realtime = 0 };
  out = [];
}

abbrev pub header : Header
header = record {
  msg_type = MsgType.market_data_request;
  sender_comp_id = codes "client";
  target_comp_id = codes "proxy";
  msg_seq_num = 5;
  sending_time = 0;
}

abbrev pub md_request : Text → Request
md_request id = Request.market_data_request (record {
  md_req_id = id;
  subscription_request_type = SubscriptionRequestType.unsubscribe;
  fields = [];
})

abbrev pub snapshot : MarketDataSnapshotFullRefresh
snapshot = record { md_req_id = codes "proxy-11"; fields = [] }

abbrev pub config : Config
config = record {
  symbols = codes ".*" ∷ [];
  users =
      (
        codes "u",
        record {
          component = codes "c";
          username = user;
          password = secret;
          accounts = [];
          strategy_id = 3;
        },
      )
      ∷ [];
}

abbrev pub clock : Clock
clock = record { system = 1; realtime = 5 }

-- The proxy, just started.
abbrev pub started : World
started = new_world (new_shared settings config clock Method.undefined) clock
