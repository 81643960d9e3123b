-- ===== src/Controller/Subscribe.antt =====
-- What the handlers of the requests that can subscribe share (controller.cpp): the lookup of the
-- request id among those of the session, the switch on the kind of subscription, and the two ways
-- to forward the request.
use roq_fix_proxy.Prelude.{ℕ, Bool, true, false, Option, none, some}
use roq_fix_proxy.Prelude.Text.{Text}
use roq_fix_proxy.Prelude.Effect.{Result, ◌>>=◌, ◌>>◌, gets}
use roq_fix_proxy.Message.Enums.{SubscriptionRequestType}
use roq_fix_proxy.Message.Request.{Request}
use roq_fix_proxy.Mapping.{find_client, open_client}
use roq_fix_proxy.World.{World}
use roq_fix_proxy.World.Mappings.{MappingName, get}
use roq_fix_proxy.World.Access.{Method, modify_mapping}
use roq_fix_proxy.Server.Send.{dispatch_to_server}
use roq_fix_proxy.Controller.Utilities.{add_req_id, remove_req_id}

-- Why a request is rejected.
pub data Refusal : Type 0 where
  validation unknown_type duplicate unknown_id : Refusal

unfoldable pub is_some {ℓ} : {A : Type ℓ} → Option A → Bool
is_some none = false
is_some (some a) = true

-- `auto &client_to_server = mapping.client_to_server[session_id];` and the lookup in it
unfoldable pub lookup_req_id : MappingName → ℕ → Text → World → Result (Option Text) × World
unfolding modify_mapping
lookup_req_id n session_id req_id = do
  modify_mapping n (open_client session_id)
  gets (λ (w : World). find_client session_id req_id (get n w.subscriptions))

-- switch (subscription_request_type)
unfoldable pub switch :
    SubscriptionRequestType → Bool → (Refusal → Method) → (Bool → Method) → Method → Method
switch SubscriptionRequestType.undefined exists reject start stop = reject Refusal.unknown_type
switch SubscriptionRequestType.unknown exists reject start stop = reject Refusal.unknown_type
switch SubscriptionRequestType.snapshot true reject start stop = reject Refusal.duplicate
switch SubscriptionRequestType.snapshot false reject start stop = start false
switch SubscriptionRequestType.snapshot_updates true reject start stop = reject Refusal.duplicate
switch SubscriptionRequestType.snapshot_updates false reject start stop = start true
switch SubscriptionRequestType.unsubscribe true reject start stop = stop
switch SubscriptionRequestType.unsubscribe false reject start stop = reject Refusal.unknown_id

-- How the id that the server gets is made.
abbrev pub NewId : Type 0
NewId = World → Result Text × World

-- dispatch(keep_alive) of a request that is new
unfoldable pub start_request : MappingName → ℕ → Text → NewId → (Text → Request) → Bool → Method
unfolding add_req_id
start_request n session_id req_id new_id message keep_alive = do
  request_id ← new_id
  dispatch_to_server (message request_id)
  add_req_id n req_id request_id session_id keep_alive

-- dispatch(false) of a request that exists
unfoldable pub stop_request : MappingName → NewId → (Text → Request) → Method
unfolding remove_req_id
stop_request n new_id message = do
  request_id ← new_id
  dispatch_to_server (message request_id)
  remove_req_id n request_id

-- The handler from the lookup on.
unfoldable pub subscribe :
    MappingName
    → ℕ
    → Text
    → SubscriptionRequestType
    → NewId
    → (Text → Request)
    → (Refusal → Method)
    → Method
unfolding lookup_req_id switch start_request stop_request is_some
subscribe n session_id req_id type new_id message reject = do
  existing ← lookup_req_id n session_id req_id
  switch type (is_some existing) reject (start_request n session_id req_id new_id message)
      (stop_request n new_id message)
