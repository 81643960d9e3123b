-- ===== src/Controller/Delivery.antt =====
-- A message of the server's on its way to one session (controller.cpp, dispatch_to_client, and
-- client/session.cpp, the operators that send while the session is ready).
use roq_fix_proxy.Prelude.{ℕ, ◌≡◌, ◌∙◌, ap, ◌+◌, ◌%◌, refl, Bool, true, false, some, ◌∷◌, nat_eq}
use roq_fix_proxy.Prelude.Text.{Text}
use roq_fix_proxy.Prelude.Map.{find, contains, assign}
use roq_fix_proxy.Prelude.Effect.{ok, ◌>>=◌, ◌>>◌, skip}
use roq_fix_proxy.Externals.{Externals}
use roq_fix_proxy.Shared.{u64}
use roq_fix_proxy.Message.Response.{Response}
use roq_fix_proxy.Message.Types.{response_type}
use roq_fix_proxy.World.{World, ClientState, ClientSession, Output, Body}
use roq_fix_proxy.World.Mappings.{MappingName}
use roq_fix_proxy.World.Access.{Method, session_at, modify_mapping}
use roq_fix_proxy.Client.Connection.{client_header, send_response, send}
use roq_fix_proxy.Client.Deliver.{deliver, send_if_ready, is_ready}
use roq_fix_proxy.Controller.Utilities.{remove_req_id, dispatch_to_client}
use roq_fix_proxy.Controller.Responses.{remove_if}

-- What is sent to a session.
abbrev pub to_session : ℕ → ClientSession → Response → World → Output
to_session id c r w =
    Output.to_client id (client_header (response_type r) ((c.outbound_msg_seq_num + 1) % u64) c w)
      (Body.response r)

-- The state once it is sent.
abbrev pub sent : ℕ → ClientSession → Response → World → World
sent id c r w = record w {
  sessions =
      assign id (record c { outbound_msg_seq_num = (c.outbound_msg_seq_num + 1) % u64 }) w.sessions;
  out = to_session id c r w ∷ w.out;
}

sent_to :
    (id : ℕ) (c : ClientSession) (r : Response) (w : World)
    → find id w.sessions ≡ some c
    → send_response id r w ≡ (ok tt, sent id c r w)
unfolding send_response ◌>>◌
sent_to id c r w there = rw (there, send_response, send, session_at) refl

ready_true : (t : ClientState) → t ≡ ClientState.ready → is_ready t ≡ true
unfolding is_ready
ready_true t up = rw up refl

passed_on :
    (id : ℕ) (c : ClientSession) (r : Response) (w : World)
    → find id w.sessions ≡ some c
    → c.state ≡ ClientState.ready
    → send_if_ready id r w ≡ (ok tt, sent id c r w)
unfolding ◌>>◌ send_if_ready
passed_on id c r w there up =
    rw (there, ready_true _ up, send_if_ready, session_at, ◌>>=◌) (sent_to id c r w there)

module _ ⦃ext : Externals⦄ where
  -- The response is one that a session sends on while it is ready.
  pub delivered :
      (id : ℕ) (c : ClientSession) (r : Response) (w : World)
      → deliver id r ≡ send_if_ready id r
      → find id w.sessions ≡ some c
      → c.state ≡ ClientState.ready
      → dispatch_to_client r id w ≡ (ok tt, sent id c r w)
  unfolding dispatch_to_client contains
  delivered id c r w passed there up =
      rw (there, dispatch_to_client, contains)
        (ap (λ (m : Method). m w) passed ∙ passed_on id c r w there up)

pub removed :
    (n : MappingName) (r : Text) (b : Bool) (v : World)
    → ((remove_if n r b v).0 ≡ ok tt) × ((remove_if n r b v).1.out ≡ v.out)
unfolding remove_if remove_req_id modify_mapping skip
removed n r true v = (refl, refl)
removed n r false v = (refl, refl)
