-- ===== src/Invariant/Sweep.antt =====
-- The timer: it drops the sessions that are overdue.
use roq_fix_proxy.Prelude.{ℕ, ◌≡◌, Option, none, some, arith, nat_eq}
use roq_fix_proxy.Prelude.Text.{Text}
use roq_fix_proxy.Prelude.Map.{Map}
use roq_fix_proxy.Prelude.Effect.{
  throw, Keeps, Keeps-skip, Keeps-if, Keeps-then, Keeps-bind, Keeps-gets, Returns,
}
use roq_fix_proxy.Externals.{Externals}
use roq_fix_proxy.Message.Request.{Request}
use roq_fix_proxy.World.{World, ClientSession}
use roq_fix_proxy.World.Access.{Method, modify_mapping, modify_users, create_request_id}
use roq_fix_proxy.Server.Send.{dispatch_to_server}
use roq_fix_proxy.Controller.Disconnect.{unsubscribe_market_data, release_user, client_disconnected}
use roq_fix_proxy.Invariant.Sessions.{Keeps-log_off_user}
use roq_fix_proxy.Invariant.Returning.{
  IsHonest, Returns-handler, Returns-modify_mapping, Returns-unsubscribe, Returns-release_user,
}
use roq_fix_proxy.Invariant.Dropping.{LetsDrop}

-- What is sent to the server leaves the client sessions alone.
module _ (m : Map ℕ ClientSession) where
  abbrev Same : World → Type 0
  Same w = w.sessions ≡ m

  Same-dispatch : (r : Request) → Keeps Same (dispatch_to_server r)
  unfolding dispatch_to_server throw
  Same-dispatch r = record { at = λ w h. ground arith }

  Same-unsubscribe : (r : Text) → Keeps Same (unsubscribe_market_data r)
  unfolding unsubscribe_market_data
  Same-unsubscribe r = record { at = λ w h. (Keeps-if w.ready (Same-dispatch _) Keeps-skip).at w h }

  module _ ⦃ext : Externals⦄ (id : ℕ) where
    Same-create : Keeps Same create_request_id
    unfolding create_request_id
    Same-create = record { at = λ w h. h }

    Same-release : (user : Option Text) → Keeps Same (release_user id user)
    unfolding release_user modify_users
    Same-release none = Keeps-skip
    Same-release (some name) = Keeps-bind (Keeps-gets _) (λ ready.
        Keeps-then
          (Keeps-if ready (Keeps-log_off_user Same id name Same-create Same-dispatch (λ r w h. h))
            Keeps-skip)
          (record { at = λ w h. h }))

  -- What returns from an honest state returns with the same sessions.
  HonestWith : World → Type 0
  HonestWith w = IsHonest w × Same w

  both : {a : Method} → Returns IsHonest a → Keeps Same a → Returns HonestWith a
  unfolding HonestWith
  both r k = record { at = λ w h. let x = r.at w h.0 in (x.0, (x.1, k.at w h.1)) }

  module _ ⦃ext : Externals⦄ (id : ℕ) where
    client_disconnected-Returns : Returns HonestWith (client_disconnected id)
    unfolding modify_mapping
    client_disconnected-Returns =
        Returns-handler HonestWith
          (λ n f. both (Returns-modify_mapping n f) (record { at = λ w h. h })) id
          (λ r. both (Returns-unsubscribe r) (Same-unsubscribe r))
          (λ user. both (Returns-release_user id user) (Same-release id user))

module _ ⦃ext : Externals⦄ where
  pub Honest-LetsDrop : LetsDrop IsHonest
  unfolding HonestWith
  Honest-LetsDrop = record {
    with_sessions = λ m s w h. record { at = h.at };
    with_out = λ o w h. record { at = h.at };
    returns = λ id m. client_disconnected-Returns m id;
  }
