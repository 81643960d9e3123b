-- ===== src/Shared/Users.antt =====
-- The users that the authentication service adds and removes (auth::Session::Insert and Remove),
-- and what that means for a logon.
use roq_fix_proxy.Prelude.{ℕ, ◌≡◌, refl, arith, if◌then◌else◌, none, nat_eq}
use roq_fix_proxy.Prelude.Text.{Text, text_eq, text_beq, text_beq_iff}
use roq_fix_proxy.Prelude.Map.{find, find-assign, find-erase}
use roq_fix_proxy.Prelude.Effect.{ok}
use roq_fix_proxy.Externals.{Externals}
use roq_fix_proxy.Crypto.{validate}
use roq_fix_proxy.Shared.{
  Shared, add_user, remove_user, failure, session_logon, after_check, invalid_username,
}

module _ ⦃ext : Externals⦄ where
  -- Once a user is added, or added again with another password, a logon of that user is checked
  -- against that password and leads to the strategy that came with it.
  pub session_logon-add_user :
      (now i : ℕ) (u password raw secret : Text) (k : ℕ) (s : Shared)
      → session_logon now i u password raw (add_user u secret k s)
        ≡ after_check i u k (add_user u secret k s) (validate s.crypto now password secret raw)
  unfolding session_logon add_user
  session_logon-add_user now i u password raw secret k s =
      ground (
        arith,
        find-assign u u (secret, k) s.username_to_password_and_strategy_id,
        text_beq_iff u u,
      )

  -- Once a user is removed, a logon of that user is turned away as one of a user who is not known;
  -- every other user is known as before, and whoever is logged on stays so.
  pub session_logon-remove_user :
      (now i : ℕ) (u w password raw : Text) (s : Shared)
      → (session_logon now i u password raw (remove_user u s)
          ≡ ok (failure invalid_username, remove_user u s))
        × (find w (remove_user u s).username_to_password_and_strategy_id
            ≡ (if text_beq u w then none else find w s.username_to_password_and_strategy_id))
        × ((remove_user u s).username_to_session ≡ s.username_to_session)
  unfolding session_logon remove_user
  session_logon-remove_user now i u w password raw s = (
    ground (arith, find-erase u u s.username_to_password_and_strategy_id, text_beq_iff u u),
    find-erase u w s.username_to_password_and_strategy_id,
    refl,
  )
