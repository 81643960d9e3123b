-- ===== src/Examples/Logons.antt =====
-- The theorems on passwords, users and logons at concrete states.
use roq_fix_proxy.Prelude.{
  ◌≡◌, ◌↔◌, refl, true, none, [], ◌∷◌, subst, arith, if◌then◌else◌, nat_beq_iff, nat_eq,
}
use roq_fix_proxy.Prelude.Text.{codes, text_eq, text_beq, text_beq_iff}
use roq_fix_proxy.Prelude.Map.{find}
use roq_fix_proxy.Prelude.Effect.{ok}
use roq_fix_proxy.Crypto.{Crypto, Method, validate}
use roq_fix_proxy.Crypto.Acceptance.{Good, InRange, validate-iff-Good}
use mathlib.Core.Option.{some-injective}
use roq_fix_proxy.Shared.{
  success, failure, enter, already_logged_on, session_logon, session_logout_helper, session_cleanup,
  session_remove, add_user, remove_user, after_check, invalid_username,
}
use roq_fix_proxy.Shared.Pairing.{IsPaired, session_cleanup-IsPaired, session_remove-IsPaired}
use roq_fix_proxy.Shared.Logon.{
  Outcome, session_logon-Outcome, session_logon-IsPaired, logon_after_logout,
}
use roq_fix_proxy.Shared.Users.{session_logon-add_user, session_logon-remove_user}
use roq_fix_proxy.Examples.Data.{plain, user, secret, idle, busy}

busy-IsPaired : IsPaired busy
unfolding find
busy-IsPaired = record {
  to_session = λ i u e. ground (arith, nat_beq_iff 7 i, text_beq_iff user u);
  to_username = λ u i e. ground (arith, nat_beq_iff 7 i, text_beq_iff user u);
}

idle-IsPaired : IsPaired idle
unfolding find
idle-IsPaired = record { to_session = λ i u e. absurd cc; to_username = λ u i e. absurd cc }

abbrev stamped : Crypto
stamped = record { method = Method.hmac_sha256_ts; timestamp_tolerance = 5 }

-- The time stamp 0 at the time 3.
validate-iff-Good_example :
    (validate stamped 3 secret secret (codes "0.nonce") ≡ ok true)
    ↔ Good stamped Method.hmac_sha256_ts 3 secret secret (codes "0.nonce")
validate-iff-Good_example =
    validate-iff-Good stamped 3 secret secret (codes "0.nonce")
      (λ digits tmp e f. subst (InRange 3) (some-injective _ _ f) (omega arith))

session_logon-Outcome_example :
    Outcome 0 7 user secret [] idle (session_logon 0 7 user secret [] idle)
session_logon-Outcome_example = session_logon-Outcome 0 7 user secret [] idle

session_logon-IsPaired_example : IsPaired (enter 7 user idle)
unfolding session_logon find text_beq validate
session_logon-IsPaired_example =
    session_logon-IsPaired 0 7 user secret [] idle (enter 7 user idle) (success 3) idle-IsPaired
      refl refl

logon_after_logout_example :
    let t = (session_logout_helper 7 busy).1 in
    (session_logon 0 8 user secret [] busy ≡ ok (failure already_logged_on, busy))
    × (session_logon 0 8 user secret [] t ≡ ok (success 3, enter 8 user t))
unfolding find text_beq validate
logon_after_logout_example =
    logon_after_logout 0 7 8 user secret [] secret 3 busy busy-IsPaired refl refl refl

-- Session 7 waits for its removal.
session_cleanup-IsPaired_example :
    IsPaired (session_cleanup (record busy { sessions_to_remove = 7 ∷ [] })).1
session_cleanup-IsPaired_example =
    session_cleanup-IsPaired (record busy { sessions_to_remove = 7 ∷ [] })
      (record { to_session = busy-IsPaired.to_session; to_username = busy-IsPaired.to_username })

session_remove-IsPaired_example : IsPaired (session_remove 7 busy)
session_remove-IsPaired_example = session_remove-IsPaired busy busy-IsPaired 7

session_logon-add_user_example :
    session_logon 0 8 user (codes "new") [] (add_user user (codes "new") 4 idle)
    ≡ after_check 8 user 4
        (add_user user (codes "new") 4 idle)
        (validate idle.crypto 0 (codes "new") (codes "new") [])
session_logon-add_user_example =
    session_logon-add_user 0 8 user (codes "new") [] (codes "new") 4 idle

session_logon-remove_user_example :
    (session_logon 0 8 user secret [] (remove_user user idle)
      ≡ ok (failure invalid_username, remove_user user idle))
    × (find (codes "ann") (remove_user user idle).username_to_password_and_strategy_id ≡ (
        if text_beq user (codes "ann")
        then none
        else find (codes "ann") idle.username_to_password_and_strategy_id))
    × ((remove_user user idle).username_to_session ≡ idle.username_to_session)
session_logon-remove_user_example = session_logon-remove_user 0 8 user (codes "ann") secret [] idle
