-- ===== src/Shared/Pairing.antt =====
-- Who is logged on where: the two maps of Shared are inverse to one another, so a user is in one
-- session and a session has one user. Every operation keeps this.
use roq_fix_proxy.Prelude.{
  ℕ, ◌≡◌, some, List, [], ◌∷◌, arith, inl, inr, nat_eq, nat_beq_iff, Option-cases,
}
use roq_fix_proxy.Prelude.Text.{Text, text_eq, text_beq_iff}
use roq_fix_proxy.Prelude.Map.{find, erase, find-erase}
use roq_fix_proxy.Shared.{
  Shared, session_remove_helper, session_remove, session_logout_helper, cleanup_each,
  session_cleanup,
}

abbrev pub LoggedOn : Shared → Text → ℕ → Type 0
LoggedOn s username session_id = find username s.username_to_session ≡ some session_id

pub record IsPaired (s : Shared) : Type 0 where
  pub to_session :
      (session_id : ℕ) (username : Text)
      → find session_id s.session_to_username ≡ some username
      → find username s.username_to_session ≡ some session_id
  pub to_username :
      (username : Text) (session_id : ℕ)
      → find username s.username_to_session ≡ some session_id
      → find session_id s.session_to_username ≡ some username

-- Both entries of a session go together.
abbrev pub leave : ℕ → Text → Shared → Shared
leave session_id username s = record s {
  username_to_session = erase username s.username_to_session;
  session_to_username = erase session_id s.session_to_username;
}

module _ (s : Shared) (v : IsPaired s) where
  pub leave-IsPaired :
      (session_id : ℕ) (username : Text)
      → find session_id s.session_to_username ≡ some username
      → IsPaired (leave session_id username s)
  leave-IsPaired i u known = record {
    to_session = λ j w f. ground (
      arith,
      find-erase i j s.session_to_username,
      find-erase u w s.username_to_session,
      nat_beq_iff i j,
      text_beq_iff u w,
      v.to_session j w,
      v.to_session i u,
    );
    to_username = λ w j f. ground (
      arith,
      find-erase i j s.session_to_username,
      find-erase u w s.username_to_session,
      nat_beq_iff i j,
      text_beq_iff u w,
      v.to_username w j,
      v.to_session i u,
    );
  }

  pub session_remove_helper-IsPaired :
      (session_id : ℕ) → IsPaired (session_remove_helper session_id s)
  unfolding session_remove_helper
  session_remove_helper-IsPaired i = elim (Option-cases (find i s.session_to_username)) [
    | inl absent ↦ rw (absent, session_remove_helper) v
    | inr (u, known) ↦ rw (known, session_remove_helper) (leave-IsPaired i u known)
  ]

  pub session_logout-IsPaired : (session_id : ℕ) → IsPaired (session_logout_helper session_id s).1
  unfolding session_logout_helper
  session_logout-IsPaired i = elim (Option-cases (find i s.session_to_username)) [
    | inl absent ↦ rw (absent, session_logout_helper) v
    | inr (u, known) ↦ rw (known, session_logout_helper) (leave-IsPaired i u known)
  ]

-- The removal of a session leaves sessions and users paired.
pub session_remove-IsPaired :
    (s : Shared) → IsPaired s → (session_id : ℕ) → IsPaired (session_remove session_id s)
unfolding session_remove
session_remove-IsPaired s v i =
    session_remove_helper-IsPaired _
      (record { to_session = v.to_session; to_username = v.to_username }) i

cleanup_each-IsPaired : (ids : List ℕ) (s : Shared) → IsPaired s → IsPaired (cleanup_each ids s)
unfolding cleanup_each
cleanup_each-IsPaired [] s v = v
cleanup_each-IsPaired (i ∷ ids) s v =
    cleanup_each-IsPaired ids (session_remove_helper i s) (session_remove_helper-IsPaired s v i)

-- The removal of all the sessions that wait for it leaves sessions and users paired.
pub session_cleanup-IsPaired : (s : Shared) → IsPaired s → IsPaired (session_cleanup s).1
unfolding session_cleanup
session_cleanup-IsPaired s v =
    let w = cleanup_each-IsPaired s.sessions_to_remove s v in
    record { to_session = w.to_session; to_username = w.to_username }
