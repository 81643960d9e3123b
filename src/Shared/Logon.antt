-- ===== src/Shared/Logon.antt =====
-- session_logon and session_logout_helper: who gets in, what a refusal leaves behind, and that a
-- user who has left may come back.
use roq_fix_proxy.Prelude.{
  ℕ, ◌≡◌, refl, Bool, true, false, none, some, arith, inl, inr, nat_eq, nat_beq, nat_beq_iff,
  Option-cases, subst, if◌then◌else◌,
}
use roq_fix_proxy.Prelude.Text.{Text, text_eq, text_beq, text_beq_iff}
use roq_fix_proxy.Prelude.Map.{find, or_else, find-erase, find-try_emplace}
use roq_fix_proxy.Prelude.Effect.{Error, Result, ok, err}
use roq_fix_proxy.Externals.{Externals}
use roq_fix_proxy.Crypto.{validate}
use roq_fix_proxy.Shared.{
  Shared, session_logout_helper, LogonResult, success, failure, enter, admit, after_check,
  session_logon, invalid_username, invalid_password, already_logged_on,
}
use roq_fix_proxy.Shared.Pairing.{IsPaired, LoggedOn}

-- The user has entered in the session: each of the two maps knows of it, where the session had no user,
-- and nothing else is another.
pub record IsEntered (i : ℕ) (u : Text) (s t : Shared) : Type 0 where
  pub users :
      (w : Text)
      → find w t.username_to_session
        ≡ (if text_beq u w then some i else find w s.username_to_session)
  pub sessions :
      (j : ℕ)
      → find j t.session_to_username ≡ (
          if nat_beq i j
          then or_else (find i s.session_to_username) u
          else find j s.session_to_username)
  pub rest : t ≡ record s {
    username_to_session = t.username_to_session;
    session_to_username = t.session_to_username;
  }

enter-IsEntered :
    (i : ℕ) (u : Text) (s : Shared)
    → find u s.username_to_session ≡ none
    → IsEntered i u s (enter i u s)
unfolding enter
enter-IsEntered i u s absent = record {
  users =
      λ w. ground (arith, find-try_emplace u w i s.username_to_session, text_beq_iff u w, absent);
  sessions = λ j. ground (arith, find-try_emplace i j u s.session_to_username, nat_beq_iff i j);
  rest = refl;
}

-- A user who enters in a session that has none leaves the pairing as it was.
IsEntered-IsPaired :
    (i : ℕ) (u : Text) (s t : Shared)
    → IsPaired s
    → find i s.session_to_username ≡ none
    → find u s.username_to_session ≡ none
    → IsEntered i u s t
    → IsPaired t
IsEntered-IsPaired i u s t v free absent e = record {
  to_session = λ j w f. ground (
    arith,
    e.users w,
    e.sessions j,
    free,
    nat_beq_iff i j,
    text_beq_iff u w,
    v.to_session j w,
    v.to_username w j,
  );
  to_username = λ w j f. ground (
    arith,
    e.users w,
    e.sessions j,
    free,
    nat_beq_iff i j,
    text_beq_iff u w,
    v.to_username w j,
    v.to_session j w,
  );
}

module _ ⦃ext : Externals⦄ where
  -- The outcome that the specification of a logon asks for.
  pub data Outcome (now i : ℕ) (u password raw : Text) (s : Shared)
      : Result (LogonResult × Shared) → Type 0 where
    unknown :
        find u s.username_to_password_and_strategy_id ≡ none
        → Outcome now i u password raw s (ok (failure invalid_username, s))
    raised :
        (secret : Text) (k : ℕ) (e : Error)
        → find u s.username_to_password_and_strategy_id ≡ some (secret, k)
        → validate s.crypto now password secret raw ≡ err e
        → Outcome now i u password raw s (err e)
    wrong :
        (secret : Text) (k : ℕ)
        → find u s.username_to_password_and_strategy_id ≡ some (secret, k)
        → validate s.crypto now password secret raw ≡ ok false
        → Outcome now i u password raw s (ok (failure invalid_password, s))
    busy :
        (secret : Text) (k j : ℕ)
        → find u s.username_to_password_and_strategy_id ≡ some (secret, k)
        → validate s.crypto now password secret raw ≡ ok true
        → LoggedOn s u j
        → Outcome now i u password raw s (ok (failure already_logged_on, s))
    entered :
        (secret : Text) (k : ℕ) (t : Shared)
        → find u s.username_to_password_and_strategy_id ≡ some (secret, k)
        → validate s.crypto now password secret raw ≡ ok true
        → find u s.username_to_session ≡ none
        → IsEntered i u s t
        → Outcome now i u password raw s (ok (success k, t))

  admit-Outcome :
      (now i : ℕ) (u password raw : Text) (s : Shared) (secret : Text) (k : ℕ)
      → find u s.username_to_password_and_strategy_id ≡ some (secret, k)
      → validate s.crypto now password secret raw ≡ ok true
      → Outcome now i u password raw s (ok (admit i u k s))
  unfolding admit
  admit-Outcome now i u password raw s secret k f g =
      elim (Option-cases (find u s.username_to_session)) [
        | inl absent ↦
            rw (absent, admit)
              (Outcome.entered secret k (enter i u s) f g absent (enter-IsEntered i u s absent))
        | inr (j, there) ↦ rw (there, admit) (Outcome.busy secret k j f g there)
      ]

  after_check-Outcome :
      (now i : ℕ) (u password raw : Text) (s : Shared) (secret : Text) (k : ℕ) (r : Result Bool)
      → find u s.username_to_password_and_strategy_id ≡ some (secret, k)
      → validate s.crypto now password secret raw ≡ r
      → Outcome now i u password raw s (after_check i u k s r)
  unfolding after_check
  after_check-Outcome now i u password raw s secret k (err e) f g = Outcome.raised secret k e f g
  after_check-Outcome now i u password raw s secret k (ok false) f g = Outcome.wrong secret k f g
  after_check-Outcome now i u password raw s secret k (ok true) f g =
      admit-Outcome now i u password raw s secret k f g

  -- Every logon ends in one of five ways: the user is unknown, the check of the password throws, the
  -- password is wrong, the user is logged on already, or the user enters with its strategy. Only in the
  -- last is the state another one than before: the user leads to the session, the session to the user
  -- unless it had one, and all other users, sessions and fields are as they were.
  pub session_logon-Outcome :
      (now i : ℕ) (u password raw : Text) (s : Shared)
      → Outcome now i u password raw s (session_logon now i u password raw s)
  unfolding session_logon
  session_logon-Outcome now i u password raw s =
      elim (Option-cases (find u s.username_to_password_and_strategy_id)) [
        | inl absent ↦ rw (absent, session_logon) (Outcome.unknown absent)
        | inr ((secret, k), f) ↦
            rw (f, session_logon) (after_check-Outcome now i u password raw s secret k _ f refl)
      ]

  -- A logon keeps the pairing, where the session itself is not logged on.
  Outcome-IsPaired :
      (now i : ℕ) (u password raw : Text) (s t : Shared) (r : LogonResult)
      → IsPaired s
      → find i s.session_to_username ≡ none
      → {o : Result (LogonResult × Shared)} → o ≡ ok (r, t)
      → Outcome now i u password raw s o
      → IsPaired t
  Outcome-IsPaired now i u password raw s t r v free e (Outcome.unknown f) = subst IsPaired (cc) v
  Outcome-IsPaired now i u password raw s t r v free e (Outcome.raised secret k x f g) = cc
  Outcome-IsPaired now i u password raw s t r v free e (Outcome.wrong secret k f g) =
      subst IsPaired (cc) v
  Outcome-IsPaired now i u password raw s t r v free e (Outcome.busy secret k j f g h) =
      subst IsPaired (cc) v
  Outcome-IsPaired now i u password raw s t r v free e (Outcome.entered secret k x f g h n) =
      subst IsPaired (cc) (IsEntered-IsPaired i u s x v free h n)

  -- A logon that returns, of a session that is not logged on, leaves every session paired with its
  -- user and every user with its session, where they were so before.
  pub session_logon-IsPaired :
      (now i : ℕ) (u password raw : Text) (s t : Shared) (r : LogonResult)
      → IsPaired s
      → find i s.session_to_username ≡ none
      → session_logon now i u password raw s ≡ ok (r, t)
      → IsPaired t
  session_logon-IsPaired now i u password raw s t r v free e =
      Outcome-IsPaired now i u password raw s t r v free e
        (session_logon-Outcome now i u password raw s)

  -- A user who is logged on in one session, with a good password, is turned away in any session, and
  -- is let in there once the first session has logged out, where users and sessions are paired.
  pub logon_after_logout :
      (now i j : ℕ) (u password raw secret : Text) (k : ℕ) (s : Shared)
      → IsPaired s
      → LoggedOn s u i
      → find u s.username_to_password_and_strategy_id ≡ some (secret, k)
      → validate s.crypto now password secret raw ≡ ok true
      → let t = (session_logout_helper i s).1 in
        (session_logon now j u password raw s ≡ ok (failure already_logged_on, s))
        × (session_logon now j u password raw t ≡ ok (success k, enter j u t))
  unfolding session_logon session_logout_helper
  logon_after_logout now i j u password raw secret k s v on f g = (
    ground (arith, on, f, g),
    ground (
      arith,
      v.to_username u i,
      on,
      f,
      g,
      find-erase u u s.username_to_session,
      text_beq_iff u u,
    ),
  )
