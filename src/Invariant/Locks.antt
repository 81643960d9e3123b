-- ===== src/Invariant/Locks.antt =====
-- The users in every state that the event loop reaches.
use roq_fix_proxy.Prelude.{ℕ, ◌≡◌, Option, none, some, ◌∷◌, ◌⊎◌, nat_eq, nat_beq_iff, arith}
use roq_fix_proxy.Prelude.Text.{Text, text_eq, text_beq_iff}
use roq_fix_proxy.Prelude.Map.{Map, find, find-erase}
use roq_fix_proxy.Prelude.Effect.{Keeps, Keeps-skip, Keeps-then, Keeps-for_each}
use roq_fix_proxy.Externals.{Externals}
use roq_fix_proxy.Mapping.{Mapping, erase_server, close_client}
use roq_fix_proxy.World.{World, Subscriptions, Users}
use roq_fix_proxy.World.Mappings.{MappingName, user-put}
use roq_fix_proxy.World.Access.{Method, modify_mapping}
use roq_fix_proxy.Controller.Disconnect.{
  clear_entry, clear_found, clear_req_ids, forget_user, await_response,
}
use roq_fix_proxy.Controller.Requests.{register}
use roq_fix_proxy.Controller.Responses.{answered}
use roq_fix_proxy.Events.{Reach}
use roq_fix_proxy.Invariant.{Holds, IsClosed, IsQuiet}
use roq_fix_proxy.Invariant.Closure.{Reach-Holds}

-- The user of a session is locked by that session.
pub record IsLocked (u : Users) : Type 0 where
  pub at :
      (name : Text) (id : ℕ)
      → find id u.session_to_client ≡ some name
      → find name u.client_to_session ≡ some id

-- Of the subscriptions, what concerns the users.
abbrev pub Locked : Subscriptions → Type 0
Locked s = IsLocked s.user

Keeps-modify_mapping :
    (n : MappingName) (f : Mapping → Mapping) → Keeps (Holds Locked) (modify_mapping n f)
unfolding modify_mapping
Keeps-modify_mapping n f = record { at = λ w h. rw (user-put n) h }

module _ (n : MappingName) (id : ℕ) (callback : Text → Method)
    (quiet : (r : Text) → IsQuiet (callback r)) where
  Keeps-clear_entry : (e : Text × Text) → Keeps (Holds Locked) (clear_entry n callback e)
  unfolding clear_entry
  Keeps-clear_entry (c, q) =
      Keeps-then (record { at = λ w h. rw ((quiet q).subscriptions w) h })
        (Keeps-modify_mapping n (erase_server q))

  Keeps-clear_found :
      (tmp : Option (Map Text Text)) → Keeps (Holds Locked) (clear_found n id callback tmp)
  unfolding clear_found
  Keeps-clear_found none = Keeps-skip
  Keeps-clear_found (some tmp) =
      Keeps-then (Keeps-for_each tmp Keeps-clear_entry) (Keeps-modify_mapping n (close_client id))

  Keeps-clear_req_ids : Keeps (Holds Locked) (clear_req_ids n id callback)
  unfolding clear_req_ids
  Keeps-clear_req_ids = record { at = λ w h. (Keeps-clear_found _).at w h }

module _ (u : Users) (v : IsLocked u) (name : Text) (id : ℕ) where
  added-IsLocked :
      find name u.client_to_session ≡ none
      → IsLocked (record u {
        client_to_session = (name, id) ∷ u.client_to_session;
        session_to_client = (id, name) ∷ u.session_to_client;
      })
  unfolding find
  added-IsLocked free = record {
    at = λ other i e. ground (arith, v.at other i, free, text_beq_iff name other, nat_beq_iff id i);
  }

  half-IsLocked :
      find name u.client_to_session ≡ none
      → IsLocked (record u { client_to_session = (name, id) ∷ u.client_to_session })
  unfolding find
  half-IsLocked free = record {
    at = λ other i e. ground (arith, v.at other i e, free, text_beq_iff name other);
  }

  forget_user-IsLocked :
      (find name u.client_to_session ≡ some id) ⊎ (find id u.session_to_client ≡ some name)
      → IsLocked (forget_user id name u)
  unfolding forget_user
  forget_user-IsLocked own = record {
    at = λ other i e. ground (
      arith,
      find-erase name other u.client_to_session,
      find-erase id i u.session_to_client,
      v.at other i,
      v.at name id,
      own,
      text_beq_iff name other,
      nat_beq_iff id i,
    );
  }

Locked-IsClosed : IsClosed Locked
unfolding await_response register answered
Locked-IsClosed = record {
  opened = λ n id s v. rw (user-put n) v;
  added = λ n c r id k s unused v. rw (user-put n) v;
  unnamed = λ r id s v. v;
  removed = λ n r s v. rw (user-put n) v;
  relaxed = λ r k m s e v. v;
  cleared = λ n id callback quiet. Keeps-clear_req_ids n id callback quiet;
  user_added = λ name id s a b v. added-IsLocked s.user v name id a;
  half_added = λ name id s a v. half-IsLocked s.user v name id a;
  user_removed = λ name id s own v. forget_user-IsLocked s.user v name id own;
  user_awaits = λ r id s v. record { at = v.at };
  user_registers = λ r id s v. record { at = v.at };
  user_answers = λ r id s v. record { at = v.at };
}

module _ ⦃ext : Externals⦄ where
  -- In every state that the event loop reaches from one where it is so, the user that a session
  -- stands for is locked by that session and by no other.
  pub Reach-IsLocked :
      (w v : World) → Reach w v → IsLocked w.subscriptions.user → IsLocked v.subscriptions.user
  Reach-IsLocked w v r h = Reach-Holds Locked Locked-IsClosed w v r h
