-- ===== src/Mapping/Routing.antt =====
-- The invariant of a mapping, and that every operation on a mapping keeps it.
use roq_fix_proxy.Prelude.{
  ℕ, ◌≡◌, refl, Bool, true, false, ◌&&◌, none, some, [], ◌∷◌, arith, inl, inr, ◌⊎◌, sym, ◌∙◌,
  Option-cases, nat_beq_iff, nat_eq, subst,
}
use mathlib.Core.Option.{some-injective}
use roq_fix_proxy.Prelude.Text.{Text, text_beq_iff, text_eq, is_empty}
use roq_fix_proxy.Prelude.Map.{find, assign, find-assign}
use roq_fix_proxy.Mapping.{
  Mapping, Route, find_client, open_client, emplace_client, emplace_server, erase_client,
  erase_server, add_req_id, remove_req_id, set_keep_alive, empty,
}
use roq_fix_proxy.Mapping.Laws.{
  find_client-open_client, find_client-emplace_client, find_client-erase_client,
  server_to_client-erase_client, find_client-emplace_server, find_server-emplace_server,
  find_client-erase_server, find_server-erase_server, server_to_client-emplace_client,
}

-- Every request that the server knows stands among the requests of its session, under the id that
-- the session gave it. Where the session's id is optional, a request without one stands for itself.
pub record IsRouted (optional : Bool) (m : Mapping) : Type 0 where
  pub at :
      (request_id : Text) (route : Route)
      → find request_id m.server_to_client ≡ some route
      → (optional && is_empty route.req_id) ≡ false
      → find_client route.session_id route.req_id m ≡ some request_id

pub empty-IsRouted : (o : Bool) → IsRouted o empty
empty-IsRouted o = record { at = λ r route f e. unfold find in cc }

module _ (o : Bool) (m : Mapping) (v : IsRouted o m) where
  pub open_client-IsRouted : (s : ℕ) → IsRouted o (open_client s m)
  open_client-IsRouted s = record {
    at = λ r route f e.
        find_client-open_client s route.session_id route.req_id m
        ∙ v.at r route (unfold open_client in f) e;
  }

  -- A request without an id of the session's own, where that is optional.
  pub emplace_server-IsRouted :
      (r : Text) (route : Route)
      → ((o && is_empty route.req_id) ≡ true)
        ⊎ (find_client route.session_id route.req_id m ≡ some r)
      → IsRouted o (emplace_server r route m)
  emplace_server-IsRouted r route known = record {
    at = λ r' route' f e.
        find_client-emplace_server _ _ r route m
        ∙ ground
            (arith, find_server-emplace_server r r' route m, text_beq_iff r r', v.at r' route');
  }

  emplace_client-IsRouted : (c r : Text) (s : ℕ) → IsRouted o (emplace_client s c r m)
  emplace_client-IsRouted c r s = record {
    at = λ r' route' f e. ground (
      arith,
      server_to_client-emplace_client s c r m,
      find_client-emplace_client s route'.session_id c route'.req_id r m,
      v.at r' route',
    );
  }

  pub erase-IsRouted :
      (r : Text) (route : Route)
      → find r m.server_to_client ≡ some route
      → IsRouted o (erase_server r (erase_client route.session_id route.req_id m))
  erase-IsRouted r route known = record {
    at = λ r' route' f e. ground (
      arith,
      find_server-erase_server r r' (erase_client route.session_id route.req_id m),
      server_to_client-erase_client route.session_id route.req_id m,
      find_client-erase_server route'.session_id route'.req_id r
          (erase_client route.session_id route.req_id m),
      find_client-erase_client route.session_id route'.session_id route.req_id route'.req_id m,
      text_beq_iff r r',
      text_beq_iff route.req_id route'.req_id,
      nat_beq_iff route.session_id route'.session_id,
      v.at r' route',
      v.at r route,
    );
  }

  pub remove_req_id-IsRouted : (r : Text) → IsRouted o (remove_req_id r m).1
  unfolding remove_req_id
  remove_req_id-IsRouted [] = v
  remove_req_id-IsRouted (b ∷ r) = elim (Option-cases (find (b ∷ r) m.server_to_client)) [
    | inl absent ↦ rw (absent, remove_req_id) v
    | inr (route, known) ↦ rw (known, remove_req_id) (erase-IsRouted (b ∷ r) route known)
  ]

-- A session's id that is not in use yet.
pub add_req_id-IsRouted :
    (o : Bool) (m : Mapping)
    → IsRouted o m
    → (c r : Text) (s : ℕ) (k : Bool) → find_client s c m ≡ none
    → IsRouted o (add_req_id c r s k m)
unfolding add_req_id
add_req_id-IsRouted o m v c r s k unused =
    emplace_server-IsRouted o (emplace_client s c r m) (emplace_client-IsRouted o m v c r s) r _ (
      inr (
        find_client-emplace_client s s c c r m
        ∙ ground (arith, unused, nat_beq_iff s s, text_beq_iff c c)))

-- A route that is kept alive or not is otherwise the same route.
rerouted :
    (o : Bool) (m : Mapping)
    → IsRouted o m
    → (r : Text) (k : Bool) (route : Route) → find r m.server_to_client ≡ some route
    → IsRouted o (record m {
      server_to_client = assign r (record route { keep_alive = k }) m.server_to_client;
    })
unfolding find_client
rerouted o m v r k route known = record {
  at = λ r' route' f e. ground (
    arith,
    find-assign r r' (record route { keep_alive = k }) m.server_to_client,
    text_beq_iff r r',
    v.at r route known,
    v.at r' route',
  );
}

set_known :
    (m : Mapping) (r : Text) (k : Bool) (route : Route)
    → find r m.server_to_client ≡ some route
    → set_keep_alive r k m
      ≡ some (record m {
        server_to_client = assign r (record route { keep_alive = k }) m.server_to_client;
      })
unfolding set_keep_alive
set_known m r k route known = rw (known, set_keep_alive) refl

pub set_keep_alive-IsRouted :
    (o : Bool) (m n : Mapping)
    → IsRouted o m
    → (r : Text) (k : Bool) → set_keep_alive r k m ≡ some n
    → IsRouted o n
set_keep_alive-IsRouted o m n v r k e = elim (Option-cases (find r m.server_to_client)) [
  | inl absent ↦ absurd (unfold set_keep_alive in ground (arith, absent, e))
  | inr (route, known) ↦
      subst (IsRouted o) (some-injective _ _ (sym (set_known m r k route known) ∙ e))
        (rerouted o m v r k route known)
]
