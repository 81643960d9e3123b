-- ===== src/Mapping/Clearing.antt =====
-- clear_req_ids forgets a session: the loop over the session's entries drops what the server knows
-- of each, and then the session's entry goes. No route to the session is left.
use roq_fix_proxy.Prelude.{
  ℕ, ◌≡◌, Bool, false, ◌&&◌, some, [], ◌∷◌, arith, inl, inr, ◌⊎◌, ◌≢◌, sym, ◌∙◌, Bool-cases,
  nat_beq, nat_beq_iff, nat_eq,
}
use roq_fix_proxy.Prelude.Text.{Text, text_beq, text_beq_iff, text_eq, is_empty}
use roq_fix_proxy.Prelude.Map.{Map, find}
use roq_fix_proxy.Mapping.{Mapping, Route, entries, find_client, erase_server, close_client}
use roq_fix_proxy.Mapping.Laws.{
  find_client-erase_server, find_server-erase_server, find_client-close_client,
}
use roq_fix_proxy.Mapping.Routing.{IsRouted}

-- The id stands among those of the entries.
abbrev pub Among : Text → Map Text Text → Type 0
Among r [] = ⊥
Among r ((c, q) ∷ rest) = (q ≡ r) ⊎ Among r rest

Among-of_find : (c r : Text) (inner : Map Text Text) → find c inner ≡ some r → Among r inner
unfolding find
Among-of_find c r [] f = cc
Among-of_find c r ((d, q) ∷ rest) f = elim (Bool-cases (text_beq d c)) [
  | inl hit ↦ inl (ground (arith, hit, f))
  | inr miss ↦ inr (Among-of_find c r rest (ground (arith, miss, f)))
]

-- While the loop runs: what the server still knows of the session is among the entries to come.
pub record Remains (o : Bool) (s : ℕ) (rest : Map Text Text) (m : Mapping) : Type 0 where
  pub routed : IsRouted o m
  pub at :
      (r : Text) (route : Route)
      → find r m.server_to_client ≡ some route
      → (o && is_empty route.req_id) ≡ false
      → route.session_id ≡ s
      → Among r rest

-- No request of the session is left on the server's side.
pub record IsForgotten (o : Bool) (s : ℕ) (m : Mapping) : Type 0 where
  pub at :
      (r : Text) (route : Route)
      → find r m.server_to_client ≡ some route
      → (o && is_empty route.req_id) ≡ false
      → route.session_id ≢ s

module _ (o : Bool) (s : ℕ) (m : Mapping) where
  pub Remains-start : IsRouted o m → Remains o s (entries (find s m.client_to_server)) m
  unfolding find_client
  Remains-start v = record {
    routed = v;
    at = λ r route f e same. Among-of_find route.req_id r _ (rw (← same) (v.at r route f e));
  }

  pub erase_server-IsRouted : (q : Text) → IsRouted o m → IsRouted o (erase_server q m)
  erase_server-IsRouted q v = record {
    at = λ r route f e.
        find_client-erase_server _ _ q m
        ∙ ground (arith, find_server-erase_server q r m, v.at r route);
  }

  pub Remains-step :
      (c q : Text) (rest : Map Text Text)
      → Remains o s ((c, q) ∷ rest) m
      → Remains o s rest (erase_server q m)
  Remains-step c q rest v = record {
    routed = erase_server-IsRouted q v.routed;
    at = λ r route f e same. elim (Bool-cases (text_beq q r)) [
      | inl hit ↦ absurd (ground (arith, find_server-erase_server q r m))
      | inr miss ↦ ground (arith, find_server-erase_server q r m, v.at r route, text_beq_iff q r)
    ];
  }

  pub Remains-close :
      Remains o s [] m → IsRouted o (close_client s m) × IsForgotten o s (close_client s m)
  Remains-close v = (
    record {
      at = λ r route f e.
          find_client-close_client s route.session_id route.req_id m
          ∙ elim (Bool-cases (nat_beq s route.session_id)) [
            | inl own ↦
                absurd (v.at r route (unfold close_client in f) e (sym ((nat_beq_iff _ _).0 own)))
            | inr other ↦ rw other (v.routed.at r route (unfold close_client in f) e)
          ];
    },
    record { at = λ r route f e same. v.at r route (unfold close_client in f) e same },
  )

-- What erases keeps a session forgotten.
module _ (o : Bool) (s : ℕ) (m : Mapping) (v : IsForgotten o s m) where
  pub erase_server-IsForgotten : (q : Text) → IsForgotten o s (erase_server q m)
  erase_server-IsForgotten q = record {
    at = λ r route f e. ground (arith, find_server-erase_server q r m, v.at r route);
  }

  pub close_client-IsForgotten : (t : ℕ) → IsForgotten o s (close_client t m)
  unfolding close_client
  close_client-IsForgotten t = record { at = λ r route f e. v.at r route f e }
