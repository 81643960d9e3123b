-- ===== src/Mapping/Laws.antt =====
-- What the operations on a mapping do to its two lookups.
use roq_fix_proxy.Prelude.{
  ℕ, ◌≡◌, refl, Bool, ◌&&◌, none, [], ◌∷◌, arith, inl, inr, if◌then◌else◌, Option-cases, nat_beq,
  nat_beq_iff, nat_eq,
}
use roq_fix_proxy.Prelude.Text.{Text, text_beq, text_beq_iff, text_eq}
use roq_fix_proxy.Prelude.Map.{
  Map, find, erase, try_emplace, or_else, find-erase, find-assign, find-try_emplace,
}
use roq_fix_proxy.Mapping.{
  Mapping, Route, entries, find_client, open_client, emplace_client, emplace_server, erase_client,
  store_client, erase_server, close_client,
}

-- The lookup of a session's own id.
abbrev pub same : ℕ → Text → ℕ → Text → Bool
same s c t d = nat_beq s t && text_beq c d

pub find_client-open_client :
    (s t : ℕ) (d : Text) (m : Mapping) → find_client t d (open_client s m) ≡ find_client t d m
unfolding find_client open_client find
find_client-open_client s t d m =
    ground (arith, find-try_emplace s t [] m.client_to_server, nat_beq_iff s t)

pub find_client-emplace_client :
    (s t : ℕ) (c d r : Text) (m : Mapping)
    → find_client t d (emplace_client s c r m)
      ≡ (if same s c t d then or_else (find_client t d m) r else find_client t d m)
unfolding find_client emplace_client
find_client-emplace_client s t c d r m = ground (
  arith,
  find-assign s t (try_emplace c r (entries (find s m.client_to_server))) m.client_to_server,
  find-try_emplace c d r (entries (find s m.client_to_server)),
  nat_beq_iff s t,
  text_beq_iff c d,
)

find_client-store_client :
    (s t : ℕ) (d : Text) (inner : Map Text Text) (m : Mapping)
    → find_client t d (store_client s inner m)
      ≡ (if nat_beq s t then find d inner else find_client t d m)
unfolding find_client store_client find
find_client-store_client s t d [] m =
    ground (arith, find-erase s t m.client_to_server, nat_beq_iff s t)
find_client-store_client s t d (entry ∷ rest) m =
    ground (arith, find-assign s t (entry ∷ rest) m.client_to_server, nat_beq_iff s t)

pub find_client-erase_client :
    (s t : ℕ) (c d : Text) (m : Mapping)
    → find_client t d (erase_client s c m) ≡ (if same s c t d then none else find_client t d m)
unfolding erase_client
find_client-erase_client s t c d m = elim (Option-cases (find s m.client_to_server)) [
  | inl absent ↦
      rw (absent, erase_client) (unfold find_client find in ground (arith, nat_beq_iff s t))
  | inr (inner, present) ↦
      rw (present, erase_client)
        (unfold find_client in
          ground (
            arith,
            find_client-store_client s t d (erase c inner) m,
            find-erase c d inner,
            nat_beq_iff s t,
          ))
]

-- The other half of a mapping stays as it is.
pub server_to_client-erase_client :
    (s : ℕ) (c : Text) (m : Mapping) → (erase_client s c m).server_to_client ≡ m.server_to_client
unfolding erase_client
server_to_client-erase_client s c m = elim (Option-cases (find s m.client_to_server)) [
  | inl absent ↦ rw (absent, erase_client)
  | inr (inner, present) ↦ rw (present, erase_client) (stored (erase c inner))
]
  where
    stored :
        (inner : Map Text Text) → (store_client s inner m).server_to_client ≡ m.server_to_client
    stored [] = unfold store_client in refl
    stored (entry ∷ rest) = unfold store_client in refl

pub find_client-emplace_server :
    (t : ℕ) (d r : Text) (route : Route) (m : Mapping)
    → find_client t d (emplace_server r route m) ≡ find_client t d m
unfolding find_client emplace_server
find_client-emplace_server t d r route m = refl

pub find_client-erase_server :
    (t : ℕ) (d r : Text) (m : Mapping) → find_client t d (erase_server r m) ≡ find_client t d m
unfolding find_client erase_server
find_client-erase_server t d r m = refl

pub find_server-emplace_server :
    (r q : Text) (route : Route) (m : Mapping)
    → find q (emplace_server r route m).server_to_client ≡ (
        if text_beq r q
        then or_else (find r m.server_to_client) route
        else find q m.server_to_client)
unfolding emplace_server
find_server-emplace_server r q route m = find-try_emplace r q route m.server_to_client

pub find_server-erase_server :
    (r q : Text) (m : Mapping)
    → find q (erase_server r m).server_to_client
      ≡ (if text_beq r q then none else find q m.server_to_client)
unfolding erase_server
find_server-erase_server r q m = find-erase r q m.server_to_client

pub server_to_client-emplace_client :
    (s : ℕ) (c r : Text) (m : Mapping)
    → (emplace_client s c r m).server_to_client ≡ m.server_to_client
unfolding emplace_client
server_to_client-emplace_client s c r m = refl

pub find_client-close_client :
    (s t : ℕ) (d : Text) (m : Mapping)
    → find_client t d (close_client s m) ≡ (if nat_beq s t then none else find_client t d m)
unfolding find_client close_client find
find_client-close_client s t d m =
    ground (arith, find-erase s t m.client_to_server, nat_beq_iff s t)
