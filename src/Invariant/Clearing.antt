-- ===== src/Invariant/Clearing.antt =====
-- clear_req_ids keeps the invariant of every mapping and leaves no route to the session, whatever
-- quiet callback it is given.
use roq_fix_proxy.Prelude.{ℕ, ◌≡◌, refl, Option, none, some, [], ◌∷◌, nat_eq}
use roq_fix_proxy.Prelude.Text.{Text, text_eq}
use roq_fix_proxy.Prelude.Map.{Map}
use roq_fix_proxy.Prelude.Effect.{Result, ok, err, ◌>>◌, resume, for_each, skip}
use roq_fix_proxy.Mapping.{erase_server, close_client, entries}
use roq_fix_proxy.Mapping.Clearing.{
  Remains, IsForgotten, Remains-start, Remains-step, Remains-close,
}
use roq_fix_proxy.World.{World, Subscriptions}
use roq_fix_proxy.World.Mappings.{
  MappingName, get, put, is_optional, get-put_self, AllRouted, put-AllRouted,
}
use roq_fix_proxy.World.Access.{Method, modify_mapping}
use roq_fix_proxy.Controller.Disconnect.{clear_entry, clear_found, clear_req_ids}
use roq_fix_proxy.Invariant.{IsQuiet}

abbrev Clears : MappingName → ℕ → Map Text Text → Subscriptions → Type 0
Clears n s rest t = AllRouted t × Remains (is_optional n) s rest (get n t)

-- How the loop ends.
abbrev Ended : MappingName → ℕ → Result (Unit {0}) → Subscriptions → Type 0
Ended n s r t = AllRouted t × ((r ≡ ok tt) → Remains (is_optional n) s [] (get n t))

-- How clear_req_ids ends.
abbrev pub Cleared : MappingName → ℕ → Result (Unit {0}) → Subscriptions → Type 0
Cleared n s r t = AllRouted t × ((r ≡ ok tt) → IsForgotten (is_optional n) s (get n t))

Clears-step :
    (n : MappingName) (s : ℕ) (c q : Text) (rest : Map Text Text) (t : Subscriptions)
    → Clears n s ((c, q) ∷ rest) t
    → Clears n s rest (put n (erase_server q (get n t)) t)
Clears-step n s c q rest t h =
    let k = Remains-step (is_optional n) s (get n t) c q rest h.1 in
    (put-AllRouted _ t h.0 n k.routed, rw (get-put_self n) k)

module _ (n : MappingName) (s : ℕ) (callback : Text → Method)
    (quiet : (r : Text) → IsQuiet (callback r)) where
  round :
      (c q : Text) (tmp : Map Text Text) (r : Result (Unit {0})) (v : World)
      → Clears n s ((c, q) ∷ tmp) v.subscriptions
      → ((u : World)
          → Clears n s tmp u.subscriptions
          → Ended n s
              (for_each tmp (clear_entry n callback) u).0
              (for_each tmp (clear_entry n callback) u).1.subscriptions)
      → let x = resume r (λ _. modify_mapping n (erase_server q)) v in
        let y = resume x.0 (λ _. for_each tmp (clear_entry n callback)) x.1 in
        Ended n s y.0 y.1.subscriptions
  unfolding modify_mapping
  round c q tmp (err e) v h next = (h.0, λ x. absurd cc)
  round c q tmp (ok tt) v h next = next _ (Clears-step n s c q tmp v.subscriptions h)

  loop :
      (tmp : Map Text Text) (w : World)
      → Clears n s tmp w.subscriptions
      → Ended n s
          (for_each tmp (clear_entry n callback) w).0
          (for_each tmp (clear_entry n callback) w).1.subscriptions
  unfolding for_each skip ◌>>◌ clear_entry
  loop [] w h = (h.0, λ e. h.1)
  loop ((c, q) ∷ tmp) w h =
      round c q tmp (callback q w).0 (callback q w).1 (rw ((quiet q).subscriptions w) h) (loop tmp)

  closing :
      (r : Result (Unit {0})) (v : World)
      → Ended n s r v.subscriptions
      → let x = resume r (λ _. modify_mapping n (close_client s)) v in
        Cleared n s x.0 x.1.subscriptions
  unfolding modify_mapping
  closing (err e) v h = (h.0, λ x. absurd cc)
  closing (ok tt) v h =
      let k = Remains-close (is_optional n) s (get n v.subscriptions) (h.1 refl) in
      (put-AllRouted _ v.subscriptions h.0 n k.0, λ e. rw (get-put_self n) k.1)

  found :
      (tmp : Option (Map Text Text)) (w : World)
      → Clears n s (entries tmp) w.subscriptions
      → Cleared n s
          (clear_found n s callback tmp w).0
          (clear_found n s callback tmp w).1.subscriptions
  unfolding clear_found skip ◌>>◌
  found none w h = (h.0, λ e. record { at = λ r route f x same. h.1.at r route f x same })
  found (some tmp) w h = closing _ _ (loop tmp w h)

  pub clear_req_ids_lem :
      (w : World)
      → AllRouted w.subscriptions
      → Cleared n s (clear_req_ids n s callback w).0 (clear_req_ids n s callback w).1.subscriptions
  unfolding clear_req_ids
  clear_req_ids_lem w v =
      found _ w (v, Remains-start (is_optional n) s (get n w.subscriptions) (v.at n))
