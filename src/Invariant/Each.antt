-- ===== src/Invariant/Each.antt =====
-- The loops over all client sessions of the store (client/manager.cpp, the operator on Event<Timer> and
-- get_all_sessions): a body that settles the session it is called on settles all of them.
use roq_fix_proxy.Prelude.{
  ℕ, ◌≡◌, refl, sym, ◌∙◌, true, false, some, List, [], ◌∷◌, nat_eq, nat_beq, nat_beq_iff, arith,
  if◌then◌else◌, ◌⊎◌, Bool-cases, inl, inr, subst,
}
use mathlib.Core.Option.{some-injective}
use roq_fix_proxy.Prelude.Map.{Map, find}
use roq_fix_proxy.Prelude.Effect.{Result, ok, err, ◌>>◌, resume, skip, for_each}
use roq_fix_proxy.World.{World, ClientSession}
use roq_fix_proxy.World.Access.{Method}
use roq_fix_proxy.Server.Inbound.{session_ids}
use roq_fix_proxy.Manager.Removal.{listed}

-- One session is `d` now, and the others are as they were.
abbrev pub Replaced : ℕ → ClientSession → World → World → Type 0
Replaced id d w v =
    (i : ℕ) → find i v.sessions ≡ (if nat_beq id i then some d else find i w.sessions)

pub Replaced-trans :
    (id : ℕ) (c d : ClientSession) (w v x : World)
    → Replaced id c w v
    → Replaced id d v x
    → Replaced id d w x
Replaced-trans id c d w v x first next i = elim (Bool-cases (nat_beq id i)) [
  | inl own ↦ rw own (next i ∙ rw own refl)
  | inr other ↦ rw other (next i ∙ (rw other refl ∙ (first i ∙ rw other refl)))
]

pub same_session :
    (id : ℕ) (c : ClientSession) (w : World) → find id w.sessions ≡ some c → Replaced id c w w
same_session id c w there i = ground (arith, there)

-- `H` holds of the world, and `P` of what a session was and what it is once it is settled. Who is settled
-- again stays settled.
module _ (H : World → Type 0) (P : ClientSession → ClientSession → Type 0) where
  -- The call returned, `H` holds still, and the session, which was `c`, is settled.
  abbrev pub Settled : ClientSession → ℕ → World → Result (Unit {0}) × World → Type 0
  Settled c id w x = (x.0 ≡ ok tt) × H x.1 × ((d : ClientSession) × Replaced id d w x.1 × P c d)

  pub Settled-trans :
      (b : ClientSession) (id : ℕ) (c : ClientSession) (w v : World) (x : Result (Unit {0}) × World)
      → Replaced id c w v
      → Settled b id v x
      → Settled b id w x
  Settled-trans b id c w v x first (o, h, (d, next, e)) =
      (o, h, (d, Replaced-trans id c d w v x.1 first next, e))

  -- A session was `c` at first, and is that still or is settled.
  abbrev Since : Map ℕ ClientSession → ℕ → ClientSession → Type 0
  Since first id d = (c : ClientSession) × (find id first ≡ some c) × ((c ≡ d) ⊎ P c d)

  -- While the loop runs: the sessions to come are in the store, and all the others are settled.
  record Going (first : Map ℕ ClientSession) (rest : List ℕ) (w : World) : Type 0 where
    pub holds : H w
    pub known :
        (id : ℕ)
        → listed id rest ≡ true
        → (d : ClientSession) × (find id w.sessions ≡ some d) × Since first id d
    pub done :
        (id : ℕ) (d : ClientSession)
        → find id w.sessions ≡ some d
        → listed id rest ≡ false
        → (c : ClientSession) × (find id first ≡ some c) × P c d

  module _ (first : Map ℕ ClientSession) (i : ℕ) (rest : List ℕ) (w v : World)
      (g : Going first (i ∷ rest) w) (c d : ClientSession) (from : find i first ≡ some c)
      (r : Replaced i d w v) (p : P c d) where
    own_found : (id : ℕ) → nat_beq i id ≡ true → find id first ≡ some c
    own_found id own =
        let e : i ≡ id = ground (arith, own, nat_beq_iff i id) in
        subst (λ k. find k first ≡ some c) e from

    still_known :
        (id : ℕ)
        → listed id rest ≡ true
        → (x : ClientSession) × (find id v.sessions ≡ some x) × Since first id x
    still_known id l = elim (Bool-cases (nat_beq i id)) [
      | inl own ↦ (d, r id ∙ rw own refl, (c, own_found id own, inr p))
      | inr other ↦ let x = g.known id (ground (arith, l)) in (x.0, r id ∙ rw other x.1, x.2)
    ]

    still_done :
        (id : ℕ) (x : ClientSession)
        → find id v.sessions ≡ some x
        → listed id rest ≡ false
        → (b : ClientSession) × (find id first ≡ some b) × P b x
    still_done id x f l = elim (Bool-cases (nat_beq i id)) [
      | inl own ↦
          (c, own_found id own, subst (P c) (some-injective _ _ (sym (r id ∙ rw own refl) ∙ f)) p)
      | inr other ↦ g.done id x (sym (r id ∙ rw other refl) ∙ f) (ground (arith, other, l))
    ]

  module _ (body : ℕ → Method)
      (step : (id : ℕ) (c : ClientSession) (w : World)
        → find id w.sessions ≡ some c
        → H w
        → Settled c id w (body id w))
      (again : (b c d : ClientSession) → P b c → P c d → P b d) where
    since_P : (b c d : ClientSession) → (b ≡ c) ⊎ P b c → P c d → P b d
    since_P b c d (inl e) p = subst (λ x. P x d) (sym e) p
    since_P b c d (inr q) p = again b c d q p

    goes_on :
        (first : Map ℕ ClientSession) (rest : List ℕ) (r : Result (Unit {0})) (v : World)
        → r ≡ ok tt
        → ((for_each rest body v).0 ≡ ok tt) × Going first [] (for_each rest body v).1
        → ((resume r (λ _. for_each rest body) v).0 ≡ ok tt)
          × Going first [] (resume r (λ _. for_each rest body) v).1
    goes_on first rest (ok tt) v e h = h
    goes_on first rest (err x) v e h = absurd cc

    loop :
        (first : Map ℕ ClientSession) (ids : List ℕ) (w : World)
        → Going first ids w
        → ((for_each ids body w).0 ≡ ok tt) × Going first [] (for_each ids body w).1
    unfolding for_each skip ◌>>◌
    loop first [] w g = (refl, g)
    loop first (i ∷ rest) w g =
        let (c, there, (b, from, since)) = g.known i (ground (arith, nat_beq_iff i i)) in
        let (o, h, (d, r, p)) = step i c w there g.holds in
        let q = since_P b c d since p in
        goes_on first rest _ _ o (
          loop first rest (body i w).1 (record {
            holds = h;
            known = still_known first i rest w (body i w).1 g b d from r q;
            done = still_done first i rest w (body i w).1 g b d from r q;
          }))

listed-session_ids :
    (m : Map ℕ ClientSession) (id : ℕ)
    → listed id (session_ids m) ≡ true
    → (c : ClientSession) × (find id m ≡ some c)
unfolding find
listed-session_ids [] id l = absurd cc
listed-session_ids ((i, c) ∷ m) id l = elim (Bool-cases (nat_beq i id)) [
  | inl own ↦ (c, rw own refl)
  | inr other ↦ let x = listed-session_ids m id (ground (arith, other, l)) in (x.0, rw other x.1)
]

unlisted :
    (m : Map ℕ ClientSession) (id : ℕ) (c : ClientSession)
    → find id m ≡ some c
    → listed id (session_ids m) ≡ false
    → ⊥
unfolding find
unlisted [] id c f l = cc
unlisted ((i, x) ∷ m) id c f l = elim (Bool-cases (nat_beq i id)) [
  | inl own ↦ ground (arith, own, l)
  | inr other ↦ unlisted m id c (ground (arith, other, f)) (ground (arith, other, l))
]

-- A body that settles its session and returns: the loop over all sessions returns, and what is in the
-- store afterwards is a session that was there before, and is settled.
pub for_each-Settled :
    (H : World → Type 0) (P : ClientSession → ClientSession → Type 0) (body : ℕ → Method)
    → ((id : ℕ) (c : ClientSession) (w : World)
        → find id w.sessions ≡ some c
        → H w
        → Settled H P c id w (body id w))
    → ((b c d : ClientSession) → P b c → P c d → P b d)
    → (w : World) → H w
    → ((for_each (session_ids w.sessions) body w).0 ≡ ok tt)
      × H (for_each (session_ids w.sessions) body w).1
      × ((id : ℕ) (d : ClientSession)
          → find id (for_each (session_ids w.sessions) body w).1.sessions ≡ some d
          → (c : ClientSession) × (find id w.sessions ≡ some c) × P c d)
for_each-Settled H P body step again w h =
    let (o, g) = loop H P body step again w.sessions (session_ids w.sessions) w (record {
      holds = h;
      known =
          λ id l. let x = listed-session_ids w.sessions id l in (x.0, x.1, (x.0, x.1, inl refl));
      done = λ id c f l. absurd (unlisted w.sessions id c f l);
    }) in
    (o, g.holds, λ id c f. g.done id c f refl)
